-- ===== src/Budget/Fires.antt =====
-- internal/sessionstore: a crossed budget does fire when it is observed.
use coagent.Base.{ℕ, ◌-◌, ◌≤◌, ◌≡◌, ap, ◌∙◌, true, false, Option, none, some, str_eq, arith}
use coagent.Budget.{armed, FiredReason, Record, pos, minus, crossing_reason, ok}
use coagent.Budget.Store.{
  Session, Db, output_owner, checkpoint_key, insert_row, insert_output_tx, commit_lifecycle,
  check_budget, max_cost,
}
use coagent.Budget.Observe.{fired_record, fire_row, fire_budget_tx, budget_crossing, observe_budget}
use coagent.Budget.Checks.{write_budget-fine, put-here, with_row}

-- The session of a budget: a root with a manager, whose cost has not fallen below the baseline.
pub record IsOwned (d : Db) (r : Record) (s : Session) : Type 0 where
  pub row : d.sessions r.root_session_id ≡ some s
  pub is_root : s.parent_id ≡ 0
  pub has_manager : str_eq s.manager_id "" ≡ false
  pub grown : r.baseline_cost_usd ≤ s.tree_cost
  pub bounded : s.tree_cost ≤ max_cost

spent : Record → Session → ℕ
spent r s = s.tree_cost - r.baseline_cost_usd

minus-grown : (a b : ℕ) → b ≤ a → minus a b ≡ pos (a - b)
minus-grown a b le = ground (arith, le)

fires_check :
    (r : Record) (now observed : ℕ) (reason : FiredReason)
    → check_budget r ≡ true
    → r.state ≡ armed
    → observed ≤ max_cost
    → check_budget (fired_record now reason observed r) ≡ true
fires_check r now observed reason h was le = ground (arith, h, was, le)

owner_found :
    (d : Db) (r : Record) (s : Session)
    → IsOwned d r s
    → output_owner d r.root_session_id ≡ ok s.manager_id
unfolding output_owner
owner_found d r s owned = ground (arith, owned.row, owned.is_root, owned.has_manager)

insert-fine :
    (d : Db) (r : Record) (s : Session) (key : _)
    → IsOwned d r s
    → insert_output_tx d r.root_session_id key commit_lifecycle
      ≡ ok (insert_row d r.root_session_id key)
unfolding insert_output_tx
insert-fine d r s key owned = ground (arith, owner_found d r s owned)

insert_row-budgets : (d : Db) (id : ℕ) (key : _) → (insert_row d id key).0.budgets ≡ d.budgets
unfolding insert_row
insert_row-budgets d id key = ground arith

-- The row that a crossed budget fires with.
pub record Fires (d : Db) (now observed_at : ℕ) (r fires_with : Record) : Type 0 where
  pub after : Db
  pub observed :
      observe_budget d now r.root_session_id observed_at ≡ ok (after, some fires_with, true)
  pub stored : after.budgets r.root_session_id ≡ some fires_with

fire_row-ok :
    (d : Db) (r : Record) (s : Session) (now : ℕ) (reason : FiredReason)
    → check_budget r ≡ true
    → r.state ≡ armed
    → IsOwned d r s
    → fire_row d now reason (pos (spent r s)) r ≡ (
        let out =
          insert_row
            (with_row d (fired_record now reason (spent r s) r))
            r.root_session_id
            (checkpoint_key r.generation) in
        ok (out.0, none, out.1))
unfolding spent
fire_row-ok d r s now reason h was owned =
    let f = fired_record now reason (s.tree_cost - r.baseline_cost_usd) r in
    let e = with_row d f in
    let le : s.tree_cost - r.baseline_cost_usd ≤ max_cost = omega (arith, owned.bounded) in
    let wrote =
      write_budget-fine d f
        (fires_check r now (s.tree_cost - r.baseline_cost_usd) reason h was le) in
    let owned_e : IsOwned e f s = record {
      row = owned.row;
      is_root = owned.is_root;
      has_manager = owned.has_manager;
      grown = owned.grown;
      bounded = owned.bounded;
    } in
    ground (arith, wrote, insert-fine e f s (checkpoint_key r.generation) owned_e)

-- An armed budget that has been crossed fires when it is observed, with the reason and the cost of the
-- crossing, and asks its owner for a park: no error stands in the way for a row that passes the CHECK,
-- of a root session with a manager whose tree costs no less than the baseline.
pub observe_budget-Fires :
    (d : Db) (r : Record) (s : Session) (now observed_at : ℕ) (reason : FiredReason)
    → d.budgets r.root_session_id ≡ some r
    → check_budget r ≡ true
    → r.state ≡ armed
    → IsOwned d r s
    → crossing_reason r (minus s.tree_cost r.baseline_cost_usd) observed_at ≡ some reason
    → Fires d now observed_at r (fired_record now reason (s.tree_cost - r.baseline_cost_usd) r)
unfolding observe_budget budget_crossing fire_budget_tx spent
observe_budget-Fires d r s now observed_at reason there h was owned crossed =
    let f = fired_record now reason (spent r s) r in
    let e = with_row d f in
    let out = insert_row e r.root_session_id (checkpoint_key r.generation) in
    let shot = fire_row-ok d r s now reason h was owned in
    let kept : out.0.budgets r.root_session_id ≡ some f =
      ap (λ (t : ℕ → Option Record). t r.root_session_id)
        (insert_row-budgets e r.root_session_id (checkpoint_key r.generation))
      ∙ put-here d.budgets r.root_session_id (some f) in
    record {
      after = out.0;
      observed = ground (
        arith,
        there,
        was,
        owned.row,
        crossed,
        owner_found d r s owned,
        minus-grown s.tree_cost r.baseline_cost_usd owned.grown,
        shot,
        kept,
      );
      stored = kept;
    }
