-- ===== src/Budget/Observe.antt =====
-- internal/sessionstore/budget_output_store.go and commit_budget.go: a budget fires when an observation,
-- or the commit of a step, finds it crossed. Times are arguments.
use coagent.Base.{
  ℕ, Bool, true, false, not, ◌||◌, List, [], Option, none, some, String, any, ◌==◌, if◌then◌else◌,
}
use coagent.Budget.{
  State, armed, fired, FiredReason, requested, budget_owner, Record, Delta, pos, negsuc, minus,
  crossing_reason, conflict, output_conflict, check_failed, not_found, Attempt, ok, fails, ◌>>=◌,
  or_fails,
}
use coagent.Budget.Store.{
  Db, Session, checkpoint_key, is_output, output_owner, insert_output_tx, commit_lifecycle,
  OutputCommit, existing_output, write_budget,
}

abbrev pub is_armed : State → Bool
is_armed armed = true
is_armed _ = false

abbrev pub is_fired : State → Bool
is_fired fired = true
is_fired _ = false

-- The row that `fireBudgetTx` writes over an armed one.
abbrev pub fired_record : ℕ → FiredReason → ℕ → Record → Record
fired_record now reason observed r = record r {
  state = fired;
  fired_at = some now;
  fired_reason = some reason;
  observed_cost_usd = some observed;
  park_phase = requested;
  park_owner = some (budget_owner r.root_session_id r.generation);
}

-- `existing` of a duplicate observer, or none for the one that fires.
abbrev pub Fired : Type 0
Fired = Db × Option Record × OutputCommit

-- The budget is no longer armed: a duplicate observer gets what fired before.
abbrev pub observe_again : Db → ℕ → ℕ → Record → Attempt Fired
observe_again d root generation r =
    if not (is_fired r.state)
    then fails conflict
    else if any (is_output root (checkpoint_key generation)) d.outbox
    then ok (d, some r, existing_output)
    else fails output_conflict

-- A cost below the baseline is a negative number, which the CHECK on the row refuses.
abbrev pub fire_row : Db → ℕ → FiredReason → Delta → Record → Attempt Fired
fire_row d now reason (negsuc n) r = fails check_failed
fire_row d now reason (pos observed) r =
    write_budget d (fired_record now reason observed r) >>= λ written.
    insert_output_tx written r.root_session_id (checkpoint_key r.generation) commit_lifecycle
    >>= λ out. ok (out.0, none, out.1)

unfoldable pub fire_budget_tx : Db → ℕ → ℕ → ℕ → FiredReason → Delta → Attempt Fired
unfolding write_budget insert_output_tx
fire_budget_tx d now root generation reason delta = or_fails (d.budgets root) conflict >>= λ r.
    if not (r.generation == generation)
    then fails conflict
    else if is_armed r.state
    then fire_row d now reason delta r
    else observe_again d root generation r

-- `FireBudget`, for a reason that is one of the two and a text that is not empty.
unfoldable pub fire_budget : Db → ℕ → ℕ → ℕ → FiredReason → ℕ → Attempt Fired
unfolding fire_budget_tx output_owner
fire_budget d now root generation reason observed =
    if root == 0 || generation == 0
    then fails conflict
    else (output_owner d root >>= λ _. fire_budget_tx d now root generation reason (pos observed))

-- The sum that `budgetCrossing` selects, which is 0 where the session has no row.
abbrev pub cost_of_tree : Option Session → ℕ
cost_of_tree none = 0
cost_of_tree (some s) = s.tree_cost

-- `budgetCrossing`, with the difference of the costs.
unfoldable pub budget_crossing : Db → Record → ℕ → Attempt (Option FiredReason × Delta)
unfolding crossing_reason
budget_crossing d r observed_at =
    let delta = minus (cost_of_tree (d.sessions r.root_session_id)) r.baseline_cost_usd in
    ok (crossing_reason r delta observed_at, delta)

-- The record, and whether it has fired.
abbrev pub Observation : Type 0
Observation = Db × Option Record × Bool

abbrev pub fire_observed : Db → ℕ → Record → FiredReason → Delta → Attempt Observation
fire_observed d now r reason delta = output_owner d r.root_session_id >>= λ _.
    fire_budget_tx d now r.root_session_id r.generation reason delta >>= λ out.
    ok (out.0, out.0.budgets r.root_session_id, true)

abbrev pub observe_armed : Db → ℕ → ℕ → Record → Attempt Observation
observe_armed d now observed_at r = budget_crossing d r observed_at >>= λ crossing.
    elim crossing.0 [
      | none ↦ ok (d, some r, false)
      | some reason ↦ fire_observed d now r reason crossing.1
    ]

unfoldable pub observe_budget : Db → ℕ → ℕ → ℕ → Attempt Observation
unfolding output_owner fire_budget_tx budget_crossing
observe_budget d now root observed_at = elim (d.budgets root) [
  | none ↦ ok (d, none, false)
  | some r ↦
      if is_armed r.state
      then observe_armed d now observed_at r
      else ok (d, some r, is_fired r.state)
]

-- The last assistant message of a step: whether it was rejected, and the ids of its calls.
pub record AssistantMessage : Type 0 where
  pub is_rejected : Bool
  pub call_ids : List String

-- The part of a step's commit that the budget reads.
pub record Commit : Type 0 where
  pub root_id : ℕ
  pub at : ℕ
  pub assistant : Option AssistantMessage

-- The calls that get the result "Not executed because the budget checkpoint fired."
pub record CommitResult : Type 0 where
  pub db : Db
  pub budget : Option Record
  pub budget_fired : Bool
  pub not_executed : List String

abbrev pub refused_calls : Option AssistantMessage → List String
refused_calls none = []
refused_calls (some m) = if m.is_rejected then [] else m.call_ids

abbrev pub commit_result : Commit → Db → Record → CommitResult
commit_result c d r = record {
  db = d;
  budget = some r;
  budget_fired = is_fired r.state;
  not_executed = if is_fired r.state then refused_calls c.assistant else [];
}

abbrev pub reload : Commit → Db → Attempt CommitResult
reload c d = or_fails (d.budgets c.root_id) not_found >>= λ r. ok (commit_result c d r)

abbrev pub observe_armed_commit_budget_tx : Db → ℕ → Commit → Record → Attempt CommitResult
observe_armed_commit_budget_tx d now c r = budget_crossing d r c.at >>= λ crossing.
    elim crossing.0 [
      | none ↦ ok (commit_result c d r)
      | some reason ↦
          fire_budget_tx d now c.root_id r.generation reason crossing.1 >>= λ out. reload c out.0
    ]

unfoldable pub observe_commit_budget_tx : Db → ℕ → Commit → Attempt CommitResult
unfolding fire_budget_tx budget_crossing
observe_commit_budget_tx d now c = elim (d.budgets c.root_id) [
  | none ↦ ok (record { db = d; budget = none; budget_fired = false; not_executed = [] })
  | some r ↦
      if is_armed r.state
      then observe_armed_commit_budget_tx d now c r
      else ok (commit_result c d r)
]
