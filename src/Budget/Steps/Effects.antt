-- ===== src/Budget/Steps/Effects.antt =====
-- internal/sessionstore: what an operation on budgets that succeeds has changed. It writes no budget,
-- or one row, in one of a few ways.

pub mod Parks
pub mod Observes
pub mod Mutates
use coagent.Base.{
  ℕ, suc, ◌+◌, ◌≡◌, refl, sym, subst, ap, ◌∙◌, Bool, true, false, not, ◌&&◌, ◌||◌, List, [], ◌∷◌,
  Option, none, some, String, any, ◌==◌, if◌then◌else◌, arith, Bool-cases, Option-cases, inl, inr,
  ◌⊎◌,
}
use coagent.Budget.{
  State, armed, fired, released, ParkPhase, unparked, requested, draining, parked, ParkOwner,
  Record, Attempt, ok, fails, ◌>>=◌, or_fails, require, conflict,
}
use coagent.Budget.Store.{
  Db, SourceKey, checkpoint_key, direct_key, is_output, put, output_owner, output_session_writable,
  insert_row, insert_output_tx, CommitMode, commit_loop, OutputCommit, insert_owned,
  ActivationBinding, is_complete, consume_activation, consume_activation_tx, check_budget,
  write_budget,
}
use coagent.Budget.Mutate.{Mutation, binding_of, settle}
use coagent.Budget.Steps.{Operation, park_op}

-- Whether the checkpoint of a generation stands in the outbox.
abbrev pub has_checkpoint : Db → ℕ → ℕ → Bool
has_checkpoint d id generation = any (is_output id (checkpoint_key generation)) d.outbox

-- The budgets and their checkpoints are the same.
pub record Keeps (d e : Db) : Type 0 where
  pub budgets_kept : e.budgets ≡ d.budgets
  pub checkpoints_kept :
      (id generation : ℕ) → has_checkpoint e id generation ≡ has_checkpoint d id generation

-- The ways to write a row, by the row that stood there.
pub data Change (op : Operation) : Option Record → Record → Type 0 where
  arms_absent : (s : Record) → s.state ≡ armed → s.generation ≡ 1 → Change op none s
  arms :
      (r s : Record)
      → s.state ≡ armed
      → s.generation ≡ suc r.generation
      → (r.state ≡ fired → r.park_phase ≡ draining → ⊥)
      → Change op (some r) s
  fires :
      (r s : Record)
      → r.state ≡ armed
      → s.state ≡ fired
      → s.generation ≡ r.generation
      → Change op (some r) s
  releases_absent : (s : Record) → s.state ≡ released → s.generation ≡ 1 → Change op none s
  releases :
      (r s : Record)
      → s.state ≡ released
      → s.generation ≡ r.generation
      → (r.park_phase ≡ draining → ⊥)
      → Change op (some r) s
  drains :
      (r s : Record)
      → r.park_phase ≡ requested
      → s.state ≡ fired
      → s.generation ≡ r.generation
      → Change op (some r) s
  parks :
      (r s : Record)
      → op ≡ park_op s.root_session_id r.generation r.park_owner
      → s.state ≡ fired
      → s.generation ≡ r.generation
      → Change op (some r) s

-- One row is written; only a row that fires may add a checkpoint, that of its generation.
pub record Writes (op : Operation) (d e : Db) (s : Record) : Type 0 where
  pub put_row : e.budgets ≡ put d.budgets s.root_session_id (some s)
  pub checked : check_budget s ≡ true
  pub change : Change op (d.budgets s.root_session_id) s
  pub checkpoints :
      (id generation : ℕ)
      → (has_checkpoint e id generation ≡ has_checkpoint d id generation)
        ⊎ ((s.state ≡ fired)
            × (id ≡ s.root_session_id)
            × (generation ≡ s.generation)
            × (has_checkpoint e id generation ≡ true))

unfoldable pub Effect : Operation → Db → Db → Type 0
Effect op d e = Keeps d e ⊎ ((s : Record) × Writes op d e s)

pub bind_ok {ℓ κ} :
    {A : Type ℓ} {B : Type κ} (o : Attempt A) (f : A → Attempt B) (b : B)
    → o >>= f ≡ ok b
    → (a : A) × (o ≡ ok a) × (f a ≡ ok b)
bind_ok (ok a) f b h = (a, refl, h)
bind_ok (fails e) f b h = absurd (ground (arith, h))

pub Keeps-all : (d : Db) → Keeps d d
Keeps-all d = record { budgets_kept = refl; checkpoints_kept = λ id generation. refl }

pub Keeps-both : (d e f : Db) → Keeps d e → Keeps e f → Keeps d f
Keeps-both d e f h k = record {
  budgets_kept = k.budgets_kept ∙ h.budgets_kept;
  checkpoints_kept =
      λ id generation. k.checkpoints_kept id generation ∙ h.checkpoints_kept id generation;
}

pub insert_row-direct :
    (d : Db) (id : ℕ) (call : String) → Keeps d (insert_row d id (direct_key call)).0
unfolding insert_row
insert_row-direct d id call = record {
  budgets_kept = ground arith;
  checkpoints_kept = λ i g. ground arith;
}

-- Either no row is inserted, or that of `insert_row`.
insert_owned-cases :
    (o : Attempt String) (d : Db) (id : ℕ) (key : SourceKey) (mode : CommitMode)
    (out : Db × OutputCommit)
    → insert_owned o d id key mode ≡ ok out
    → (out.0 ≡ d) ⊎ (out ≡ insert_row d id key)
unfolding output_session_writable
insert_owned-cases o d id key mode out h = ground (arith, h)

pub insert_output_tx-cases :
    (d : Db) (id : ℕ) (key : SourceKey) (mode : CommitMode) (out : Db × OutputCommit)
    → insert_output_tx d id key mode ≡ ok out
    → (out.0 ≡ d) ⊎ (out ≡ insert_row d id key)
unfolding insert_output_tx
insert_output_tx-cases d id key mode out h =
    insert_owned-cases (output_owner d id) d id key mode out h

pub insert_output_tx-direct :
    (d : Db) (id : ℕ) (call : String) (mode : CommitMode) (out : Db × OutputCommit)
    → insert_output_tx d id (direct_key call) mode ≡ ok out
    → Keeps d out.0
insert_output_tx-direct d id call mode out h =
    elim (insert_output_tx-cases d id (direct_key call) mode out h) [
      | inl same ↦ subst (λ (x : Db). Keeps d x) (sym same) (Keeps-all d)
      | inr same ↦
          subst (λ (x : Db × OutputCommit). Keeps d x.0) (sym same) (insert_row-direct d id call)
    ]

pub consume_activation_tx-Keeps :
    (d e : Db) (b : ActivationBinding) → consume_activation_tx d b ≡ ok e → Keeps d e
unfolding consume_activation_tx
consume_activation_tx-Keeps d e b h =
    let complete = bind_ok (require (is_complete b) conflict) _ e h in
    let found = bind_ok (or_fails (d.activations b.input_id) conflict) _ e complete.2 in
    let used = bind_ok (consume_activation found.0 b) _ e found.2 in
    record {
      budgets_kept = ground (arith, used.2);
      checkpoints_kept = λ id generation. ground (arith, used.2);
    }

pub settle-Keeps : (d e : Db) (m : Mutation) → settle d m ≡ ok e → Keeps d e
settle-Keeps d e m h =
    let used = bind_ok (consume_activation_tx d (binding_of m)) _ e h in
    let out =
      bind_ok (insert_output_tx used.0 m.grant_session_id (direct_key m.tool_call_id) commit_loop) _
        e used.2 in
    let same : out.0.0 ≡ e = ground (arith, out.2) in
    Keeps-both d used.0 e (consume_activation_tx-Keeps d used.0 (binding_of m) used.1) (
      subst (λ (x : Db). Keeps used.0 x) same
        (insert_output_tx-direct used.0 m.grant_session_id m.tool_call_id commit_loop out.0 out.1))

-- Every row stands under the id that it carries.
pub record IsKeyed (d : Db) : Type 0 where
  pub key : (id : ℕ) (r : Record) → d.budgets id ≡ some r → r.root_session_id ≡ id

pub found_again :
    (d : Db) (id : ℕ) (r : Record)
    → IsKeyed d
    → d.budgets id ≡ some r
    → d.budgets r.root_session_id ≡ some r
found_again d id r keyed found = ap d.budgets (keyed.key id r found) ∙ found

abbrev pub with_row : Db → Record → Db
with_row d s = record d { budgets = put d.budgets s.root_session_id (some s) }

pub write_budget-written :
    (d e : Db) (s : Record) → write_budget d s ≡ ok e → (check_budget s ≡ true) × (e ≡ with_row d s)
unfolding write_budget
write_budget-written d e s h = elim (Bool-cases (check_budget s)) [
  | inl fine ↦ (fine, ground (arith, h, fine))
  | inr bad ↦ absurd (ground (arith, h, bad))
]

-- A row is written, and what follows keeps the budgets and their checkpoints.
pub written-Writes :
    (op : Operation) (d e f : Db) (s : Record)
    → write_budget d s ≡ ok e
    → Change op (d.budgets s.root_session_id) s
    → Keeps e f
    → Writes op d f s
written-Writes op d e f s h change keeps =
    let written = write_budget-written d e s h in
    record {
      put_row = keeps.budgets_kept ∙ ap (λ (x : Db). x.budgets) written.1;
      checked = written.0;
      change = change;
      checkpoints = λ id generation. inl (
          keeps.checkpoints_kept id generation
          ∙ ap (λ (x : Db). has_checkpoint x id generation) written.1);
    }

-- The row that stood there gives way to one under the same id.
pub written_over :
    (op : Operation) (d e f : Db) (id : ℕ) (r s : Record)
    → IsKeyed d
    → d.budgets id ≡ some r
    → s.root_session_id ≡ r.root_session_id
    → write_budget d s ≡ ok e
    → Change op (some r) s
    → Keeps e f
    → Effect op d f
unfolding Effect
written_over op d e f id r s keyed found same h change keeps =
    let there : d.budgets s.root_session_id ≡ some r =
      ap d.budgets same ∙ found_again d id r keyed found in
    inr (
      s,
      written-Writes op d e f s h (subst (λ (o : Option Record). Change op o s) (sym there) change)
          keeps,
    )

pub same_db : (op : Operation) (d e : Db) → d ≡ e → Effect op d e
unfolding Effect
same_db op d e same = inl (subst (λ (x : Db). Keeps d x) same (Keeps-all d))
