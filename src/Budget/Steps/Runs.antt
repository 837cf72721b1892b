-- ===== src/Budget/Steps/Runs.antt =====
-- internal/sessionstore: every operation on budgets changes what its kind allows, and keeps each row
-- under the id of its root.
use coagent.Base.{
  ℕ, ◌≡◌, sym, ap, ◌∙◌, subst, true, false, Option, some, ◌==◌, arith, Bool-cases, inl, inr,
}
use coagent.Budget.{Record, ok}
use coagent.Budget.Store.{Db, put}
use coagent.Budget.Observe.{fire_budget, observe_budget, observe_commit_budget_tx}
use coagent.Budget.Steps.{
  Operation, arm_op, clear_op, fire_op, observe_op, commit_op, drain_op, park_op, release_op,
  resume_op, run, Reaches, stay, runs, spends,
}
use coagent.Budget.Steps.Effects.{Effect, bind_ok, IsKeyed}
use coagent.Budget.Steps.Effects.Parks.{
  begin_budget_drain-Effect, mark_budget_parked-Effect, release_budget-Effect,
  prepare_manager_model_input-Effect,
}
use coagent.Budget.Steps.Effects.Observes.{
  fire_budget-Effect, observe_budget-Effect, observe_commit_budget_tx-Effect,
}
use coagent.Budget.Steps.Effects.Mutates.{arm-Effect, clear-Effect}

pub run-Effect : (op : Operation) (d e : Db) → IsKeyed d → run op d ≡ ok e → Effect op d e
unfolding run
run-Effect (arm_op now m) d e keyed h = arm-Effect (arm_op now m) d e now m keyed h
run-Effect (clear_op now m) d e keyed h = clear-Effect (clear_op now m) d e now m keyed h
run-Effect (fire_op now root generation reason observed) d e keyed h =
    let op = fire_op now root generation reason observed in
    let out = bind_ok (fire_budget d now root generation reason observed) _ e h in
    let same : out.0.0 ≡ e = ground (arith, out.2) in
    subst (λ (x : Db). Effect op d x) same
      (fire_budget-Effect op d now root generation reason observed out.0 keyed out.1)
run-Effect (observe_op now root observed_at) d e keyed h =
    let op = observe_op now root observed_at in
    let out = bind_ok (observe_budget d now root observed_at) _ e h in
    let same : out.0.0 ≡ e = ground (arith, out.2) in
    subst (λ (x : Db). Effect op d x) same
      (observe_budget-Effect op d now root observed_at out.0 keyed out.1)
run-Effect (commit_op now c) d e keyed h =
    let op = commit_op now c in
    let out = bind_ok (observe_commit_budget_tx d now c) _ e h in
    let same : out.0.db ≡ e = ground (arith, out.2) in
    subst (λ (x : Db). Effect op d x) same
      (observe_commit_budget_tx-Effect op d now c out.0 keyed out.1)
run-Effect (drain_op root generation owner) d e keyed h =
    begin_budget_drain-Effect d e root generation owner keyed h
run-Effect (park_op root generation owner) d e keyed h =
    mark_budget_parked-Effect d e root generation owner keyed h
run-Effect (release_op now root generation reason) d e keyed h =
    release_budget-Effect (release_op now root generation reason) d e now root generation reason
      keyed h
run-Effect (resume_op now root) d e keyed h =
    prepare_manager_model_input-Effect (resume_op now root) d e now root keyed h

-- A row other than the one that is written stays.
pub put-other :
    (t : ℕ → Option Record) (k j : ℕ) (o : Option Record) → (j == k) ≡ false → put t k o j ≡ t j
put-other t k j o other = ground (arith, other)

pub put-same :
    (t : ℕ → Option Record) (k j : ℕ) (o : Option Record) → (j == k) ≡ true → put t k o j ≡ o
put-same t k j o same = ground (arith, same)

Effect-IsKeyed : (op : Operation) (d e : Db) → Effect op d e → IsKeyed d → IsKeyed e
unfolding Effect
Effect-IsKeyed op d e (inl keeps) keyed = record {
  key = λ id r found.
      keyed.key id r (sym (ap (λ (t : ℕ → Option Record). t id) keeps.budgets_kept) ∙ found);
}
Effect-IsKeyed op d e (inr (s, writes)) keyed = record {
  key = λ id r found.
      let root = s.root_session_id in
      let there : put d.budgets root (some s) id ≡ some r =
        sym (ap (λ (t : ℕ → Option Record). t id) writes.put_row) ∙ found in
      elim (Bool-cases (id == root)) [
        | inl same ↦
            let this : s ≡ r = ground (arith, there, put-same d.budgets root id (some s) same) in
            ground (arith, same, sym (ap (λ (x : Record). x.root_session_id) this))
        | inr other ↦ keyed.key id r (sym (put-other d.budgets root id (some s) other) ∙ there)
      ];
}

pub run-IsKeyed : (op : Operation) (d e : Db) → run op d ≡ ok e → IsKeyed d → IsKeyed e
run-IsKeyed op d e h keyed = Effect-IsKeyed op d e (run-Effect op d e keyed h) keyed

pub Reaches-IsKeyed : (d e : Db) → Reaches d e → IsKeyed d → IsKeyed e
Reaches-IsKeyed d _ (stay _) keyed = keyed
Reaches-IsKeyed d f (runs _ e _ op before h) keyed =
    run-IsKeyed op e f h (Reaches-IsKeyed d e before keyed)
Reaches-IsKeyed d _ (spends _ e sessions before) keyed =
    let there = Reaches-IsKeyed d e before keyed in
    record { key = λ id r found. there.key id r found }
