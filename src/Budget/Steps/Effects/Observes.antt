-- ===== src/Budget/Steps/Effects/Observes.antt =====
-- internal/sessionstore/budget_output_store.go and commit_budget.go: what an observation of a budget has
-- changed, and the commit of a step.
use coagent.Base.{
  ℕ, ◌≡◌, refl, sym, ap, ◌∙◌, subst, true, false, ◌||◌, Option, none, some, ◌==◌, arith, Bool-cases,
  Option-cases, inl, inr, ◌⊎◌,
}
use coagent.Budget.{
  armed, FiredReason, Record, Delta, pos, negsuc, conflict, Attempt, ok, ◌>>=◌, or_fails, not_found,
}
use coagent.Budget.Store.{
  Db, checkpoint_key, insert_row, insert_output_tx, commit_lifecycle, OutputCommit, write_budget,
  output_owner,
}
use coagent.Budget.Observe.{
  is_armed, fired_record, Fired, observe_again, fire_row, fire_budget_tx, fire_budget,
  budget_crossing, Observation, fire_observed, observe_armed, observe_budget, Commit, CommitResult,
  commit_result, reload, observe_armed_commit_budget_tx, observe_commit_budget_tx,
}
use coagent.Budget.Steps.{Operation}
use coagent.Budget.Steps.Effects.{
  has_checkpoint, Change, fires, Effect, bind_ok, IsKeyed, found_again, with_row,
  write_budget-written, insert_output_tx-cases, same_db,
}
use coagent.Budget.Steps.Effects.Parks.{or_fails-found}

-- A checkpoint that is inserted is the only one that the outbox may have more.
insert_row-checkpoint :
    (d : Db) (id generation i g : ℕ)
    → (has_checkpoint (insert_row d id (checkpoint_key generation)).0 i g ≡ has_checkpoint d i g)
      ⊎ ((i ≡ id)
          × (g ≡ generation)
          × (has_checkpoint (insert_row d id (checkpoint_key generation)).0 i g ≡ true))
unfolding insert_row
insert_row-checkpoint d id generation i g = ground arith

insert_row-budgets :
    (d : Db) (id generation : ℕ)
    → (insert_row d id (checkpoint_key generation)).0.budgets ≡ d.budgets
unfolding insert_row
insert_row-budgets d id generation = ground arith

fire_row-Effect :
    (op : Operation) (d : Db) (id now : ℕ) (reason : FiredReason) (delta : Delta) (r : Record)
    (out : Fired)
    → IsKeyed d
    → d.budgets id ≡ some r
    → r.state ≡ armed
    → fire_row d now reason delta r ≡ ok out
    → Effect op d out.0
unfolding Effect
fire_row-Effect op d id now reason (negsuc n) r out keyed there at h = absurd (ground (arith, h))
fire_row-Effect op d id now reason (pos observed) r out keyed there at h =
    let s : Record = fired_record now reason observed r in
    let key = checkpoint_key r.generation in
    let wrote = bind_ok (write_budget d s) _ out h in
    let put_out =
      bind_ok (insert_output_tx wrote.0 r.root_session_id key commit_lifecycle) _ out wrote.2 in
    let written = write_budget-written d wrote.0 s wrote.1 in
    let ends : out.0 ≡ put_out.0.0 = ground (arith, put_out.2) in
    let inserted : (out.0 ≡ with_row d s)
        ⊎ (out.0 ≡ (insert_row (with_row d s) r.root_session_id key).0) =
      elim (insert_output_tx-cases wrote.0 r.root_session_id key commit_lifecycle put_out.0
        put_out.1) [
          | inl same ↦ inl (ends ∙ same ∙ written.1)
          | inr same ↦ inr (
              ends
              ∙ ap (λ (x : Db × OutputCommit). x.0) same
              ∙ ap (λ (x : Db). (insert_row x r.root_session_id key).0) written.1)
        ] in
    inr (
      s,
      record {
        put_row = elim inserted [
          | inl same ↦ ap (λ (x : Db). x.budgets) same
          | inr same ↦
              ap (λ (x : Db). x.budgets) same
              ∙ insert_row-budgets (with_row d s) r.root_session_id r.generation
        ];
        checked = written.0;
        change =
            subst (λ (o : Option Record). Change op o s) (sym (found_again d id r keyed there))
              (fires r s at refl refl);
        checkpoints = λ i g. elim inserted [
          | inl same ↦ inl (ap (λ (x : Db). has_checkpoint x i g) same)
          | inr same ↦
              elim (insert_row-checkpoint (with_row d s) r.root_session_id r.generation i g) [
                | inl kept ↦ inl (ap (λ (x : Db). has_checkpoint x i g) same ∙ kept)
                | inr new ↦
                    inr (refl, new.0, new.1, ap (λ (x : Db). has_checkpoint x i g) same ∙ new.2)
              ]
        ];
      },
    )

observe_again-same :
    (d : Db) (root generation : ℕ) (r : Record) (out : Fired)
    → observe_again d root generation r ≡ ok out
    → d ≡ out.0
observe_again-same d root generation r out h = ground (arith, h)

pub fire_budget_tx-Effect :
    (op : Operation) (d : Db) (now root generation : ℕ) (reason : FiredReason) (delta : Delta)
    (out : Fired)
    → IsKeyed d
    → fire_budget_tx d now root generation reason delta ≡ ok out
    → Effect op d out.0
unfolding fire_budget_tx
fire_budget_tx-Effect op d now root generation reason delta out keyed h =
    let found = bind_ok (or_fails (d.budgets root) conflict) _ out h in
    let r = found.0 in
    elim (Bool-cases (r.generation == generation)) [
      | inr other ↦ absurd (ground (arith, found.2, other))
      | inl this ↦ elim (Bool-cases (is_armed r.state)) [
        | inr late ↦
            same_db op d out.0
              (observe_again-same d root generation r out (ground (arith, found.2, this, late)))
        | inl on_time ↦
            fire_row-Effect op d root now reason delta r out keyed
              (or_fails-found (d.budgets root) conflict r found.1) (ground (arith, on_time))
              (ground (arith, found.2, this, on_time))
      ]
    ]

pub fire_budget-Effect :
    (op : Operation) (d : Db) (now root generation : ℕ) (reason : FiredReason) (observed : ℕ)
    (out : Fired)
    → IsKeyed d
    → fire_budget d now root generation reason observed ≡ ok out
    → Effect op d out.0
unfolding fire_budget
fire_budget-Effect op d now root generation reason observed out keyed h =
    elim (Bool-cases ((root == 0) || (generation == 0))) [
      | inl bad ↦ absurd (ground (arith, h, bad))
      | inr fine ↦
          let begun : (output_owner d root >>= λ _.
          fire_budget_tx d now root generation reason (pos observed))
              ≡ ok out =
            ground (arith, h, fine) in
          let owned = bind_ok (output_owner d root) _ out begun in
          fire_budget_tx-Effect op d now root generation reason (pos observed) out keyed owned.2
    ]

fire_observed-Effect :
    (op : Operation) (d : Db) (now : ℕ) (r : Record) (reason : FiredReason) (delta : Delta)
    (out : Observation)
    → IsKeyed d
    → fire_observed d now r reason delta ≡ ok out
    → Effect op d out.0
fire_observed-Effect op d now r reason delta out keyed h =
    let owned = bind_ok (output_owner d r.root_session_id) _ out h in
    let shot =
      bind_ok (fire_budget_tx d now r.root_session_id r.generation reason delta) _ out owned.2 in
    let same : shot.0.0 ≡ out.0 = ground (arith, shot.2) in
    subst (λ (x : Db). Effect op d x) same
      (fire_budget_tx-Effect op d now r.root_session_id r.generation reason delta shot.0 keyed
        shot.1)

abbrev after_crossing : Db → ℕ → Record → Delta → Option FiredReason → Attempt Observation
after_crossing d now r delta none = ok (d, some r, false)
after_crossing d now r delta (some reason) = fire_observed d now r reason delta

after_crossing-Effect :
    (op : Operation) (d : Db) (now : ℕ) (r : Record) (reason : Option FiredReason) (delta : Delta)
    (out : Observation)
    → IsKeyed d
    → after_crossing d now r delta reason ≡ ok out
    → Effect op d out.0
after_crossing-Effect op d now r none delta out keyed h = same_db op d out.0 (ground (arith, h))
after_crossing-Effect op d now r (some reason) delta out keyed h =
    fire_observed-Effect op d now r reason delta out keyed h

pub observe_budget-Effect :
    (op : Operation) (d : Db) (now root observed_at : ℕ) (out : Observation)
    → IsKeyed d
    → observe_budget d now root observed_at ≡ ok out
    → Effect op d out.0
unfolding observe_budget
observe_budget-Effect op d now root observed_at out keyed h = elim (Option-cases (d.budgets root)) [
  | inl none_there ↦ same_db op d out.0 (ground (arith, h, none_there))
  | inr there ↦ elim (Bool-cases (is_armed there.0.state)) [
    | inr late ↦ same_db op d out.0 (ground (arith, h, there.1, late))
    | inl on_time ↦
        let begun : observe_armed d now observed_at there.0 ≡ ok out =
          ground (arith, h, there.1, on_time) in
        let crossing =
          bind_ok (budget_crossing d there.0 observed_at)
            (λ x. after_crossing d now there.0 x.1 x.0) out begun in
        after_crossing-Effect op d now there.0 crossing.0.0 crossing.0.1 out keyed crossing.2
  ]
]

abbrev after_commit_crossing :
    Db → ℕ → Commit → Record → Delta → Option FiredReason → Attempt CommitResult
after_commit_crossing d now c r delta none = ok (commit_result c d r)
after_commit_crossing d now c r delta (some reason) =
    fire_budget_tx d now c.root_id r.generation reason delta >>= λ out. reload c out.0

after_commit_crossing-Effect :
    (op : Operation) (d : Db) (now : ℕ) (c : Commit) (r : Record) (reason : Option FiredReason)
    (delta : Delta) (out : CommitResult)
    → IsKeyed d
    → after_commit_crossing d now c r delta reason ≡ ok out
    → Effect op d out.db
after_commit_crossing-Effect op d now c r none delta out keyed h =
    same_db op d out.db (ground (arith, h))
after_commit_crossing-Effect op d now c r (some reason) delta out keyed h =
    let shot = bind_ok (fire_budget_tx d now c.root_id r.generation reason delta) _ out h in
    let again = bind_ok (or_fails (shot.0.0.budgets c.root_id) not_found) _ out shot.2 in
    let same : shot.0.0 ≡ out.db = ground (arith, again.2) in
    subst (λ (x : Db). Effect op d x) same
      (fire_budget_tx-Effect op d now c.root_id r.generation reason delta shot.0 keyed shot.1)

pub observe_commit_budget_tx-Effect :
    (op : Operation) (d : Db) (now : ℕ) (c : Commit) (out : CommitResult)
    → IsKeyed d
    → observe_commit_budget_tx d now c ≡ ok out
    → Effect op d out.db
unfolding observe_commit_budget_tx
observe_commit_budget_tx-Effect op d now c out keyed h = elim (Option-cases (d.budgets c.root_id)) [
  | inl none_there ↦ same_db op d out.db (ground (arith, h, none_there))
  | inr there ↦ elim (Bool-cases (is_armed there.0.state)) [
    | inr late ↦ same_db op d out.db (ground (arith, h, there.1, late))
    | inl on_time ↦
        let begun : observe_armed_commit_budget_tx d now c there.0 ≡ ok out =
          ground (arith, h, there.1, on_time) in
        let crossing =
          bind_ok (budget_crossing d there.0 c.at)
            (λ x. after_commit_crossing d now c there.0 x.1 x.0) out begun in
        after_commit_crossing-Effect op d now c there.0 crossing.0.0 crossing.0.1 out keyed
          crossing.2
  ]
]
