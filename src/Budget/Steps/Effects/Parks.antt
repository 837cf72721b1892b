-- ===== src/Budget/Steps/Effects/Parks.antt =====
-- internal/sessionstore/budget_park_store.go and the releases: what each of the statements that drain,
-- park, release or resume a budget has changed.
use coagent.Base.{
  ℕ, ◌≡◌, refl, sym, subst, true, false, Option, none, some, String, arith, Bool-cases,
  Option-cases, inl, inr,
}
use coagent.Budget.{
  ReleasedReason, resumed, ParkPhase, unparked, requested, draining, parked, ParkOwner,
  budget_owner, Record, conflict, Attempt, ok, fails, or_fails,
}
use coagent.Budget.Store.{Db, write_budget}
use coagent.Budget.Observe.{is_fired}
use coagent.Budget.Park.{
  owner_eq, phase_eq, owns_phase, begin_budget_drain, mark_budget_parked, release_reason_of,
  is_released, released_record, release_row, release_budget, prepare_manager_model_input,
}
use coagent.Budget.Steps.{Operation, drain_op, park_op}
use coagent.Budget.Steps.Effects.{
  Keeps, drains, parks, releases, Effect, bind_ok, Keeps-all, IsKeyed, written_over,
}

pub or_fails-found : {A : Type 0} (o : Option A) (e : _) (a : A) → or_fails o e ≡ ok a → o ≡ some a
or_fails-found none e a h = absurd (ground (arith, h))
or_fails-found (some b) e a h = ground (arith, h)

owner_eq_sound : (a b : Option ParkOwner) → owner_eq a b ≡ true → a ≡ b
owner_eq_sound none none h = refl
owner_eq_sound none (some b) h = absurd (ground (arith, h))
owner_eq_sound (some a) none h = absurd (ground (arith, h))
owner_eq_sound (some (budget_owner r g)) (some (budget_owner s k)) h = ground (arith, h)

pub begin_budget_drain-Effect :
    (d e : Db) (root generation : ℕ) (owner : Option ParkOwner)
    → IsKeyed d
    → begin_budget_drain d root generation owner ≡ ok e
    → Effect (drain_op root generation owner) d e
unfolding begin_budget_drain
begin_budget_drain-Effect d e root generation owner keyed h =
    let found = bind_ok (or_fails (d.budgets root) conflict) _ e h in
    let r = found.0 in
    elim (Bool-cases (owns_phase generation owner requested r)) [
      | inr other ↦ absurd (ground (arith, found.2, other))
      | inl owns ↦
          let written : write_budget d (record r { park_phase = draining }) ≡ ok e =
            ground (arith, found.2, owns) in
          written_over (drain_op root generation owner) d e e root r
            (record r { park_phase = draining }) keyed
            (or_fails-found (d.budgets root) conflict r found.1) refl written
            (drains r (record r { park_phase = draining }) (ground (arith, owns))
              (ground (arith, owns)) refl)
            (Keeps-all e)
    ]

pub mark_budget_parked-Effect :
    (d e : Db) (root generation : ℕ) (owner : Option ParkOwner)
    → IsKeyed d
    → mark_budget_parked d root generation owner ≡ ok e
    → Effect (park_op root generation owner) d e
unfolding mark_budget_parked
mark_budget_parked-Effect d e root generation owner keyed h =
    let found = bind_ok (or_fails (d.budgets root) conflict) _ e h in
    let r = found.0 in
    let s : Record = record r { park_phase = parked; park_owner = none } in
    elim (Bool-cases (owns_phase generation owner draining r)) [
      | inr other ↦ absurd (ground (arith, found.2, other))
      | inl owns ↦
          let there = or_fails-found (d.budgets root) conflict r found.1 in
          let same_root : root ≡ r.root_session_id = sym (keyed.key root r there) in
          let same_generation : generation ≡ r.generation = ground (arith, owns) in
          let same_owner : owner ≡ r.park_owner =
            sym (owner_eq_sound r.park_owner owner (ground (arith, owns))) in
          written_over (park_op root generation owner) d e e root r s keyed there refl
            (ground (arith, found.2, owns))
            (parks r s (ground (arith, same_root, same_generation, same_owner))
              (ground (arith, owns)) refl)
            (Keeps-all e)
    ]

-- A row that is not draining is released.
pub released_over :
    (op : Operation) (d e f : Db) (id now : ℕ) (reason : ReleasedReason) (r : Record)
    → IsKeyed d
    → d.budgets id ≡ some r
    → (r.park_phase ≡ draining → ⊥)
    → write_budget d (released_record now reason r) ≡ ok e
    → Keeps e f
    → Effect op d f
released_over op d e f id now reason r keyed there stays h keeps =
    let s = released_record now reason r in
    written_over op d e f id r s keyed there refl h (releases r s refl refl stays) keeps

pub not_draining : (p : ParkPhase) → phase_eq p draining ≡ false → p ≡ draining → ⊥
not_draining p h same = ground (arith, h, same)

release_row-Effect :
    (op : Operation) (d e : Db) (id now generation : ℕ) (reason : ReleasedReason) (r : Record)
    → IsKeyed d
    → d.budgets id ≡ some r
    → release_row d now generation reason r ≡ ok e
    → Effect op d e
unfolding Effect
release_row-Effect op d e id now generation reason r keyed there h =
    elim (Bool-cases (phase_eq r.park_phase draining)) [
      | inl drain ↦
          let same : d ≡ e = ground (arith, h, drain) in
          inl (subst (λ (x : Db). Keeps d x) same (Keeps-all d))
      | inr free ↦ elim (Bool-cases (is_released r.state)) [
        | inl done ↦
            let same : d ≡ e = ground (arith, h, done) in
            inl (subst (λ (x : Db). Keeps d x) same (Keeps-all d))
        | inr open_row ↦
            released_over op d e e id now reason r keyed there (not_draining r.park_phase free)
              (ground (arith, h, free, open_row)) (Keeps-all e)
      ]
    ]

pub release_budget-Effect :
    (op : Operation) (d e : Db) (now root generation : ℕ) (reason : String)
    → IsKeyed d
    → release_budget d now root generation reason ≡ ok e
    → Effect op d e
unfolding release_budget
release_budget-Effect op d e now root generation reason keyed h =
    let why = bind_ok (or_fails (release_reason_of reason) conflict) _ e h in
    let found = bind_ok (or_fails (d.budgets root) conflict) _ e why.2 in
    release_row-Effect op d e root now generation why.0 found.0 keyed
      (or_fails-found (d.budgets root) conflict found.0 found.1) found.2

abbrev resume_row : Db → ℕ → Record → ParkPhase → Attempt Db
resume_row d now r requested = write_budget d (released_record now resumed r)
resume_row d now r parked = write_budget d (released_record now resumed r)
resume_row d now r draining = fails conflict
resume_row d now r unparked = fails conflict

resume_row-Effect :
    (op : Operation) (d e : Db) (now root : ℕ) (r : Record) (p : ParkPhase)
    → IsKeyed d
    → d.budgets root ≡ some r
    → r.park_phase ≡ p
    → resume_row d now r p ≡ ok e
    → Effect op d e
resume_row-Effect op d e now root r requested keyed there at h =
    released_over op d e e root now resumed r keyed there (λ same. ground (arith, at, same)) h
      (Keeps-all e)
resume_row-Effect op d e now root r parked keyed there at h =
    released_over op d e e root now resumed r keyed there (λ same. ground (arith, at, same)) h
      (Keeps-all e)
resume_row-Effect op d e now root r draining keyed there at h = absurd (ground (arith, h))
resume_row-Effect op d e now root r unparked keyed there at h = absurd (ground (arith, h))

pub prepare_manager_model_input-Effect :
    (op : Operation) (d e : Db) (now root : ℕ)
    → IsKeyed d
    → prepare_manager_model_input d now root ≡ ok e
    → Effect op d e
unfolding prepare_manager_model_input Effect
prepare_manager_model_input-Effect op d e now root keyed h = elim (Option-cases (d.budgets root)) [
  | inl none_there ↦
      let same : d ≡ e = ground (arith, h, none_there) in
      inl (subst (λ (x : Db). Keeps d x) same (Keeps-all d))
  | inr there ↦ elim (Bool-cases (is_fired there.0.state)) [
    | inr quiet ↦
        let same : d ≡ e = ground (arith, h, there.1, quiet) in
        inl (subst (λ (x : Db). Keeps d x) same (Keeps-all d))
    | inl fires ↦
        let resumed_row : resume_row d now there.0 there.0.park_phase ≡ ok e =
          ground (arith, h, there.1, fires) in
        resume_row-Effect op d e now root there.0 there.0.park_phase keyed there.1 refl resumed_row
  ]
]
