-- ===== src/Budget/Steps/Once.antt =====
-- internal/sessionstore: a checkpoint is inserted once for each generation of a budget. The outbox has
-- a unique index on the key of a checkpoint, under which a second one would be lost without an error.
use coagent.Base.{
  ℕ, ◌<◌, ◌≡◌, sym, ap, ◌∙◌, subst, Bool, true, false, Option, none, some, String, ◌==◌, ◌||◌,
  arith, Bool-cases, inl, inr, ◌⊎◌,
}
use coagent.Budget.{armed, fired, FiredReason, Record, pos, ok, ◌>>=◌}
use coagent.Budget.Store.{
  Db, checkpoint_key, output_owner, insert_row, insert_output_tx, commit_lifecycle, OutputCommit,
  new_output, write_budget,
}
use coagent.Budget.Observe.{Fired, fire_row, fire_budget_tx, fire_budget, fired_record}
use coagent.Budget.Steps.{Operation, run, Reaches, stay, runs, spends}
use coagent.Budget.Steps.Effects.{
  has_checkpoint, Change, arms_absent, arms, fires, releases_absent, releases, drains, parks,
  Writes, Effect, bind_ok, IsKeyed, with_row, write_budget-written,
}
use coagent.Budget.Steps.Runs.{run-Effect, Reaches-IsKeyed}
use coagent.Budget.Steps.Lock.{Writes-at}

-- The generations whose checkpoint may stand in the outbox: those up to the row's, and the row's own
-- only once it is no longer armed.
abbrev pub FreshAt : (ℕ → Bool) → Option Record → Type 0
FreshAt has none = (generation : ℕ) → has generation ≡ false
FreshAt has (some r) =
    ((generation : ℕ) → r.generation < generation → has generation ≡ false)
    × (r.state ≡ armed → has r.generation ≡ false)

pub record IsOnce (d : Db) : Type 0 where
  pub fresh : (id : ℕ) → FreshAt (has_checkpoint d id) (d.budgets id)

module _ (op : Operation) (has now : ℕ → Bool) (s : Record)
    (step : (g : ℕ) → (now g ≡ has g) ⊎ ((s.state ≡ fired) × (g ≡ s.generation))) where
  -- A generation that stays fresh.
  stays : (g : ℕ) → ((s.state ≡ fired) → (g ≡ s.generation) → ⊥) → has g ≡ false → now g ≡ false
  stays g other h = elim (step g) [ inl same ↦ same ∙ h | inr (at, this) ↦ absurd (other at this) ]

  later_than :
      (r : Record)
      → s.generation ≡ r.generation
      → FreshAt has (some r)
      → (g : ℕ) → s.generation < g
      → now g ≡ false
  later_than r same h g lt =
      stays g (λ _ this. omega (arith, this, lt)) (h.0 g (omega (arith, same, lt)))

  Change-FreshAt : (o : Option Record) → Change op o s → FreshAt has o → FreshAt now (some s)
  Change-FreshAt none (arms_absent _ at first) h = (
    λ g lt. stays g (λ was _. ground (arith, was, at)) (h g),
    λ _. stays s.generation (λ was _. ground (arith, was, at)) (h s.generation),
  )
  Change-FreshAt none (releases_absent _ at first) h = (
    λ g lt. stays g (λ was _. ground (arith, was, at)) (h g),
    λ is_armed_now. ground (arith, is_armed_now, at),
  )
  Change-FreshAt (some r) (arms _ _ at next free) h = (
    λ g lt. stays g (λ was _. ground (arith, was, at)) (h.0 g (omega (arith, next, lt))),
    λ _.
        stays s.generation (λ was _. ground (arith, was, at))
          (h.0 s.generation (omega (arith, next))),
  )
  Change-FreshAt (some r) (fires _ _ was at same) h =
      (later_than r same h, λ is_armed_now. ground (arith, is_armed_now, at))
  Change-FreshAt (some r) (releases _ _ at same _) h =
      (later_than r same h, λ is_armed_now. ground (arith, is_armed_now, at))
  Change-FreshAt (some r) (drains _ _ _ at same) h =
      (later_than r same h, λ is_armed_now. ground (arith, is_armed_now, at))
  Change-FreshAt (some r) (parks _ _ _ at same) h =
      (later_than r same h, λ is_armed_now. ground (arith, is_armed_now, at))

FreshAt-same :
    (has now : ℕ → Bool) (o : Option Record)
    → ((g : ℕ) → now g ≡ has g)
    → FreshAt has o
    → FreshAt now o
FreshAt-same has now none same h = λ g. same g ∙ h g
FreshAt-same has now (some r) same h = (λ g lt. same g ∙ h.0 g lt, λ at. same r.generation ∙ h.1 at)

Writes-IsOnce : (op : Operation) (d e : Db) (s : Record) → Writes op d e s → IsOnce d → IsOnce e
Writes-IsOnce op d e s writes once = record {
  fresh = λ id. elim (Bool-cases (id == s.root_session_id)) [
    | inl same ↦
        let here : id ≡ s.root_session_id = ground (arith, same) in
        let there : e.budgets id ≡ some s = elim (Writes-at op d e s id writes) [
          | inl kept ↦ ap (λ (t : ℕ → Option Record). t id) writes.put_row ∙ ground (arith, same)
          | inr (_, now) ↦ now
        ] in
        let step : (g : ℕ)
            → (has_checkpoint e id g ≡ has_checkpoint d id g)
              ⊎ ((s.state ≡ fired) × (g ≡ s.generation)) =
          λ g. elim (writes.checkpoints id g) [
            | inl kept ↦ inl kept
            | inr (at, _, this, _) ↦ inr (at, this)
          ] in
        let changed : Change op (d.budgets id) s =
          subst (λ (k : ℕ). Change op (d.budgets k) s) (sym here) writes.change in
        subst (λ (o : Option Record). FreshAt (has_checkpoint e id) o) (sym there)
          (Change-FreshAt op (has_checkpoint d id) (has_checkpoint e id) s step (d.budgets id)
            changed (once.fresh id))
    | inr other ↦
        let kept : e.budgets id ≡ d.budgets id = elim (Writes-at op d e s id writes) [
          | inl same ↦ same
          | inr (here, _) ↦ absurd (ground (arith, other, here))
        ] in
        let checkpoints : (g : ℕ) → has_checkpoint e id g ≡ has_checkpoint d id g = λ g.
          elim (writes.checkpoints id g) [
            | inl same ↦ same
            | inr (_, here, _, _) ↦ absurd (ground (arith, other, here))
          ] in
        subst (λ (o : Option Record). FreshAt (has_checkpoint e id) o) (sym kept)
          (FreshAt-same (has_checkpoint d id) (has_checkpoint e id) (d.budgets id) checkpoints
            (once.fresh id))
  ];
}

run-IsOnce : (op : Operation) (d e : Db) → IsKeyed d → run op d ≡ ok e → IsOnce d → IsOnce e
unfolding Effect
run-IsOnce op d e keyed h once = elim (run-Effect op d e keyed h) [
  | inl keeps ↦ record {
    fresh = λ id.
        subst (λ (o : Option Record). FreshAt (has_checkpoint e id) o)
          (sym (ap (λ (t : ℕ → Option Record). t id) keeps.budgets_kept))
          (FreshAt-same (has_checkpoint d id) (has_checkpoint e id) (d.budgets id)
            (keeps.checkpoints_kept id) (once.fresh id));
  }
  | inr (s, writes) ↦ Writes-IsOnce op d e s writes once
]

pub Reaches-IsOnce : (d e : Db) → IsKeyed d → IsOnce d → Reaches d e → IsOnce e
Reaches-IsOnce d _ keyed once (stay _) = once
Reaches-IsOnce d f keyed once (runs _ e _ op before h) =
    run-IsOnce op e f (Reaches-IsKeyed d e before keyed) h (Reaches-IsOnce d e keyed once before)
Reaches-IsOnce d _ keyed once (spends _ e sessions before) =
    let there = Reaches-IsOnce d e keyed once before in record { fresh = λ id. there.fresh id }

insert_row-new :
    (d : Db) (id g : ℕ)
    → has_checkpoint d id g ≡ false
    → ((insert_row d id (checkpoint_key g)).1 ≡ new_output)
      × (has_checkpoint (insert_row d id (checkpoint_key g)).0 id g ≡ true)
unfolding insert_row
insert_row-new d id g h = (ground (arith, h), ground (arith, h))

-- What a budget that fires leaves: a checkpoint that was not there.
pub record IsNew (d : Db) (id generation : ℕ) (out : Fired) : Type 0 where
  pub absent : has_checkpoint d id generation ≡ false
  pub inserted : out.2 ≡ new_output
  pub present : has_checkpoint out.0 id generation ≡ true

fire_row-IsNew :
    (d : Db) (now observed : ℕ) (reason : FiredReason) (r : Record) (out : Fired) (owner : String)
    → output_owner d r.root_session_id ≡ ok owner
    → has_checkpoint d r.root_session_id r.generation ≡ false
    → fire_row d now reason (pos observed) r ≡ ok out
    → IsNew d r.root_session_id r.generation out
unfolding insert_output_tx output_owner
fire_row-IsNew d now observed reason r out owner owned absent h =
    let s : Record = fired_record now reason observed r in
    let key = checkpoint_key r.generation in
    let wrote = bind_ok (write_budget d s) _ out h in
    let put_out =
      bind_ok (insert_output_tx wrote.0 r.root_session_id key commit_lifecycle) _ out wrote.2 in
    let written = (write_budget-written d wrote.0 s wrote.1).1 in
    let same_owner : output_owner wrote.0 r.root_session_id ≡ ok owner =
      ap (λ (x : Db). output_owner x r.root_session_id) written ∙ owned in
    let row : put_out.0 ≡ insert_row (with_row d s) r.root_session_id key =
      ground (arith, put_out.1, same_owner, written) in
    let ends : out.0 ≡ put_out.0.0 = ground (arith, put_out.2) in
    let new = insert_row-new (with_row d s) r.root_session_id r.generation absent in
    record {
      absent = absent;
      inserted = ground (arith, put_out.2, row, new.0);
      present =
          ap (λ (x : Db). has_checkpoint x r.root_session_id r.generation)
            (ends ∙ ap (λ (x : Db × OutputCommit). x.0) row)
          ∙ new.1;
    }

-- FireBudget on an armed budget inserts a checkpoint that was not in the outbox before, after any
-- operations from tables in which every row stands under its root's id and no checkpoint is ahead of
-- its budget: no earlier checkpoint of the root has its key, so that the unique index swallows none.
pub fire_budget-IsNew :
    (d e : Db) (now root observed : ℕ) (reason : FiredReason) (r : Record) (out : Fired)
    → IsKeyed d
    → IsOnce d
    → Reaches d e
    → e.budgets root ≡ some r
    → r.state ≡ armed
    → fire_budget e now root r.generation reason observed ≡ ok out
    → IsNew e root r.generation out
unfolding fire_budget fire_budget_tx
fire_budget-IsNew d e now root observed reason r out keyed once reached there at h =
    let fresh = (Reaches-IsOnce d e keyed once reached).fresh root in
    let absent : has_checkpoint e root r.generation ≡ false =
      (subst (λ (o : Option Record). FreshAt (has_checkpoint e root) o) there fresh).1 at in
    let here : r.root_session_id ≡ root = (Reaches-IsKeyed d e reached keyed).key root r there in
    elim (Bool-cases ((root == 0) || (r.generation == 0))) [
      | inl bad ↦ absurd (ground (arith, h, bad))
      | inr fine ↦
          let begun : (output_owner e root >>= λ _.
          fire_budget_tx e now root r.generation reason (pos observed))
              ≡ ok out =
            ground (arith, h, fine) in
          let owned = bind_ok (output_owner e root) _ out begun in
          let shot : fire_row e now reason (pos observed) r ≡ ok out =
            ground (arith, owned.2, there, at) in
          subst (λ (k : ℕ). IsNew e k r.generation out) here
            (fire_row-IsNew e now observed reason r out owned.0
              (ap (λ (k : ℕ). output_owner e k) here ∙ owned.1)
              (ap (λ (k : ℕ). has_checkpoint e k r.generation) here ∙ absent) shot)
    ]
