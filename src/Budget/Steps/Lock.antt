-- ===== src/Budget/Steps/Lock.antt =====
-- internal/sessionstore: while the owner of a park drains a session, its budget stands still.
use coagent.Base.{
  ℕ, ◌<◌, ◌≡◌, refl, sym, ap, ◌∙◌, subst, Option, some, ◌==◌, arith, Bool-cases, inl, inr, ◌⊎◌,
}
use coagent.Budget.{armed, fired, draining, Record, ok}
use coagent.Budget.Store.{Db, put}
use coagent.Budget.Steps.{Operation, park_op, run, Reaches, stay, runs, spends}
use coagent.Budget.Steps.Effects.{
  Change, arms, fires, releases, drains, parks, Writes, Effect, IsKeyed,
}
use coagent.Budget.Steps.Runs.{run-Effect, Reaches-IsKeyed, put-other, put-same}

Change-draining :
    (op : Operation) (r s : Record)
    → r.state ≡ fired
    → r.park_phase ≡ draining
    → Change op (some r) s
    → op ≡ park_op s.root_session_id r.generation r.park_owner
Change-draining op r s was drain (arms _ _ _ _ free) = absurd (free was drain)
Change-draining op r s was drain (fires _ _ at _ _) = absurd (ground (arith, was, at))
Change-draining op r s was drain (releases _ _ _ _ free) = absurd (free drain)
Change-draining op r s was drain (drains _ _ at _ _) = absurd (ground (arith, drain, at))
Change-draining op r s was drain (parks _ _ same _ _) = same

-- What a written row is, at the id that is asked for.
pub Writes-at :
    (op : Operation) (d e : Db) (s : Record) (id : ℕ)
    → Writes op d e s
    → (e.budgets id ≡ d.budgets id) ⊎ ((id ≡ s.root_session_id) × (e.budgets id ≡ some s))
Writes-at op d e s id writes =
    let at : e.budgets id ≡ put d.budgets s.root_session_id (some s) id =
      ap (λ (t : ℕ → Option Record). t id) writes.put_row in
    elim (Bool-cases (id == s.root_session_id)) [
      | inl same ↦
          inr (ground (arith, same), at ∙ put-same d.budgets s.root_session_id id (some s) same)
      | inr other ↦ inl (at ∙ put-other d.budgets s.root_session_id id (some s) other)
    ]

-- While a budget that fired is draining, no operation that succeeds changes its row, but for the
-- parking by the owner of the park in the same generation. The row stands under the id of its root.
pub run-draining :
    (op : Operation) (d e : Db) (root : ℕ) (r : Record)
    → IsKeyed d
    → d.budgets root ≡ some r
    → r.state ≡ fired
    → r.park_phase ≡ draining
    → run op d ≡ ok e
    → (e.budgets root ≡ some r) ⊎ (op ≡ park_op root r.generation r.park_owner)
unfolding Effect
run-draining op d e root r keyed there was drain h = elim (run-Effect op d e keyed h) [
  | inl keeps ↦ inl (ap (λ (t : ℕ → Option Record). t root) keeps.budgets_kept ∙ there)
  | inr (s, writes) ↦ elim (Writes-at op d e s root writes) [
    | inl same ↦ inl (same ∙ there)
    | inr (here, now) ↦
        let changed : Change op (some r) s =
          subst (λ (o : Option Record). Change op o s) (ap d.budgets (sym here) ∙ there)
            writes.change in
        inr (
          Change-draining op r s was drain changed
          ∙ ap (λ (k : ℕ). park_op k r.generation r.park_owner) (sym here))
  ]
]

-- A later row of the same root: of a later generation, or of the same one, and then armed only if it
-- was armed before.
unfoldable pub IsLater : Record → Record → Type 0
IsLater r s =
    (r.generation < s.generation)
    ⊎ ((s.generation ≡ r.generation) × (s.state ≡ armed → r.state ≡ armed))

IsLater-refl : (r : Record) → IsLater r r
unfolding IsLater
IsLater-refl r = inr (refl, λ now. now)

IsLater-trans : (r s t : Record) → IsLater r s → IsLater s t → IsLater r t
unfolding IsLater
IsLater-trans r s t (inl a) (inl b) = inl (omega (arith, a, b))
IsLater-trans r s t (inl a) (inr (same, back)) = inl (omega (arith, a, same))
IsLater-trans r s t (inr (same, back)) (inl b) = inl (omega (arith, b, same))
IsLater-trans r s t (inr (same, back)) (inr (same', back')) =
    inr (same' ∙ same, λ now. back (back' now))

Change-IsLater : (op : Operation) (r s : Record) → Change op (some r) s → IsLater r s
unfolding IsLater
Change-IsLater op r s (arms _ _ _ next _) = inl (omega (arith, next))
Change-IsLater op r s (fires _ _ was at same) = inr (same, λ now. was)
Change-IsLater op r s (releases _ _ at same _) = inr (same, λ now. ground (arith, now, at))
Change-IsLater op r s (drains _ _ _ at same) = inr (same, λ now. ground (arith, now, at))
Change-IsLater op r s (parks _ _ _ at same) = inr (same, λ now. ground (arith, now, at))

run-IsLater :
    (op : Operation) (d e : Db) (root : ℕ) (r : Record)
    → IsKeyed d
    → d.budgets root ≡ some r
    → run op d ≡ ok e
    → (s : Record) × (e.budgets root ≡ some s) × IsLater r s
unfolding Effect
run-IsLater op d e root r keyed there h = elim (run-Effect op d e keyed h) [
  | inl keeps ↦
      (r, ap (λ (t : ℕ → Option Record). t root) keeps.budgets_kept ∙ there, IsLater-refl r)
  | inr (s, writes) ↦ elim (Writes-at op d e s root writes) [
    | inl same ↦ (r, same ∙ there, IsLater-refl r)
    | inr (here, now) ↦
        let changed : Change op (some r) s =
          subst (λ (o : Option Record). Change op o s) (ap d.budgets (sym here) ∙ there)
            writes.change in
        (s, now, Change-IsLater op r s changed)
  ]
]

-- Whatever operations follow, the budget of a root stays, its generation does not fall, and a
-- generation that fired or was released is never armed again. Each row stands under the id of its root.
pub Reaches-IsLater :
    (d e : Db) (root : ℕ) (r : Record)
    → IsKeyed d
    → d.budgets root ≡ some r
    → Reaches d e
    → (s : Record) × (e.budgets root ≡ some s) × IsLater r s
Reaches-IsLater d _ root r keyed there (stay _) = (r, there, IsLater-refl r)
Reaches-IsLater d f root r keyed there (runs _ e _ op before h) =
    let mid = Reaches-IsLater d e root r keyed there before in
    let end = run-IsLater op e f root mid.0 (Reaches-IsKeyed d e before keyed) mid.1 h in
    (end.0, end.1, IsLater-trans r mid.0 end.0 mid.2 end.2)
Reaches-IsLater d _ root r keyed there (spends _ e sessions before) =
    Reaches-IsLater d e root r keyed there before
