-- ===== src/Catalog/Clamp.antt =====
-- ClampEffort of internal/catalog/effort.go.
use coagent.Base.{
  ℕ, ◌≤◌, ◌<◌, ◌≡◌, refl, sym, true, false, ◌&&◌, ◌||◌, List, [], ◌∷◌, none, some, ltb, ◌==◌,
  String, str_eq, any, length, All, subst, ◌⊎◌, inl, inr, arith, Option-cases, Bool-cases,
  str_eq_refl, str_eq_iff,
}
use coagent.Catalog.{contains, effort_rank, delta_of, is_weaker, clamp_loop, clamp_effort}

-- The rank `r` is nearer to `want` than `rc`, or as near and not stronger.
abbrev pub Beats : ℕ → ℕ → ℕ → Type 0
Beats want r rc =
    (delta_of r want < delta_of rc want) ⊎ ((delta_of r want ≡ delta_of rc want) × (r ≤ rc))

-- The rank beats that of a candidate, unless the candidate has none.
abbrev pub BeatsLevel : ℕ → ℕ → String → Type 0
BeatsLevel want r c =
    (effort_rank c ≡ none) ⊎ ((rc : ℕ) × (effort_rank c ≡ some rc) × Beats want r rc)

-- What the loop returns: a level that beats the best one so far and all that are left.
record Clamps (want rb : ℕ) (best : String) (cs : List String) (s : String) : Type 0 where
  rank : ℕ
  ranked : effort_rank s ≡ some rank
  beats_best : Beats want rank rb
  beats_all : All (BeatsLevel want rank) cs
  allowed : any (str_eq s) (best ∷ cs) ≡ true

Beats-trans : (want a b c : ℕ) → Beats want a b → Beats want b c → Beats want a c
Beats-trans want a b c h k = ground (arith, h, k)

taken-Beats :
    (want rb rc : ℕ) (best : String)
    → effort_rank best ≡ some rb
    → ltb (delta_of rc want) (delta_of rb want)
        || ((delta_of rc want == delta_of rb want) && is_weaker rc (effort_rank best))
      ≡ true
    → Beats want rc rb
taken-Beats want rb rc best h t = ground (arith, h, t)

passed-Beats :
    (want rb rc : ℕ) (best : String)
    → effort_rank best ≡ some rb
    → ltb (delta_of rc want) (delta_of rb want)
        || ((delta_of rc want == delta_of rb want) && is_weaker rc (effort_rank best))
      ≡ false
    → Beats want rb rc
passed-Beats want rb rc best h t = ground (arith, h, t)

clamp_loop-Clamps :
    (want rb : ℕ) (best : String) (cs : List String)
    → effort_rank best ≡ some rb
    → Clamps want rb best cs (clamp_loop want best (delta_of rb want) cs)
unfolding clamp_loop
clamp_loop-Clamps want rb best [] h = record {
  rank = rb;
  ranked = h;
  beats_best = inr (refl, omega arith);
  beats_all = record {};
  allowed = ground (arith, str_eq_refl best);
}
clamp_loop-Clamps want rb best (c ∷ cs) h = elim (Option-cases (effort_rank c)) [
  | inl e ↦
      let rest = clamp_loop-Clamps want rb best cs h in
      rw (e, clamp_loop)
        (record {
          rank = rest.rank;
          ranked = rest.ranked;
          beats_best = rest.beats_best;
          beats_all = (inl e, rest.beats_all);
          allowed = ground (arith, rest.allowed);
        })
  | inr (rc, e) ↦
      elim (Bool-cases (
        ltb (delta_of rc want) (delta_of rb want)
        || ((delta_of rc want == delta_of rb want) && is_weaker rc (effort_rank best)))) [
          | inl t ↦
              let rest = clamp_loop-Clamps want rc c cs e in
              let nearer : Beats want rc rb = taken-Beats want rb rc best h t in
              rw (e, t, clamp_loop)
                (record {
                  rank = rest.rank;
                  ranked = rest.ranked;
                  beats_best = Beats-trans want rest.rank rc rb rest.beats_best nearer;
                  beats_all = (inr (rc, e, rest.beats_best), rest.beats_all);
                  allowed = ground (arith, rest.allowed);
                })
          | inr t ↦
              let rest = clamp_loop-Clamps want rb best cs h in
              let nearer : Beats want rb rc = passed-Beats want rb rc best h t in
              rw (e, t, clamp_loop)
                (record {
                  rank = rest.rank;
                  ranked = rest.ranked;
                  beats_best = rest.beats_best;
                  beats_all = (
                    inr (rc, e, Beats-trans want rest.rank rb rc rest.beats_best nearer),
                    rest.beats_all,
                  );
                  allowed = ground (arith, rest.allowed);
                })
        ]
]

effort_rank-bound : (s : String) (r : ℕ) → effort_rank s ≡ some r → r ≤ 6
unfolding effort_rank
effort_rank-bound s r h = ground (arith, h)

-- What the loop returns from the start on, when one of the levels is known.
record Picks (want : ℕ) (cs : List String) (s : String) : Type 0 where
  rank : ℕ
  ranked : effort_rank s ≡ some rank
  beats_all : All (BeatsLevel want rank) cs
  allowed : contains cs s ≡ true

abbrev AllUnknown : List String → Type 0
AllUnknown cs = All (λ c. effort_rank c ≡ none) cs

clamp_loop-Picks :
    (want : ℕ) (cs : List String)
    → want ≤ 6
    → AllUnknown cs ⊎ Picks want cs (clamp_loop want "" 8 cs)
unfolding clamp_loop
clamp_loop-Picks want [] h = inl (record {})
clamp_loop-Picks want (c ∷ cs) h = elim (Option-cases (effort_rank c)) [
  | inl e ↦ elim (clamp_loop-Picks want cs h) [
    | inl u ↦ inl (e, u)
    | inr p ↦ inr (
        rw (e, clamp_loop)
          (record {
            rank = p.rank;
            ranked = p.ranked;
            beats_all = (inl e, p.beats_all);
            allowed = ground (arith, p.allowed);
          }))
  ]
  | inr (rc, e) ↦
      let small : ltb (delta_of rc want) 8 ≡ true = ground (arith, h, effort_rank-bound c rc e) in
      let rest = clamp_loop-Clamps want rc c cs e in
      inr (
        rw (e, small, clamp_loop)
          (record {
            rank = rest.rank;
            ranked = rest.ranked;
            beats_all = (inr (rc, e, rest.beats_best), rest.beats_all);
            allowed = rest.allowed;
          }))
]

contains-All :
    (P : String → Type 0) (cs : List String) (c : String) → All P cs → contains cs c ≡ true → P c
contains-All P [] c all h = absurd (ground (arith, h))
contains-All P (x ∷ cs) c all h = elim (Bool-cases (str_eq c x)) [
  | inl e ↦ subst P (sym ((str_eq_iff c x).0 e)) all.0
  | inr e ↦ contains-All P cs c all.1 (ground (arith, h, e))
]

blank_unknown : effort_rank "" ≡ none
unfolding effort_rank
blank_unknown = refl

not_blank : (s : String) (r : ℕ) → effort_rank s ≡ some r → str_eq s "" ≡ false
not_blank s r h = elim (Bool-cases (str_eq s "")) [
  | inl e ↦
      let known : effort_rank "" ≡ some r =
        subst (λ t. effort_rank t ≡ some r) ((str_eq_iff s "").0 e) h in
      absurd (ground (arith, known, blank_unknown))
  | inr e ↦ e
]

not_empty : (cs : List String) (c : String) → contains cs c ≡ true → (length cs == 0) ≡ false
not_empty [] c h = ground (arith, h)
not_empty (x ∷ cs) c h = ground arith

clamp_effort-accepted :
    (level : String) (allowed : List String)
    → contains allowed level ≡ true
    → clamp_effort level allowed ≡ level
unfolding clamp_effort
clamp_effort-accepted level allowed h = ground (arith, h)

clamp_effort-clamp_loop :
    (level : String) (allowed : List String) (want : ℕ)
    → (length allowed == 0) ≡ false
    → contains allowed level ≡ false
    → effort_rank level ≡ some want
    → str_eq (clamp_loop want "" 8 allowed) "" ≡ false
    → clamp_effort level allowed ≡ clamp_loop want "" 8 allowed
unfolding clamp_effort
clamp_effort-clamp_loop level allowed want some_allowed other known found =
    ground (arith, some_allowed, other, known, found)

BeatsLevel-known :
    (want r rc : ℕ) (c : String) → BeatsLevel want r c → effort_rank c ≡ some rc → Beats want r rc
BeatsLevel-known want r rc c (inl e) h = absurd (ground (arith, e, h))
BeatsLevel-known want r rc c (inr (rc', e, b)) h = ground (arith, e, h, b)

-- A known level is clamped to an allowed one, if any allowed level is known: the result is one of
-- the allowed levels, its rank is at least as near to the requested one as that of every allowed
-- level, and among the two that are equally near it is the weaker.
pub clamp_effort-Beats :
    (level : String) (allowed : List String) (want : ℕ) (c : String) (rc : ℕ)
    → effort_rank level ≡ some want
    → contains allowed c ≡ true
    → effort_rank c ≡ some rc
    → (rank : ℕ) × (effort_rank (clamp_effort level allowed) ≡ some rank)
      × (contains allowed (clamp_effort level allowed) ≡ true)
      × Beats want rank rc
clamp_effort-Beats level allowed want c rc known accepted ranked =
    elim (Bool-cases (contains allowed level)) [
      | inl e ↦
          rw (clamp_effort-accepted level allowed e) (want, known, e, ground (arith, known, ranked))
      | inr e ↦ elim (clamp_loop-Picks want allowed (effort_rank-bound level want known)) [
        | inl u ↦
            absurd (
              ground (arith, ranked, contains-All (λ x. effort_rank x ≡ none) allowed c u accepted))
        | inr p ↦
            let found = not_blank (clamp_loop want "" 8 allowed) p.rank p.ranked in
            let nonempty = not_empty allowed c accepted in
            let beats : BeatsLevel want p.rank c =
              contains-All (BeatsLevel want p.rank) allowed c p.beats_all accepted in
            rw (clamp_effort-clamp_loop level allowed want nonempty e known found)
              (p.rank, p.ranked, p.allowed, BeatsLevel-known want p.rank rc c beats ranked)
      ]
    ]
