-- ===== src/ApplyPatch/Sorts.antt =====
-- findHunkAnchor of internal/tool/builtin/apply_patch.go: the sort puts the candidates in order, and
-- loses none.
use coagent.Base.{zero, ◌≡◌, refl, true, false, List, [], ◌∷◌, arith, All, inl, inr, Bool-cases}
use coagent.ApplyPatch.{Candidate, before, insert_candidate, sort_candidates}

-- Nothing in the list comes before `c`.
abbrev pub First : Candidate → List Candidate → Type 0
First c ds = All (λ d. before d c ≡ false) ds

insert_candidate-All :
    (P : Candidate → Type 0) (c : Candidate) (ds : List Candidate)
    → P c
    → All P ds
    → All P (insert_candidate c ds)
unfolding insert_candidate
insert_candidate-All P c [] h k = (h, record {})
insert_candidate-All P c (d ∷ ds) h k = elim (Bool-cases (before d c)) [
  | inl e ↦ rw (e, insert_candidate) (k.0, insert_candidate-All P c ds h k.1)
  | inr e ↦ rw (e, insert_candidate) (h, k)
]

pub before_trans :
    (a b c : Candidate) → before b a ≡ false → before c b ≡ false → before c a ≡ false
unfolding before
before_trans a b c h k = ground (arith, h, k)

pub First-trans :
    (a b : Candidate) (ds : List Candidate) → before b a ≡ false → First b ds → First a ds
First-trans a b [] h k = record {}
First-trans a b (d ∷ ds) h k = (before_trans a b d h k.0, First-trans a b ds h k.1)

pub before_asym : (a b : Candidate) → before a b ≡ true → before b a ≡ false
unfolding before
before_asym a b h = ground (arith, h)

-- The candidates are in the order of the sort.
abbrev pub Sorted : List Candidate → Type 0
Sorted [] = zero ≡ 0
Sorted (c ∷ cs) = First c cs × Sorted cs

insert_candidate-Sorted :
    (c : Candidate) (ds : List Candidate) → Sorted ds → Sorted (insert_candidate c ds)
unfolding insert_candidate
insert_candidate-Sorted c [] h = (record {}, refl)
insert_candidate-Sorted c (d ∷ ds) h = elim (Bool-cases (before d c)) [
  | inl e ↦
      rw (e, insert_candidate)
        (
          insert_candidate-All (λ x. before x d ≡ false) c ds (before_asym d c e) h.0,
          insert_candidate-Sorted c ds h.1,
        )
  | inr e ↦ rw (e, insert_candidate) ((e, First-trans c d ds e h.0), h)
]

pub sort_candidates-Sorted : (cs : List Candidate) → Sorted (sort_candidates cs)
unfolding sort_candidates
sort_candidates-Sorted [] = refl
sort_candidates-Sorted (c ∷ cs) =
    insert_candidate-Sorted c (sort_candidates cs) (sort_candidates-Sorted cs)

insert_candidate-All_inv :
    (P : Candidate → Type 0) (c : Candidate) (ds : List Candidate)
    → All P (insert_candidate c ds)
    → P c × All P ds
unfolding insert_candidate
insert_candidate-All_inv P c [] = λ h. h
insert_candidate-All_inv P c (d ∷ ds) = elim (Bool-cases (before d c)) [
  | inl e ↦
      rw (e, insert_candidate)
        (λ h. let rest = insert_candidate-All_inv P c ds h.1 in (rest.0, (h.0, rest.1)))
  | inr e ↦ rw (e, insert_candidate) (λ h. h)
]

pub sort_candidates-All :
    (P : Candidate → Type 0) (cs : List Candidate) → All P cs → All P (sort_candidates cs)
unfolding sort_candidates
sort_candidates-All P [] h = h
sort_candidates-All P (c ∷ cs) h =
    insert_candidate-All P c (sort_candidates cs) h.0 (sort_candidates-All P cs h.1)

pub sort_candidates-All_inv :
    (P : Candidate → Type 0) (cs : List Candidate) → All P (sort_candidates cs) → All P cs
unfolding sort_candidates
sort_candidates-All_inv P [] h = h
sort_candidates-All_inv P (c ∷ cs) h =
    let both = insert_candidate-All_inv P c (sort_candidates cs) h in
    (both.0, sort_candidates-All_inv P cs both.1)
