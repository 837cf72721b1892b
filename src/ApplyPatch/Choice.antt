-- ===== src/ApplyPatch/Choice.antt =====
-- findHunkAnchor of internal/tool/builtin/apply_patch.go: the candidate at the anchor that is chosen
-- comes before all others.
use coagent.Base.{
  word_rank, ℕ, ◌+◌, ◌≤◌, ◌<◌, ◌≡◌, refl, sym, ap, ◌∙◌, true, false, List, [], ◌∷◌, some, length,
  drop, Bytes, arith, All, ◌⊎◌, inl, inr, word_size,
}
use coagent.ApplyPatch.{
  Candidate, candidate_at, candidates_from, before, sort_candidates, is_tie, choose,
  find_hunk_anchor, ok,
}
use coagent.ApplyPatch.Sorts.{
  First, Sorted, sort_candidates-Sorted, sort_candidates-All, sort_candidates-All_inv,
}
use coagent.ApplyPatch.Candidates.{
  IsCandidate, candidate_at-fields, candidates_from-All_inv, candidates-IsCandidate,
}

not_tie-before :
    (c d : Candidate)
    → c.distance < word_size
    → d.distance < word_size
    → before d c ≡ false
    → is_tie c d ≡ false
    → before c d ≡ true
unfolding before
not_tie-before c d h k sorted distinct = ground (arith, h, k, sorted, distinct)

before_first : (c d e : Candidate) → before c d ≡ true → before e d ≡ false → before c e ≡ true
unfolding before
before_first c d e h k = ground (arith, h, k)

-- `c` or a candidate that `c` comes before.
abbrev pub BehindOr : Candidate → Candidate → Type 0
BehindOr c d = (d ≡ c) ⊎ (before c d ≡ true)

First-BehindOr :
    (c d : Candidate) (es : List Candidate) → before c d ≡ true → First d es → All (BehindOr c) es
First-BehindOr c d [] h k = record {}
First-BehindOr c d (e ∷ es) h k = (inr (before_first c d e h k.0), First-BehindOr c d es h k.1)

-- What `choose` returns: the index of a candidate that comes before all others.
record Chosen (P : Candidate → Type 0) (cs : List Candidate) (i : ℕ) : Type 0 where
  chosen : Candidate
  at_index : chosen.index ≡ i
  holds : P chosen
  best : All (BehindOr chosen) cs

choose-Chosen :
    (lines old : List Bytes) (hint : ℕ) (cs : List Candidate) (i : ℕ)
    → Sorted cs
    → All (IsCandidate lines old hint) cs
    → choose cs ≡ ok i
    → Chosen (IsCandidate lines old hint) cs i
unfolding choose
choose-Chosen lines old hint [] i sorted all h = ground (arith, h)
choose-Chosen lines old hint (c ∷ []) i sorted all h = record {
  chosen = c;
  at_index = ground (arith, h);
  holds = all.0;
  best = (inl refl, record {});
}
choose-Chosen lines old hint (c ∷ d ∷ ds) i sorted all h =
    let distinct : is_tie c d ≡ false = ground (arith, h) in
    let behind = not_tie-before c d all.0.distance all.1.0.distance sorted.0.0 distinct in
    record {
      chosen = c;
      at_index = ground (arith, h);
      holds = all.0;
      best = (inl refl, (inr behind, First-BehindOr c d ds behind sorted.1.0));
    }

-- `d` has fewer lines that agree exactly than `c`, or as many and fewer that agree but for trailing
-- blanks, or as many of both and a larger distance.
abbrev pub IsBehind : Candidate → Candidate → Type 0
IsBehind c d =
    (d.exact < c.exact)
    ⊎ ((d.exact ≡ c.exact)
        × ((d.whitespace < c.whitespace)
            ⊎ ((d.whitespace ≡ c.whitespace) × (word_rank c.distance < word_rank d.distance))))

before-IsBehind : (c d : Candidate) → before c d ≡ true → IsBehind c d
unfolding before
before-IsBehind c d h = ground (arith, h)

pub chosen_first :
    (lines old : List Bytes) (hint i k : ℕ) (d : Candidate)
    → 0 < length old
    → find_hunk_anchor lines old hint ≡ ok i
    → k ≤ length lines
    → candidate_at old hint k (drop k lines) ≡ some d
    → (c : Candidate) × (c.index ≡ i) × IsCandidate lines old hint c × ((k ≡ i) ⊎ IsBehind c d)
unfolding find_hunk_anchor
chosen_first lines old hint i k d nonempty h in_range e =
    let cs = candidates_from old hint 0 lines in
    let r =
      choose-Chosen lines old hint (sort_candidates cs) i (sort_candidates-Sorted cs)
        (sort_candidates-All (IsCandidate lines old hint) cs
          (candidates-IsCandidate lines old hint nonempty))
        h in
    let from0 : candidate_at old hint (0 + k) (drop k lines) ≡ some d =
      ap (λ n. candidate_at old hint n (drop k lines)) (omega arith) ∙ e in
    let behind : BehindOr r.chosen d =
      candidates_from-All_inv (BehindOr r.chosen) old hint 0 lines k d
        (sort_candidates-All_inv (BehindOr r.chosen) cs r.best) in_range from0 in
    let f = candidate_at-fields old hint k (drop k lines) d e in
    (
      r.chosen,
      r.at_index,
      r.holds,
      elim behind [
        | inl agrees ↦ inl (sym f.0 ∙ ap (λ (c : Candidate). c.index) agrees ∙ r.at_index)
        | inr b ↦ inr (before-IsBehind r.chosen d b)
      ],
    )

pub find_hunk_anchor-IsCandidate :
    (lines old : List Bytes) (hint i : ℕ)
    → 0 < length old
    → find_hunk_anchor lines old hint ≡ ok i
    → (c : Candidate) × (c.index ≡ i) × IsCandidate lines old hint c
unfolding find_hunk_anchor
find_hunk_anchor-IsCandidate lines old hint i nonempty h =
    let cs = candidates_from old hint 0 lines in
    let r =
      choose-Chosen lines old hint (sort_candidates cs) i (sort_candidates-Sorted cs)
        (sort_candidates-All (IsCandidate lines old hint) cs
          (candidates-IsCandidate lines old hint nonempty))
        h in
    (r.chosen, r.at_index, r.holds)
