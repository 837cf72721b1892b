-- ===== src/ApplyPatch/Anchor.antt =====
-- findHunkAnchor of internal/tool/builtin/apply_patch.go: at which of the places where the old
-- lines match the anchor is, and when there is none.
use coagent.Base.{
  word_rank, ℕ, zero, ◌≤◌, ◌<◌, ◌≡◌, refl, sym, ap, ◌∙◌, List, [], ◌∷◌, none, some, length, drop,
  Bytes, arith, subst, All, ◌⊎◌, inl, inr, Option-cases, ◌↔◌, word_abs, word_sub,
}
use coagent.ApplyPatch.{
  Candidate, candidate_at, candidates_from, insert_candidate, sort_candidates, choose,
  find_hunk_anchor, ok, error, not_found,
}
use coagent.ApplyPatch.Choice.{IsBehind, chosen_first}
use coagent.ApplyPatch.Matches.{
  MatchesAt, equal_at, Fields, candidate_at-Fields, candidate_at-MatchesAt,
}
use coagent.ApplyPatch.Distance.{away, quarter_size, IsNear, away-word_rank}
use coagent.ApplyPatch.Candidates.{IsCandidate, candidates_from-All_inv, candidates-IsCandidate}

candidate_same : (c d : Candidate) → some c ≡ some d → c ≡ d
candidate_same c d h = cc

-- What is known of the place that is chosen.
record ChosenAt (lines old : List Bytes) (hint i : ℕ) (c : Candidate) : Type 0 where
  matches : MatchesAt lines old i
  fields : Fields lines old hint i c

IsCandidate-ChosenAt :
    (lines old : List Bytes) (hint i : ℕ) (c : Candidate)
    → c.index ≡ i
    → IsCandidate lines old hint c
    → ChosenAt lines old hint i c
IsCandidate-ChosenAt lines old hint i c at_index h =
    let matches = candidate_at-MatchesAt lines old hint c.index c h.room h.found in
    let f = candidate_at-Fields lines old hint c.index matches in
    let same = candidate_same f.0 c (sym f.1 ∙ h.found) in
    subst (λ n. ChosenAt lines old hint n c) at_index
      (record {
        matches = matches;
        fields = subst (λ (d : Candidate). Fields lines old hint c.index d) same f.2;
      })

-- The place `k` is `i`, or has fewer equal lines, or as many and is farther from the hint.
abbrev pub IsWorse : List Bytes → List Bytes → ℕ → ℕ → ℕ → Type 0
IsWorse lines old hint i k =
    (equal_at lines old k < equal_at lines old i)
    ⊎ ((equal_at lines old k ≡ equal_at lines old i) × (away hint i < away hint k))

IsBehind-IsWorse :
    (lines old : List Bytes) (hint i k : ℕ) (c d : Candidate)
    → i < quarter_size
    → k < quarter_size
    → IsNear hint
    → Fields lines old hint i c
    → Fields lines old hint k d
    → IsBehind c d
    → IsWorse lines old hint i k
IsBehind-IsWorse lines old hint i k c d small small' near f g (inl fewer) =
    inl (omega (arith, fewer, f.exact, g.exact))
IsBehind-IsWorse lines old hint i k c d small small' near f g (inr (as_many, inl fewer)) =
    absurd (omega (arith, as_many, fewer, f.in_all, g.in_all))
IsBehind-IsWorse lines old hint i k c d small small' near f g (inr (as_many, inr (_, farther))) =
    let ranks : word_rank (word_abs (word_sub i hint)) < word_rank (word_abs (word_sub k hint)) =
      omega (arith, farther, ap word_rank f.distance, ap word_rank g.distance) in
    inr (omega (arith, as_many, f.exact, g.exact), away-word_rank hint i k small small' near ranks)

-- For old lines that are not empty, in a file of fewer than 2 ^ 62 lines, with a hint whose
-- magnitude is below 2 ^ 62: when an anchor is found, the old lines match there (each agrees with
-- the line that stands at its place but for blanks at the end), and any other place where they match
-- has fewer lines that are equal as they stand, or as many and is farther from the hint.
pub find_hunk_anchor-best :
    (lines old : List Bytes) (hint i k : ℕ)
    → 0 < length old
    → length lines < quarter_size
    → IsNear hint
    → find_hunk_anchor lines old hint ≡ ok i
    → MatchesAt lines old k
    → MatchesAt lines old i × ((k ≡ i) ⊎ IsWorse lines old hint i k)
find_hunk_anchor-best lines old hint i k nonempty small near h m =
    let d = candidate_at-Fields lines old hint k m in
    let r = chosen_first lines old hint i k d.0 nonempty h (omega (arith, m.room)) d.1 in
    let c = IsCandidate-ChosenAt lines old hint i r.0 r.1 r.2 in
    let behind =
      IsBehind-IsWorse lines old hint i k r.0 d.0 (omega (arith, c.matches.room, nonempty, small))
        (omega (arith, m.room, nonempty, small)) near c.fields d.2 in
    (c.matches, elim r.3 [ inl same ↦ inl same | inr b ↦ inr (behind b) ])

insert_candidate-not_empty :
    (c : Candidate) (ds : List Candidate) → 0 < length (insert_candidate c ds)
unfolding insert_candidate
insert_candidate-not_empty c [] = ground arith
insert_candidate-not_empty c (d ∷ ds) = ground arith

choose-not_found : (cs : List Candidate) → choose cs ≡ error not_found → length cs ≡ 0
unfolding choose
choose-not_found cs h = ground (arith, h)

none_sorted : (cs : List Candidate) → length (sort_candidates cs) ≡ 0 → length cs ≡ 0
unfolding sort_candidates
none_sorted [] h = refl
none_sorted (c ∷ cs) h =
    absurd (omega (arith, insert_candidate-not_empty c (sort_candidates cs), h))

no_candidates : (cs : List Candidate) → length cs ≡ 0 → All (λ d. zero ≡ 1) cs
no_candidates [] h = record {}
no_candidates (c ∷ cs) h = absurd (omega (arith, h))

none_at :
    (lines old : List Bytes) (hint k : ℕ)
    → find_hunk_anchor lines old hint ≡ error not_found
    → k ≤ length lines
    → candidate_at old hint k (drop k lines) ≡ none
unfolding find_hunk_anchor
none_at lines old hint k h in_range =
    let cs = candidates_from old hint 0 lines in
    let empty = none_sorted cs (choose-not_found (sort_candidates cs) h) in
    elim (Option-cases (candidate_at old hint k (drop k lines))) [
      | inl e ↦ e
      | inr (d, e) ↦ absurd (
          omega (
            arith,
            candidates_from-All_inv (λ d. zero ≡ 1) old hint 0 lines k d (no_candidates cs empty)
                in_range (ap (λ n. candidate_at old hint n (drop k lines)) (omega arith) ∙ e),
          ))
    ]

nowhere :
    (lines old : List Bytes) (hint : ℕ) (cs : List Candidate)
    → All (IsCandidate lines old hint) cs
    → ((k : ℕ) → MatchesAt lines old k → ⊥)
    → length cs ≡ 0
nowhere lines old hint [] all h = refl
nowhere lines old hint (c ∷ cs) all h =
    absurd (h c.index (candidate_at-MatchesAt lines old hint c.index c all.0.room all.0.found))

choose_none : (cs : List Candidate) → length cs ≡ 0 → choose (sort_candidates cs) ≡ error not_found
unfolding choose sort_candidates
choose_none [] h = refl
choose_none (c ∷ cs) h = absurd (omega (arith, h))

-- For old lines that are not empty, the search reports that they are not found exactly when there is
-- no place where they match: no place with room for them at which each agrees with the line that
-- stands there but for blanks at the end.
pub find_hunk_anchor-not_found :
    (lines old : List Bytes) (hint : ℕ)
    → 0 < length old
    → (find_hunk_anchor lines old hint ≡ error not_found) ↔ ((k : ℕ) → MatchesAt lines old k → ⊥)
unfolding find_hunk_anchor
find_hunk_anchor-not_found lines old hint nonempty =
    let cs = candidates_from old hint 0 lines in
    (
      λ h k m.
          let d = candidate_at-Fields lines old hint k m in
          let missing = none_at lines old hint k h (omega (arith, m.room)) in
          ground (arith, missing, d.1),
      λ absent.
          choose_none cs
            (nowhere lines old hint cs (candidates-IsCandidate lines old hint nonempty) absent),
    )
