-- ===== src/ApplyPatch/Candidates.antt =====
-- findHunkAnchor of internal/tool/builtin/apply_patch.go: which positions are candidates.
use coagent.Base.{
  ℕ, zero, suc, ◌+◌, ◌≤◌, ◌<◌, ◌≡◌, refl, sym, ap, ◌∙◌, subst, List, [], ◌∷◌, Option, none, some,
  length, drop, Bytes, arith, All, word_size, length-drop,
}
use coagent.ApplyPatch.{Candidate, candidate_at, candidates_from, add_candidate}

pub plus_zero : (i : ℕ) → i + 0 ≡ i
plus_zero i = omega arith

pub plus_suc : (i k : ℕ) → i + suc k ≡ i + 1 + k
plus_suc i k = omega arith

-- `c` is the candidate at its index of the lines, where the old lines have room.
pub record IsCandidate (lines old : List Bytes) (hint : ℕ) (c : Candidate) : Type 0 where
  pub found : candidate_at old hint c.index (drop c.index lines) ≡ some c
  pub room : c.index + length old ≤ length lines
  pub distance : c.distance < word_size

pub candidate_at-fields :
    (old : List Bytes) (hint i : ℕ) (rest : List Bytes) (c : Candidate)
    → candidate_at old hint i rest ≡ some c
    → (c.index ≡ i) × (length old ≤ length rest) × (c.distance < word_size)
unfolding candidate_at
candidate_at-fields old hint i rest c h = ground (arith, h)

pub add_candidate-All :
    (P : Candidate → Type 0) (o : Option Candidate) (cs : List Candidate)
    → ((c : Candidate) → o ≡ some c → P c)
    → All P cs
    → All P (add_candidate o cs)
add_candidate-All P none cs h k = k
add_candidate-All P (some c) cs h k = (h c refl, k)

pub add_candidate-All_head :
    (P : Candidate → Type 0) (o : Option Candidate) (cs : List Candidate) (c : Candidate)
    → All P (add_candidate o cs)
    → o ≡ some c
    → P c
add_candidate-All_head P o cs c h e =
    (subst (λ (t : Option Candidate). All P (add_candidate t cs)) e h).0

pub add_candidate-All_tail :
    (P : Candidate → Type 0) (o : Option Candidate) (cs : List Candidate)
    → All P (add_candidate o cs)
    → All P cs
add_candidate-All_tail P none cs h = h
add_candidate-All_tail P (some c) cs h = h.1

-- A property of every candidate at an index of the lines holds for the list of candidates.
pub candidates_from-All :
    (P : Candidate → Type 0) (old : List Bytes) (hint i : ℕ) (rest : List Bytes)
    → ((k : ℕ) (c : Candidate) → candidate_at old hint (i + k) (drop k rest) ≡ some c → P c)
    → All P (candidates_from old hint i rest)
unfolding candidates_from
candidates_from-All P old hint i [] h =
    add_candidate-All P (candidate_at old hint i []) []
      (λ c e. h 0 c (ap (λ n. candidate_at old hint n []) (plus_zero i) ∙ e)) (record {})
candidates_from-All P old hint i (x ∷ rest) h =
    add_candidate-All P (candidate_at old hint i (x ∷ rest)) (candidates_from old hint (i + 1) rest)
      (λ c e. h 0 c (ap (λ n. candidate_at old hint n (x ∷ rest)) (plus_zero i) ∙ e))
      (candidates_from-All P old hint (i + 1) rest
        (λ k c e. h (suc k) c (ap (λ n. candidate_at old hint n (drop k rest)) (plus_suc i k) ∙ e)))

pub candidates_from-All_inv :
    (P : Candidate → Type 0) (old : List Bytes) (hint i : ℕ) (rest : List Bytes) (k : ℕ)
    (c : Candidate)
    → All P (candidates_from old hint i rest)
    → k ≤ length rest
    → candidate_at old hint (i + k) (drop k rest) ≡ some c
    → P c
unfolding candidates_from
candidates_from-All_inv P old hint i [] zero c all in_range e =
    add_candidate-All_head P (candidate_at old hint i []) [] c all
      (ap (λ n. candidate_at old hint n []) (sym (plus_zero i)) ∙ e)
candidates_from-All_inv P old hint i [] (suc k) c all in_range e = absurd (omega (arith, in_range))
candidates_from-All_inv P old hint i (x ∷ rest) zero c all in_range e =
    add_candidate-All_head P (candidate_at old hint i (x ∷ rest))
      (candidates_from old hint (i + 1) rest) c all
      (ap (λ n. candidate_at old hint n (x ∷ rest)) (sym (plus_zero i)) ∙ e)
candidates_from-All_inv P old hint i (x ∷ rest) (suc k) c all in_range e =
    candidates_from-All_inv P old hint (i + 1) rest k c
      (add_candidate-All_tail P (candidate_at old hint i (x ∷ rest))
        (candidates_from old hint (i + 1) rest) all)
      (omega (arith, in_range))
      (ap (λ n. candidate_at old hint n (drop k rest)) (sym (plus_suc i k)) ∙ e)

pub candidates-IsCandidate :
    (lines old : List Bytes) (hint : ℕ)
    → 0 < length old
    → All (IsCandidate lines old hint) (candidates_from old hint 0 lines)
candidates-IsCandidate lines old hint nonempty =
    candidates_from-All (IsCandidate lines old hint) old hint 0 lines (λ k c e.
      let f = candidate_at-fields old hint (0 + k) (drop k lines) c e in
      let i : k ≡ c.index = omega (arith, f) in
      record {
        found =
            subst (λ n. candidate_at old hint n (drop n lines) ≡ some c) i
              (ap (λ n. candidate_at old hint n (drop k lines)) (omega arith) ∙ e);
        room = omega (arith, f, length-drop k lines, nonempty);
        distance = f.2;
      })
