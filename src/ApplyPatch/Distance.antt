-- ===== src/ApplyPatch/Distance.antt =====
-- findHunkAnchor of internal/tool/builtin/apply_patch.go: the distance of a place from the hint, which
-- the source computes on `int`.
use coagent.Base.{
  ℕ, ◌+◌, ◌-◌, ◌<◌, ◌≡◌, ap, ◌∙◌, arith, inl, inr, ltb, if◌then◌else◌, is_negative, word_size,
  word_sub, word_abs, word_rank, ◌⊎◌, half_size,
}

-- How far the index is from the hint, an `int`.
abbrev pub away : ℕ → ℕ → ℕ
away hint i =
    if is_negative hint then i + (word_size - hint) else if ltb i hint then hint - i else i - hint

abbrev pub quarter_size : ℕ
quarter_size = 4611686018427387904

-- The hint is an integer whose magnitude is below 2 ^ 62.
abbrev pub IsNear : ℕ → Type 0
IsNear hint = (hint < quarter_size) ⊎ ((word_size - quarter_size < hint) × (hint < word_size))

away-distance :
    (hint i : ℕ) → i < quarter_size → IsNear hint → word_abs (word_sub i hint) ≡ away hint i
away-distance hint i small (inl near) = ground (arith, small, near)
away-distance hint i small (inr near) = ground (arith, small, near)

away_bound : (hint i : ℕ) → i < quarter_size → IsNear hint → away hint i < half_size
away_bound hint i small (inl near) = ground (arith, small, near)
away_bound hint i small (inr near) = ground (arith, small, near)

-- The distances of two places are ordered as the source orders them.
pub away-word_rank :
    (hint i k : ℕ)
    → i < quarter_size
    → k < quarter_size
    → IsNear hint
    → word_rank (word_abs (word_sub i hint)) < word_rank (word_abs (word_sub k hint))
    → away hint i < away hint k
away-word_rank hint i k small small' near h =
    let a : word_rank (away hint i) ≡ away hint i + half_size =
      omega (arith, away_bound hint i small near) in
    let b : word_rank (away hint k) ≡ away hint k + half_size =
      omega (arith, away_bound hint k small' near) in
    let ai = ap word_rank (away-distance hint i small near) ∙ a in
    let bi = ap word_rank (away-distance hint k small' near) ∙ b in omega (arith, h, ai, bi)
