-- ===== src/Checkpoint/Assemble/Conserves.antt =====
-- assembleCheckpointLocked of internal/session/checkpoint.go: no stored row is lost or kept twice.
use coagent.Base.{
  ℕ, zero, suc, ◌+◌, ◌-◌, ◌≤◌, ◌<◌, ◌≡◌, refl, ap, ◌∙◌, List, [], ◌∷◌, ◌++◌, Option, none, some,
  inl, inr, ◌⊎◌, String, ltb, leb, ◌==◌, take, drop, if◌then◌else◌, get_elem?, count_if,
  count_if-append, arith, Bool-cases, take-append-drop, drop-drop,
}
use coagent.Transcript.{WireMessage}
use coagent.Checkpoint.{CheckpointPrefix}
use coagent.Checkpoint.Assemble.{
  Row, is_carried, row_list, skill_rows, compacted_from, assemble_checkpoint,
}

-- How many of the rows are stored under the identity, and how many of the identities are it.
abbrev pub stored_as : ℕ → List Row → ℕ
stored_as x rows = count_if (λ r. r.row_id == x) rows

abbrev pub times_in : ℕ → List ℕ → ℕ
times_in x ids = count_if (λ id. id == x) ids

-- The kept row, if the rows from index `i` on hold it.
abbrev kept_row : Option ℕ → ℕ → List Row → List Row
kept_row none i rows = []
kept_row (some j) i rows = if leb i j then row_list (get_elem? rows (j - i)) else []

compacted_from-stored_as :
    (x : ℕ) (carried : Option ℕ) (i : ℕ) (rows : List Row)
    → 0 < x
    → stored_as x (kept_row carried i rows) + times_in x (compacted_from carried i rows)
      ≡ stored_as x rows
unfolding compacted_from
compacted_from-stored_as x none i [] pos = ground arith
compacted_from-stored_as x none i (r ∷ rows) pos =
    ground (arith, compacted_from-stored_as x none (i + 1) rows pos)
compacted_from-stored_as x (some j) i [] pos = ground arith
compacted_from-stored_as x (some j) i (r ∷ rows) pos =
    let rest = compacted_from-stored_as x (some j) (i + 1) rows pos in
    elim (Bool-cases (ltb i j)) [
      | inl e ↦
          let d : j - i ≡ suc (j - (i + 1)) = ground (arith, e) in rw d (ground (arith, e, rest))
      | inr e ↦ elim (Bool-cases (i == j)) [
        | inl k ↦ let d : j - i ≡ 0 = ground (arith, k) in rw d (ground (arith, k, rest))
        | inr k ↦ ground (arith, e, k, rest)
      ]
    ]

get_elem?-take {ℓ} :
    {A : Type ℓ} (n i : ℕ) (xs : List A) → i < n → get_elem? (take n xs) i ≡ get_elem? xs i
get_elem?-take zero i xs h = absurd (omega (arith, h))
get_elem?-take (suc n) i [] h = refl
get_elem?-take (suc n) zero (x ∷ xs) h = refl
get_elem?-take (suc n) (suc i) (x ∷ xs) h = get_elem?-take n i xs (omega (arith, h))

get_elem?-drop {ℓ} :
    {A : Type ℓ} (n i : ℕ) (xs : List A) → get_elem? (drop n xs) i ≡ get_elem? xs (n + i)
get_elem?-drop zero i xs = ap (get_elem? xs) (omega arith)
get_elem?-drop (suc n) i [] = refl
get_elem?-drop (suc n) i (x ∷ xs) =
    let e : suc n + i ≡ suc (n + i) = omega arith in rw e (get_elem?-drop n i xs)

abbrev middle : ℕ → ℕ → List Row → List Row
middle header split rows = take (split - header) (drop header rows)

get_elem?-middle :
    (header split j : ℕ) (rows : List Row)
    → header ≤ j
    → j < split
    → get_elem? (middle header split rows) (j - header) ≡ get_elem? rows j
get_elem?-middle header split j rows h k =
    get_elem?-take (split - header) (j - header) (drop header rows) (omega (arith, h, k))
    ∙ get_elem?-drop header (j - header) rows
    ∙ ap (get_elem? rows) (omega (arith, h))

-- Where the carried skill row may stand.
abbrev pub StandsIn : ℕ → ℕ → Option ℕ → Type 0
StandsIn header split idx = (idx ≡ none) ⊎ ((j : ℕ) × (idx ≡ some j) × (header ≤ j) × (j < split))

-- The row that the new transcript carries is the one that is not compacted.
skill_rows-kept_row :
    (x : ℕ) (cp : CheckpointPrefix) (header split : ℕ) (skill : Option (ℕ × String))
    (rows : List Row)
    → 0 < x
    → StandsIn header split cp.skill_row_idx
    → stored_as x (skill_rows cp split skill rows)
      ≡ stored_as x (
          kept_row
            (if is_carried cp skill then cp.skill_row_idx else none)
            header
            (middle header split rows))
unfolding skill_rows is_carried
skill_rows-kept_row x cp header split none rows pos stands = refl
skill_rows-kept_row x cp header split (some (i, env)) rows pos (inl e) = ground (arith, e, pos)
skill_rows-kept_row x cp header split (some (i, env)) rows pos (inr (j, e, h, k)) =
    elim (Bool-cases (i == j)) [
      | inl same ↦
          let at_j : i ≡ j = ground (arith, same) in
          ground (arith, e, same, at_j, h, get_elem?-middle header split j rows h k)
      | inr other ↦ ground (arith, e, other, pos)
    ]

stored_as-append :
    (x : ℕ) (rs ss : List Row) → stored_as x (rs ++ ss) ≡ stored_as x rs + stored_as x ss
stored_as-append x rs ss = count_if-append (λ r. r.row_id == x) rs ss

stored_as-parts :
    (x header split : ℕ) (rows : List Row)
    → header ≤ split
    → stored_as x rows
      ≡ stored_as x (take header rows)
        + stored_as x (middle header split rows)
        + stored_as x (drop split rows)
stored_as-parts x header split rows h =
    let rest = drop header rows in
    let n = split - header in
    let whole : stored_as x (take header rows ++ rest) ≡ stored_as x rows =
      ap (stored_as x) (take-append-drop header rows) in
    let behind : stored_as x (take n rest ++ drop n rest) ≡ stored_as x rest =
      ap (stored_as x) (take-append-drop n rest) in
    let end : stored_as x (drop n rest) ≡ stored_as x (drop split rows) =
      ap (stored_as x) (drop-drop n header rows ∙ ap (λ k. drop k rows) (omega (arith, h))) in
    omega (
      arith,
      whole,
      behind,
      end,
      stored_as-append x (take header rows) rest,
      stored_as-append x (take n rest) (drop n rest),
    )

pub assemble_checkpoint-rows :
    (cp : CheckpointPrefix) (header split : ℕ) (skill : Option (ℕ × String)) (summary : WireMessage)
    (rows : List Row)
    → (assemble_checkpoint cp header split skill summary rows).rows
      ≡ (take header rows
          ++ record { message = summary; row_id = 0 } ∷ skill_rows cp split skill rows)
        ++ drop split rows
unfolding assemble_checkpoint
assemble_checkpoint-rows cp header split skill summary rows = refl

-- A compaction neither loses nor doubles a stored row: each identity is as often in the new
-- transcript and among the compacted ones together as it was in the old transcript. The cut lies
-- behind the header, and a skill row that the last compaction put back lies between the two.
pub assemble_checkpoint-stored_as :
    (cp : CheckpointPrefix) (header split : ℕ) (skill : Option (ℕ × String)) (summary : WireMessage)
    (rows : List Row) (x : ℕ)
    → 0 < x
    → header ≤ split
    → StandsIn header split cp.skill_row_idx
    → stored_as x (assemble_checkpoint cp header split skill summary rows).rows
        + times_in x (assemble_checkpoint cp header split skill summary rows).compacted_ids
      ≡ stored_as x rows
unfolding assemble_checkpoint
assemble_checkpoint-stored_as cp header split skill summary rows x pos h stands =
    let carried = if is_carried cp skill then cp.skill_row_idx else none in
    let new : Row = record { message = summary; row_id = 0 } in
    let skills = skill_rows cp split skill rows in
    let fresh : stored_as x (new ∷ skills) ≡ stored_as x skills = ground (arith, pos) in
    omega (
      arith,
      fresh,
      stored_as-append x (take header rows ++ new ∷ skills) (drop split rows),
      stored_as-append x (take header rows) (new ∷ skills),
      skill_rows-kept_row x cp header split skill rows pos stands,
      compacted_from-stored_as x carried header (middle header split rows) pos,
      stored_as-parts x header split rows h,
    )
