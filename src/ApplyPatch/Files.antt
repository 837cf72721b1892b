-- ===== src/ApplyPatch/Files.antt =====
-- planFilePatches of internal/tool/builtin/apply_patch.go: the bytes that a patch gives a file. The
-- file as the access layer reads it is an argument.
use coagent.Base.{
  ℕ, ◌≡◌, refl, sym, ap, ◌∙◌, Bool, true, false, not, List, [], ◌∷◌, ◌++◌, if◌then◌else◌, ◌==◌,
  Bytes, arith, Bool-cases, inl, inr, subst,
}
use coagent.ApplyPatch.{PatchHunk, Applied, ok, error, apply_hunks, read_failed, not_regular}
use coagent.ApplyPatch.Hunks.{Rewrites, apply_hunks-Rewrites, Applied-cases}

pub data FileRead : Type 0 where
  irregular missing unreadable : FileRead
  holds : Bytes → FileRead

pub record FilePatchPlan : Type 0 where
  pub content : Bytes
  pub original : Bytes
  pub exists : Bool

abbrev pub add_byte : ℕ → List Bytes → List Bytes
add_byte b [] = (b ∷ []) ∷ []
add_byte b (l ∷ ls) = (b ∷ l) ∷ ls

-- `strings.Split(text, "\n")`.
unfoldable pub split_newlines : Bytes → List Bytes
split_newlines [] = [] ∷ []
split_newlines (b ∷ bs) =
    let rest = split_newlines bs in if b == 10 then [] ∷ rest else add_byte b rest

-- `strings.Join(lines, "\n")`.
unfoldable pub join_newlines : List Bytes → Bytes
join_newlines [] = []
join_newlines (l ∷ []) = l
join_newlines (l ∷ m ∷ ls) = l ++ 10 ∷ join_newlines (m ∷ ls)

unfoldable pub plan_lines : List PatchHunk → List Bytes → Bytes → Bool → Applied FilePatchPlan
plan_lines hunks lines original exists = elim (apply_hunks hunks lines 0 (not exists)) [
  | error e ↦ error e
  | ok out ↦ ok (record { content = join_newlines out; original = original; exists = exists })
]

unfoldable pub plan_file_patches : FileRead → List PatchHunk → Applied FilePatchPlan
unfolding plan_lines
plan_file_patches irregular hunks = error not_regular
plan_file_patches unreadable hunks = error read_failed
plan_file_patches missing hunks = plan_lines hunks [] [] false
plan_file_patches (holds content) hunks = plan_lines hunks (split_newlines content) content true

-- A text is the join of a list of lines, and that list is not empty.
record Splits (text : Bytes) (lines : List Bytes) : Type 0 where
  first : Bytes
  others : List Bytes
  not_empty : lines ≡ first ∷ others
  joined : join_newlines (first ∷ others) ≡ text

join-add_byte :
    (b : ℕ) (l : Bytes) (ls : List Bytes)
    → join_newlines ((b ∷ l) ∷ ls) ≡ b ∷ join_newlines (l ∷ ls)
unfolding join_newlines
join-add_byte b l [] = refl
join-add_byte b l (m ∷ ls) = refl

Splits-newline :
    (text : Bytes) (lines : List Bytes) → Splits text lines → Splits (10 ∷ text) ([] ∷ lines)
unfolding join_newlines
Splits-newline text lines s = record {
  first = [];
  others = lines;
  not_empty = refl;
  joined =
      ap (λ (t : List Bytes). join_newlines ([] ∷ t)) s.not_empty
      ∙ ap (λ (t : Bytes). 10 ∷ t) s.joined;
}

Splits-byte :
    (b : ℕ) (text : Bytes) (lines : List Bytes)
    → Splits text lines
    → Splits (b ∷ text) (add_byte b lines)
Splits-byte b text lines s = record {
  first = b ∷ s.first;
  others = s.others;
  not_empty = ap (λ (t : List Bytes). add_byte b t) s.not_empty;
  joined = join-add_byte b s.first s.others ∙ ap (λ (t : Bytes). b ∷ t) s.joined;
}

split_newlines-Splits : (text : Bytes) → Splits text (split_newlines text)
unfolding split_newlines join_newlines
split_newlines-Splits [] = record { first = []; others = []; not_empty = refl; joined = refl }
split_newlines-Splits (b ∷ text) =
    let rest = split_newlines text in
    elim (Bool-cases (b == 10)) [
      | inl e ↦
          let newline : b ≡ 10 = ground (arith, e) in
          rw e (
            subst (λ c. Splits (c ∷ text) ([] ∷ rest)) (sym newline)
              (Splits-newline text rest (split_newlines-Splits text)))
      | inr e ↦ rw e (Splits-byte b text rest (split_newlines-Splits text))
    ]

-- Splitting a text at its newlines and joining the lines gives the text back, byte for byte.
pub join-split_newlines : (text : Bytes) → join_newlines (split_newlines text) ≡ text
join-split_newlines text =
    let s = split_newlines-Splits text in
    ap (λ (t : List Bytes). join_newlines t) s.not_empty ∙ s.joined

-- A plan for a file that exists keeps the file's bytes for the rollback, and its content is a text
-- whose lines come from the file's lines by replacing one block for each hunk, in order.
pub plan_file_patches-Rewrites :
    (content : Bytes) (hunks : List PatchHunk) (p : FilePatchPlan)
    → plan_file_patches (holds content) hunks ≡ ok p
    → (p.original ≡ content)
      × (p.exists ≡ true)
      × ((out : List Bytes) × (p.content ≡ join_newlines out)
          × Rewrites hunks (split_newlines content) out)
unfolding plan_file_patches plan_lines
plan_file_patches-Rewrites content hunks p h =
    let lines = split_newlines content in
    elim (Applied-cases (apply_hunks hunks lines 0 false)) [
      | inl (x, e) ↦ absurd (ground (arith, h, e))
      | inr (out, e) ↦ (
        ground (arith, h, e),
        ground (arith, h, e),
        (out, ground (arith, h, e), apply_hunks-Rewrites hunks lines 0 false out e),
      )
    ]
