-- ===== src/ApplyPatch.antt =====
-- internal/tool/builtin/apply_patch.go: hunks applied to the lines of a file. A text is the list of
-- its bytes, an `int` the machine's word. The capacities given to `make` have no counterpart: a
-- count so large that `make` panics cannot agree with the lines either, and both fail the call.
pub mod Sorts
pub mod Matches
pub mod Distance
pub mod Choice
pub mod Candidates
pub mod Anchor
pub mod Hunks
pub mod Files
pub mod Transaction
pub mod Execute
pub mod Parse
mod Tests
use coagent.Base.{
  ℕ, zero, suc, ◌+◌, ◌-◌, Bool, true, false, not, ◌&&◌, ◌||◌, List, [], ◌∷◌, ◌++◌, Option, none,
  some, length, take, drop, if◌then◌else◌, ltb, leb, ◌==◌, Bytes, bytes_eq, trim_right, word_add,
  word_sub, word_abs, word_rank, is_negative,
}

pub data LineType : Type 0 where
  context addition deletion : LineType

pub record PatchLine : Type 0 where
  pub line_type : LineType
  pub content : Bytes

pub record PatchHunk : Type 0 where
  pub old_start : ℕ
  pub old_count : ℕ
  pub new_start : ℕ
  pub new_count : ℕ
  pub lines : List PatchLine

pub record PatchFile : Type 0 where
  pub path : Bytes
  pub hunks : List PatchHunk

pub data PatchError : Type 0 where
  counts_mismatch context_on_missing_file not_found ambiguous read_failed not_regular : PatchError

pub data Applied {ℓ} (A : Type ℓ) : Type ℓ where
  ok : A → Applied A
  error : PatchError → Applied A

pub record Candidate : Type 0 where
  pub index : ℕ
  pub exact : ℕ
  pub whitespace : ℕ
  pub distance : ℕ

-- The line of the file, and the line that is wanted.
pub data LineMatch : Type 0 where
  same same_trimmed differs : LineMatch

pub match_line : Bytes → Bytes → LineMatch
match_line got want =
    if bytes_eq got want
    then same
    else if bytes_eq (trim_right got) (trim_right want)
    then same_trimmed
    else differs

-- The inner loop of `findHunkAnchor`: the counters `exact` and `whitespace` of a match.
pub match_lines : List Bytes → List Bytes → ℕ → ℕ → Option (ℕ × ℕ)
unfolding match_line
match_lines lines [] exact whitespace = some (exact, whitespace)
match_lines [] (want ∷ old) exact whitespace = none
match_lines (got ∷ lines) (want ∷ old) exact whitespace = elim (match_line got want) [
  | same ↦ match_lines lines old (exact + 1) whitespace
  | same_trimmed ↦ match_lines lines old exact (whitespace + 1)
  | differs ↦ none
]

-- The candidate at index `i`, with the lines from there on.
pub candidate_at : List Bytes → ℕ → ℕ → List Bytes → Option Candidate
candidate_at old hint i rest =
    if leb (length old) (length rest)
    then elim (match_lines rest old 0 0) [
      | none ↦ none
      | some (e, w) ↦
          some
            (record { index = i; exact = e; whitespace = w; distance = word_abs (word_sub i hint) })
    ]
    else none

abbrev pub add_candidate : Option Candidate → List Candidate → List Candidate
add_candidate none cs = cs
add_candidate (some c) cs = c ∷ cs

-- The outer loop of `findHunkAnchor`.
pub candidates_from : List Bytes → ℕ → ℕ → List Bytes → List Candidate
candidates_from old hint i [] = add_candidate (candidate_at old hint i []) []
candidates_from old hint i (x ∷ rest) =
    add_candidate (candidate_at old hint i (x ∷ rest)) (candidates_from old hint (i + 1) rest)

-- The order of the sort.
pub before : Candidate → Candidate → Bool
before a b =
    if not (a.exact == b.exact)
    then ltb b.exact a.exact
    else if not (a.whitespace == b.whitespace)
    then ltb b.whitespace a.whitespace
    else ltb (word_rank a.distance) (word_rank b.distance)

insert_candidate : Candidate → List Candidate → List Candidate
insert_candidate c [] = c ∷ []
insert_candidate c (d ∷ ds) = if before d c then d ∷ insert_candidate c ds else c ∷ d ∷ ds

pub sort_candidates : List Candidate → List Candidate
sort_candidates [] = []
sort_candidates (c ∷ cs) = insert_candidate c (sort_candidates cs)

abbrev pub is_tie : Candidate → Candidate → Bool
is_tie a b = (a.exact == b.exact) && (a.whitespace == b.whitespace) && (a.distance == b.distance)

pub choose : List Candidate → Applied ℕ
choose [] = error not_found
choose (c ∷ []) = ok c.index
choose (c ∷ d ∷ ds) = if is_tie c d then error ambiguous else ok c.index

pub find_hunk_anchor : List Bytes → List Bytes → ℕ → Applied ℕ
unfolding choose
find_hunk_anchor lines old hint = choose (sort_candidates (candidates_from old hint 0 lines))

abbrev pub replace_line_range : List Bytes → ℕ → ℕ → List Bytes → List Bytes
replace_line_range lines start end replacement = take start lines ++ replacement ++ drop end lines

-- The two accumulators of the loop of `applyHunkAt`.
pub old_lines : List PatchLine → List Bytes
old_lines [] = []
old_lines (l ∷ ls) = elim l.line_type [
  | context ↦ l.content ∷ old_lines ls
  | deletion ↦ l.content ∷ old_lines ls
  | addition ↦ old_lines ls
]

pub new_lines : List PatchLine → List Bytes
new_lines [] = []
new_lines (l ∷ ls) = elim l.line_type [
  | context ↦ l.content ∷ new_lines ls
  | deletion ↦ new_lines ls
  | addition ↦ l.content ∷ new_lines ls
]

-- The clamping of the hint for a hunk without old lines.
pub clamp_hint : ℕ → ℕ → ℕ
clamp_hint size hint = if is_negative hint then 0 else if ltb size hint then size else hint

pub insert_hunk : List Bytes → PatchHunk → ℕ → Bool → Applied (List Bytes × ℕ)
unfolding new_lines clamp_hint
insert_hunk lines hunk hint missing_file =
    let new = new_lines hunk.lines in
    if missing_file && not (length hunk.lines == length new)
    then error context_on_missing_file
    else let at_hint = clamp_hint (length lines) hint in
      ok (replace_line_range lines at_hint at_hint new, length new)

pub replace_hunk : List Bytes → PatchHunk → ℕ → Applied (List Bytes × ℕ)
unfolding old_lines new_lines find_hunk_anchor
replace_hunk lines hunk hint =
    let old = old_lines hunk.lines in
    let new = new_lines hunk.lines in
    elim (find_hunk_anchor lines old hint) [
      | error e ↦ error e
      | ok start ↦ ok (
        replace_line_range lines start (start + length old) new,
        word_sub (length new) (length old),
      )
    ]

-- The lines after a hunk, and by how many they grew.
pub apply_hunk_at : List Bytes → PatchHunk → ℕ → Bool → Applied (List Bytes × ℕ)
unfolding insert_hunk replace_hunk old_lines new_lines
apply_hunk_at lines hunk hint missing_file =
    if not (length (old_lines hunk.lines) == hunk.old_count)
      || not (length (new_lines hunk.lines) == hunk.new_count)
    then error counts_mismatch
    else if length (old_lines hunk.lines) == 0
    then insert_hunk lines hunk hint missing_file
    else replace_hunk lines hunk hint

-- The loop of `planFilePatches`; the word is `lineDelta`.
pub apply_hunks : List PatchHunk → List Bytes → ℕ → Bool → Applied (List Bytes)
apply_hunks [] lines delta missing_file = ok lines
apply_hunks (h ∷ hs) lines delta missing_file =
    elim (apply_hunk_at lines h (word_add (word_sub h.old_start 1) delta) missing_file) [
      | error e ↦ error e
      | ok (updated, d) ↦ apply_hunks hs updated (word_add delta d) missing_file
    ]
