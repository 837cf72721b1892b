-- ===== src/ApplyPatch/Parse.antt =====
-- parsePatch of internal/tool/builtin/apply_patch.go: a patch's text as files with hunks. The scanner
-- is that of the standard library: it splits at line ends, drops one carriage return at a line's end
-- and fails at a line of 64 KiB or more; `strconv.Atoi` gives the largest `int` where a number is larger.
pub mod Lines
pub mod Numbers
pub mod Headers
pub mod Prints
pub mod ReadsBack
mod Tests
use coagent.Base.{
  ℕ, ◌+◌, ◌-◌, ◌*◌, min, Bool, true, false, not, ◌&&◌, ◌||◌, List, [], ◌∷◌, ◌++◌, Option, none,
  some, leb, ltb, ◌==◌, length, any, if◌then◌else◌, Bytes, ◌>>=◌,
}
use coagent.ApplyPatch.{LineType, context, addition, deletion, PatchLine, PatchHunk, PatchFile}

abbrev pub max_line : ℕ
max_line = 65535

abbrev pub max_int : ℕ
max_int = 9223372036854775807

-- The line without a carriage return at its end.
pub drop_cr : Bytes → Bytes
drop_cr [] = []
drop_cr (b ∷ bs) =
    let rest = drop_cr bs in elim bs [ [] ↦ if b == 13 then [] else b ∷ [] | _ ↦ b ∷ rest ]

-- What stands behind the last line end: no line where nothing does.
abbrev pub last_line : Bytes → List Bytes
last_line [] = []
last_line (b ∷ bs) = (b ∷ bs) ∷ []

-- The lines of the text behind `line`, the part of a line that is read so far.
pub split_lines : Bytes → Bytes → List Bytes
split_lines line [] = last_line line
split_lines line (b ∷ bs) =
    let ends = split_lines [] bs in
    let goes_on = split_lines (line ++ b ∷ []) bs in if b == 10 then line ∷ ends else goes_on

abbrev pub is_too_long : Bytes → Bool
is_too_long line = ltb max_line (length line)

abbrev pub drop_crs : List Bytes → List Bytes
drop_crs [] = []
drop_crs (l ∷ ls) = drop_cr l ∷ drop_crs ls

-- `strings.CutPrefix`: what stands behind the prefix.
abbrev pub cut_prefix : Bytes → Bytes → Option Bytes
cut_prefix [] text = some text
cut_prefix (p ∷ ps) [] = none
cut_prefix (p ∷ ps) (b ∷ bs) = if p == b then cut_prefix ps bs else none

abbrev pub trim_prefix : Bytes → Bytes → Bytes
trim_prefix prefix text = elim (cut_prefix prefix text) [ none ↦ text | some rest ↦ rest ]

abbrev pub old_file_mark : Bytes
old_file_mark = 45 ∷ 45 ∷ 45 ∷ 32 ∷ []

abbrev pub new_file_mark : Bytes
new_file_mark = 43 ∷ 43 ∷ 43 ∷ 32 ∷ []

-- The text before the first tab.
pub before_tab : Bytes → Bytes
before_tab [] = []
before_tab (b ∷ bs) = let rest = before_tab bs in if b == 9 then [] else b ∷ rest

pub parse_patch_path : Bytes → Bytes
unfolding before_tab
parse_patch_path text = trim_prefix (97 ∷ 47 ∷ []) (trim_prefix (98 ∷ 47 ∷ []) (before_tab text))

abbrev pub is_digit : ℕ → Bool
is_digit b = leb 48 b && leb b 57

-- The digits at the front of a text, and what stands behind them.
pub span_digits : Bytes → Bytes × Bytes
span_digits [] = ([], [])
span_digits (b ∷ bs) =
    let rest = span_digits bs in if is_digit b then (b ∷ rest.0, rest.1) else ([], b ∷ bs)

pub value_from : ℕ → Bytes → ℕ
value_from acc [] = acc
value_from acc (b ∷ bs) = value_from (acc * 10 + (b - 48)) bs

pub atoi : Bytes → ℕ
unfolding value_from
atoi digits = min (value_from 0 digits) max_int

-- A number of at least one digit, with what stands behind it.
abbrev pub number_at : Bytes → Bytes → Option (ℕ × Bytes)
number_at [] rest = none
number_at (b ∷ bs) rest = some (atoi (b ∷ bs), rest)

-- One number of a hunk header.
pub read_number : Bytes → Option (ℕ × Bytes)
unfolding span_digits atoi
read_number text = let found = span_digits text in number_at found.0 found.1

-- The count behind a comma, or 1.
pub read_count : Bytes → Option (ℕ × Bytes)
unfolding read_number
read_count text = elim (cut_prefix (44 ∷ []) text) [
  | none ↦ some (1, text)
  | some rest ↦ read_number rest
]

-- The start and the count of one side of a hunk, with what stands behind them.
pub read_range : Bytes → Option (ℕ × ℕ × Bytes)
unfolding read_count read_number
read_range text = do
  start ← read_number text
  count ← read_count start.1
  some (start.0, count.0, count.1)

abbrev pub hunk_at : ℕ × ℕ × Bytes → ℕ × ℕ × Bytes → PatchHunk
hunk_at old new = record {
  old_start = old.0;
  old_count = old.1;
  new_start = new.0;
  new_count = new.1;
  lines = [];
}

-- `hunkHeaderRe` and `parseHunkHeader`.
pub parse_hunk_header : Bytes → Option PatchHunk
unfolding read_range
parse_hunk_header line = do
  text ← cut_prefix (64 ∷ 64 ∷ 32 ∷ 45 ∷ []) line
  old ← read_range text
  text' ← cut_prefix (32 ∷ 43 ∷ []) old.2
  new ← read_range text'
  rest ← cut_prefix (32 ∷ 64 ∷ 64 ∷ []) new.2
  some (hunk_at old new)

pub line_type_of : ℕ → Option LineType
line_type_of b =
    if b == 32
    then some context
    else if b == 43
    then some addition
    else if b == 45
    then some deletion
    else none

abbrev pub add_line : PatchHunk → PatchLine → PatchHunk
add_line h l = record h { lines = h.lines ++ l ∷ [] }

pub append_patch_line : Option PatchHunk → Bytes → Option PatchHunk
unfolding line_type_of
append_patch_line none line = none
append_patch_line (some h) [] = some h
append_patch_line (some h) (b ∷ bs) = elim (line_type_of b) [
  | none ↦ some h
  | some t ↦ some (add_line h (record { line_type = t; content = bs }))
]

-- The variables of the loop.
pub record ParseState : Type 0 where
  pub files : List PatchFile
  pub current_file : Option PatchFile
  pub current_hunk : Option PatchHunk

-- The file with the hunk that is being read.
abbrev pub close_hunk : PatchFile → Option PatchHunk → PatchFile
close_hunk f none = f
close_hunk f (some h) = record f { hunks = f.hunks ++ h ∷ [] }

pub flush_patch_file : ParseState → List PatchFile
flush_patch_file st = elim st.current_file [
  | none ↦ st.files
  | some f ↦ st.files ++ close_hunk f st.current_hunk ∷ []
]

abbrev pub empty_file : PatchFile
empty_file = record { path = []; hunks = [] }

abbrev set_path : Option PatchFile → Bytes → Option PatchFile
set_path none path = none
set_path (some f) path = some (record f { path = path })

abbrev close_file : Option PatchFile → Option PatchHunk → Option PatchFile
close_file none h = none
close_file (some f) h = some (close_hunk f h)

-- The body of the loop.
pub parse_line : ParseState → Bytes → ParseState
unfolding flush_patch_file parse_patch_path append_patch_line
parse_line st line = elim (cut_prefix old_file_mark line) [
  | some rest ↦ record {
    files = flush_patch_file st;
    current_file = some empty_file;
    current_hunk = none;
  }
  | none ↦ elim (cut_prefix new_file_mark line) [
    | some rest ↦ record st { current_file = set_path st.current_file (parse_patch_path rest) }
    | none ↦ elim (parse_hunk_header line) [
      | some h ↦ record st {
        current_file = close_file st.current_file st.current_hunk;
        current_hunk = some h;
      }
      | none ↦ record st { current_hunk = append_patch_line st.current_hunk line }
    ]
  ]
]

pub parse_lines : ParseState → List Bytes → ParseState
unfolding parse_line
parse_lines st [] = st
parse_lines st (l ∷ ls) = parse_lines (parse_line st l) ls

abbrev pub is_blank_path : Bytes → Bool
is_blank_path [] = true
is_blank_path (b ∷ bs) = false

-- What follows the loop: a last file without a path is left out.
pub finish_patch : ParseState → List PatchFile
unfolding flush_patch_file
finish_patch st = elim st.current_file [
  | none ↦ st.files
  | some f ↦ if is_blank_path f.path then st.files else flush_patch_file st
]

abbrev pub initial_state : ParseState
initial_state = record { files = []; current_file = none; current_hunk = none }

pub parse_patch : Bytes → Option (List PatchFile)
unfolding split_lines drop_cr parse_lines finish_patch
parse_patch patch =
    let lines = split_lines [] patch in
    if any is_too_long lines
    then none
    else some (finish_patch (parse_lines initial_state (drop_crs lines)))
