-- ===== src/ApplyPatch/Parse/Prints.antt =====
-- parsePatch of internal/tool/builtin/apply_patch.go reads back a printed patch: the states of its
-- loop along the lines of the printer.
use coagent.Base.{
  ℕ, ◌≡◌, refl, sym, ap, ◌∙◌, Bool, true, false, not, ◌&&◌, List, [], ◌∷◌, ◌++◌, Option, none, some,
  map, ◌==◌, all, Bytes, arith, All,
}
use mathlib.Core.List.{append-nil, append_assoc}
use coagent.ApplyPatch.{LineType, context, addition, deletion, PatchLine, PatchHunk, PatchFile}
use coagent.ApplyPatch.Parse.{
  ParseState, cut_prefix, old_file_mark, new_file_mark, before_tab, parse_patch_path, add_line,
  append_patch_line, close_hunk, parse_line, parse_lines, is_blank_path, parse_hunk_header,
  line_type_of,
}
use coagent.ApplyPatch.Parse.Lines.{is_scannable}
use coagent.ApplyPatch.Parse.Numbers.{
  FitsInt, print_hunk_header, parse_hunk_header-print_hunk_header,
}

abbrev pub byte_of : LineType → ℕ
byte_of context = 32
byte_of addition = 43
byte_of deletion = 45

abbrev pub print_line : PatchLine → Bytes
print_line l = byte_of l.line_type ∷ l.content

abbrev pub hunk_lines : PatchHunk → List Bytes
hunk_lines h = print_hunk_header h ∷ map print_line h.lines

abbrev pub hunks_lines : List PatchHunk → List Bytes
hunks_lines [] = []
hunks_lines (h ∷ hs) = hunk_lines h ++ hunks_lines hs

abbrev pub old_file_line : Bytes → Bytes
old_file_line path = 45 ∷ 45 ∷ 45 ∷ 32 ∷ 97 ∷ 47 ∷ path

abbrev pub new_file_line : Bytes → Bytes
new_file_line path = 43 ∷ 43 ∷ 43 ∷ 32 ∷ 98 ∷ 47 ∷ path

abbrev pub file_lines : PatchFile → List Bytes
file_lines f = old_file_line f.path ∷ new_file_line f.path ∷ hunks_lines f.hunks

abbrev pub patch_lines : List PatchFile → List Bytes
patch_lines [] = []
patch_lines (f ∷ fs) = file_lines f ++ patch_lines fs

abbrev pub is_none : Option Bytes → Bool
is_none none = true
is_none (some x) = false

-- The line is not one that starts or names a file.
abbrev pub is_plain : PatchLine → Bool
is_plain l =
    is_none (cut_prefix old_file_mark (print_line l))
    && is_none (cut_prefix new_file_mark (print_line l))

abbrev is_no_tab : ℕ → Bool
is_no_tab b = not (b == 9)

-- The path is not empty, and no part of it is cut off.
abbrev pub is_whole_path : Bytes → Bool
is_whole_path path =
    not (is_blank_path path) && all is_no_tab path && is_none (cut_prefix (97 ∷ 47 ∷ []) path)

pub record PlainHunk (h : PatchHunk) : Type 0 where
  pub fits : FitsInt h
  pub plain : all is_plain h.lines ≡ true
  pub scans : all is_scannable (map print_line h.lines) ≡ true

pub record PlainFile (f : PatchFile) : Type 0 where
  pub whole : is_whole_path f.path ≡ true
  pub old_scans : is_scannable (old_file_line f.path) ≡ true
  pub new_scans : is_scannable (new_file_line f.path) ≡ true
  pub plain_hunks : All PlainHunk f.hunks

none-is_none : (o : Option Bytes) → is_none o ≡ true → o ≡ none
none-is_none none h = refl
none-is_none (some x) h = absurd (ground (arith, h))

before_tab-kept : (path : Bytes) → all is_no_tab path ≡ true → before_tab path ≡ path
unfolding before_tab
before_tab-kept [] h = refl
before_tab-kept (b ∷ bs) h =
    let tail : all is_no_tab bs ≡ true = ground (arith, h) in
    ground (arith, h, before_tab-kept bs tail)

pub parse_patch_path-kept :
    (path : Bytes) → is_whole_path path ≡ true → parse_patch_path (98 ∷ 47 ∷ path) ≡ path
unfolding parse_patch_path before_tab
parse_patch_path-kept path h =
    let no_tab : all is_no_tab path ≡ true = ground (arith, h) in
    let kept : before_tab path ≡ path = before_tab-kept path no_tab in
    let no_mark : cut_prefix (97 ∷ 47 ∷ []) path ≡ none =
      none-is_none (cut_prefix (97 ∷ 47 ∷ []) path) (ground (arith, h)) in
    ground (arith, kept, no_mark)

abbrev pub in_hunk : List PatchFile → PatchFile → Option PatchHunk → ParseState
in_hunk files f h = record { files = files; current_file = some f; current_hunk = h }

line_type_of-byte_of : (t : LineType) → line_type_of (byte_of t) ≡ some t
unfolding line_type_of
line_type_of-byte_of context = refl
line_type_of-byte_of addition = refl
line_type_of-byte_of deletion = refl

append_patch_line-print_line :
    (h : PatchHunk) (l : PatchLine)
    → append_patch_line (some h) (print_line l) ≡ some (add_line h l)
unfolding append_patch_line
append_patch_line-print_line h l = ground (arith, line_type_of-byte_of l.line_type)

no_header : (t : LineType) (content : Bytes) → parse_hunk_header (byte_of t ∷ content) ≡ none
unfolding parse_hunk_header
no_header context content = refl
no_header addition content = refl
no_header deletion content = refl

parse_line-print_line :
    (files : List PatchFile) (f : PatchFile) (h : PatchHunk) (l : PatchLine)
    → is_plain l ≡ true
    → parse_line (in_hunk files f (some h)) (print_line l) ≡ in_hunk files f (some (add_line h l))
unfolding parse_line
parse_line-print_line files f h l plain =
    let no_old : cut_prefix old_file_mark (print_line l) ≡ none =
      none-is_none (cut_prefix old_file_mark (print_line l)) (ground (arith, plain)) in
    let no_new : cut_prefix new_file_mark (print_line l) ≡ none =
      none-is_none (cut_prefix new_file_mark (print_line l)) (ground (arith, plain)) in
    ground
      (arith, no_old, no_new, no_header l.line_type l.content, append_patch_line-print_line h l)

abbrev pub with_lines : PatchHunk → List PatchLine → PatchHunk
with_lines h ls = record h { lines = ls }

pub parse_lines-append :
    (st : ParseState) (xs ys : List Bytes)
    → parse_lines st (xs ++ ys) ≡ parse_lines (parse_lines st xs) ys
unfolding parse_lines
parse_lines-append st [] ys = refl
parse_lines-append st (x ∷ xs) ys = parse_lines-append (parse_line st x) xs ys

parse_lines-print_line :
    (files : List PatchFile) (f : PatchFile) (h : PatchHunk) (ls : List PatchLine)
    → all is_plain ls ≡ true
    → parse_lines (in_hunk files f (some h)) (map print_line ls)
      ≡ in_hunk files f (some (with_lines h (h.lines ++ ls)))
unfolding parse_lines
parse_lines-print_line files f h [] plain =
    ap (λ (ls : List PatchLine). in_hunk files f (some (with_lines h ls)))
      (sym (append-nil h.lines))
parse_lines-print_line files f h (l ∷ ls) plain =
    let here : is_plain l ≡ true = ground (arith, plain) in
    let tail : all is_plain ls ≡ true = ground (arith, plain) in
    ap (λ (st : ParseState). parse_lines st (map print_line ls))
      (parse_line-print_line files f h l here)
    ∙ parse_lines-print_line files f (add_line h l) ls tail
    ∙ ap (λ (r : List PatchLine). in_hunk files f (some (with_lines h r)))
        (append_assoc h.lines (l ∷ []) ls)

-- A header closes the hunk before it, and its lines follow.
pub parse_lines-hunk_lines :
    (files : List PatchFile) (f : PatchFile) (last : Option PatchHunk) (h : PatchHunk)
    → PlainHunk h
    → parse_lines (in_hunk files f last) (hunk_lines h) ≡ in_hunk files (close_hunk f last) (some h)
unfolding parse_lines parse_line print_hunk_header
parse_lines-hunk_lines files f last h plain =
    let header : parse_hunk_header (print_hunk_header h) ≡ some (with_lines h []) =
      parse_hunk_header-print_hunk_header h plain.fits in
    let begun : parse_line (in_hunk files f last) (print_hunk_header h)
        ≡ in_hunk files (close_hunk f last) (some (with_lines h [])) =
      ground (arith, header) in
    ap (λ (st : ParseState). parse_lines st (map print_line h.lines)) begun
    ∙ parse_lines-print_line files (close_hunk f last) (with_lines h []) h.lines plain.plain
