-- ===== src/ApplyPatch/Parse/ReadsBack.antt =====
-- parsePatch of internal/tool/builtin/apply_patch.go on the whole of a printed patch: every hunk and
-- every file of it is kept, in order, the last one included.
use coagent.Base.{
  ◌≡◌, refl, sym, ap, ◌∙◌, Bool, true, not, List, [], ◌∷◌, ◌++◌, Option, none, some, all,
  all-append, Bytes, arith, All,
}
use mathlib.Core.List.{append-nil, append_assoc}
use coagent.ApplyPatch.{PatchHunk, PatchFile}
use coagent.ApplyPatch.Parse.{
  ParseState, close_hunk, flush_patch_file, parse_line, parse_lines, is_blank_path, finish_patch,
  initial_state, parse_patch,
}
use coagent.ApplyPatch.Parse.Lines.{is_scannable, unlines, Scans, unlines-Scans}
use coagent.ApplyPatch.Parse.Headers.{print_hunk_header-scannable}
use coagent.ApplyPatch.Parse.Prints.{
  in_hunk, hunk_lines, hunks_lines, file_lines, patch_lines, PlainHunk, PlainFile,
  parse_lines-append, parse_lines-hunk_lines, parse_patch_path-kept,
}

abbrev with_hunks : PatchFile → List PatchHunk → PatchFile
with_hunks f hs = record f { hunks = hs }

-- The state of the loop behind the hunks.
after_hunks : List PatchFile → PatchFile → Option PatchHunk → List PatchHunk → ParseState
after_hunks files f last [] = in_hunk files f last
after_hunks files f last (h ∷ hs) = after_hunks files (close_hunk f last) (some h) hs

parse_lines-hunks_lines :
    (files : List PatchFile) (f : PatchFile) (last : Option PatchHunk) (hs : List PatchHunk)
    → All PlainHunk hs
    → parse_lines (in_hunk files f last) (hunks_lines hs) ≡ after_hunks files f last hs
unfolding parse_lines after_hunks
parse_lines-hunks_lines files f last [] plain = refl
parse_lines-hunks_lines files f last (h ∷ hs) plain =
    parse_lines-append (in_hunk files f last) (hunk_lines h) (hunks_lines hs)
    ∙ ap (λ (st : ParseState). parse_lines st (hunks_lines hs))
        (parse_lines-hunk_lines files f last h plain.0)
    ∙ parse_lines-hunks_lines files (close_hunk f last) (some h) hs plain.1

closed_hunks : PatchFile → Option PatchHunk → List PatchHunk
closed_hunks f last = (close_hunk f last).hunks

close_path :
    (f : PatchFile) (last : Option PatchHunk)
    → close_hunk f last ≡ with_hunks f (closed_hunks f last)
unfolding closed_hunks
close_path f none = refl
close_path f (some h) = refl

flush-after_hunks :
    (files : List PatchFile) (f : PatchFile) (last : Option PatchHunk) (hs : List PatchHunk)
    → flush_patch_file (after_hunks files f last hs)
      ≡ files ++ with_hunks f (closed_hunks f last ++ hs) ∷ []
unfolding flush_patch_file after_hunks closed_hunks
flush-after_hunks files f last [] =
    ap (λ (g : PatchFile). files ++ g ∷ [])
      (close_path f last ∙ ap (with_hunks f) (sym (append-nil (closed_hunks f last))))
flush-after_hunks files f none (h ∷ hs) =
    flush-after_hunks files f (some h) hs
    ∙ ap (λ (r : List PatchHunk). files ++ with_hunks f r ∷ []) (append_assoc f.hunks (h ∷ []) hs)
flush-after_hunks files f (some g) (h ∷ hs) =
    flush-after_hunks files (close_hunk f (some g)) (some h) hs
    ∙ ap (λ (r : List PatchHunk). files ++ with_hunks f r ∷ [])
        (append_assoc (f.hunks ++ g ∷ []) (h ∷ []) hs)

after_file : List PatchFile → PatchFile → ParseState
after_file files f = after_hunks files (with_hunks f []) none f.hunks

parse_lines-file_lines :
    (st : ParseState) (f : PatchFile)
    → PlainFile f
    → parse_lines st (file_lines f) ≡ after_file (flush_patch_file st) f
unfolding parse_lines parse_line after_file
parse_lines-file_lines st f plain =
    ap
      (λ (p : Bytes).
        parse_lines (in_hunk (flush_patch_file st) (record { path = p; hunks = [] }) none)
          (hunks_lines f.hunks))
      (parse_patch_path-kept f.path plain.whole)
    ∙ parse_lines-hunks_lines (flush_patch_file st) (with_hunks f []) none f.hunks plain.plain_hunks

flush-after_file :
    (files : List PatchFile) (f : PatchFile)
    → flush_patch_file (after_file files f) ≡ files ++ f ∷ []
unfolding after_file closed_hunks
flush-after_file files f = flush-after_hunks files (with_hunks f []) none f.hunks

flush-parse_lines :
    (st : ParseState) (fs : List PatchFile)
    → All PlainFile fs
    → flush_patch_file (parse_lines st (patch_lines fs)) ≡ flush_patch_file st ++ fs
unfolding parse_lines
flush-parse_lines st [] plain = sym (append-nil (flush_patch_file st))
flush-parse_lines st (f ∷ fs) plain =
    let files = flush_patch_file st in
    ap flush_patch_file (parse_lines-append st (file_lines f) (patch_lines fs))
    ∙ ap (λ (s : ParseState). flush_patch_file (parse_lines s (patch_lines fs)))
        (parse_lines-file_lines st f plain.0)
    ∙ flush-parse_lines (after_file files f) fs plain.1
    ∙ ap (λ (r : List PatchFile). r ++ fs) (flush-after_file files f)
    ∙ append_assoc files (f ∷ []) fs

-- The file that is being read has a path.
abbrev is_named_file : Option PatchFile → Bool
is_named_file none = true
is_named_file (some f) = not (is_blank_path f.path)

after_hunks-named :
    (files : List PatchFile) (f : PatchFile) (last : Option PatchHunk) (hs : List PatchHunk)
    → not (is_blank_path f.path) ≡ true
    → is_named_file (after_hunks files f last hs).current_file ≡ true
unfolding after_hunks
after_hunks-named files f last [] named = named
after_hunks-named files f none (h ∷ hs) named = after_hunks-named files f (some h) hs named
after_hunks-named files f (some g) (h ∷ hs) named =
    after_hunks-named files (close_hunk f (some g)) (some h) hs named

parse_lines-named :
    (st : ParseState) (fs : List PatchFile)
    → All PlainFile fs
    → is_named_file st.current_file ≡ true
    → is_named_file (parse_lines st (patch_lines fs)).current_file ≡ true
unfolding parse_lines after_file
parse_lines-named st [] plain named = named
parse_lines-named st (f ∷ fs) plain named =
    let path_named : not (is_blank_path f.path) ≡ true = ground (arith, plain.0.whole) in
    let after : is_named_file
          (parse_lines (after_file (flush_patch_file st) f) (patch_lines fs)).current_file
        ≡ true =
      parse_lines-named (after_file (flush_patch_file st) f) fs plain.1
        (after_hunks-named (flush_patch_file st) (with_hunks f []) none f.hunks path_named) in
    ap (λ (s : ParseState). is_named_file s.current_file)
      (parse_lines-append st (file_lines f) (patch_lines fs)
        ∙ ap (λ (s : ParseState). parse_lines s (patch_lines fs))
            (parse_lines-file_lines st f plain.0))
    ∙ after

finish-named :
    (st : ParseState) → is_named_file st.current_file ≡ true → finish_patch st ≡ flush_patch_file st
unfolding finish_patch flush_patch_file
finish-named st named = ground (arith, named)

-- The patch as a text.
pub print_patch : List PatchFile → Bytes
print_patch fs = unlines (patch_lines fs)

hunks_lines-scannable :
    (hs : List PatchHunk) → All PlainHunk hs → all is_scannable (hunks_lines hs) ≡ true
hunks_lines-scannable [] plain = refl
hunks_lines-scannable (h ∷ hs) plain = ground (
  arith,
  print_hunk_header-scannable h plain.0.fits,
  plain.0.scans,
  hunks_lines-scannable hs plain.1,
  all-append is_scannable (hunk_lines h) (hunks_lines hs),
)

patch_lines-scannable :
    (fs : List PatchFile) → All PlainFile fs → all is_scannable (patch_lines fs) ≡ true
patch_lines-scannable [] plain = refl
patch_lines-scannable (f ∷ fs) plain = ground (
  arith,
  plain.0.old_scans,
  plain.0.new_scans,
  hunks_lines-scannable f.hunks plain.0.plain_hunks,
  patch_lines-scannable fs plain.1,
  all-append is_scannable (file_lines f) (patch_lines fs),
)

-- parsePatch gives back the files of a printed patch, with every hunk and line in order, whatever the
-- number of files. Each path is not empty, has no tab and does not begin with "a/"; the numbers of the
-- headers fit in an int; no line has a line end or a carriage return at its end or is longer than
-- 65535 bytes; no deleted line begins with "-- " and no added line with "++ ".
pub parse_patch-print_patch :
    (fs : List PatchFile) → All PlainFile fs → parse_patch (print_patch fs) ≡ some fs
unfolding parse_patch print_patch
parse_patch-print_patch fs plain =
    let lines = patch_lines fs in
    let scans : Scans lines = unlines-Scans lines (patch_lines-scannable fs plain) in
    let end = parse_lines initial_state lines in
    let read : finish_patch end ≡ fs =
      finish-named end (parse_lines-named initial_state fs plain refl)
      ∙ flush-parse_lines initial_state fs plain in
    ground (arith, scans.split, scans.kept, scans.short, read)
