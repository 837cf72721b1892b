-- ===== src/ApplyPatch/Parse/Tests.antt =====
-- parsePatch of internal/tool/builtin/apply_patch.go on small patches, and a patch that is read back.
use coagent.Base.{◌≡◌, refl, List, [], ◌∷◌, some, arith}
use coagent.ApplyPatch.{context, addition, deletion, PatchHunk, PatchFile}
use coagent.ApplyPatch.Parse.{
  drop_cr, split_lines, before_tab, parse_patch_path, span_digits, value_from, atoi, read_number,
  read_count, read_range, parse_hunk_header, parse_line, parse_lines, finish_patch, parse_patch,
}
use coagent.ApplyPatch.Parse.Prints.{PlainHunk}
use coagent.ApplyPatch.Parse.ReadsBack.{print_patch, parse_patch-print_patch}

abbrev hunk : PatchHunk
hunk = record {
  old_start = 10;
  old_count = 1;
  new_start = 12;
  new_count = 2;
  lines =
      record { line_type = context; content = 97 ∷ [] }
      ∷ record { line_type = deletion; content = [] }
      ∷ record { line_type = addition; content = 43 ∷ 43 ∷ [] }
      ∷ [];
}

-- The paths "f" and "g": two hunks and none.
abbrev files : List PatchFile
files =
    record { path = 102 ∷ []; hunks = hunk ∷ hunk ∷ [] }
    ∷ record { path = 103 ∷ []; hunks = [] }
    ∷ []

hunk-PlainHunk : PlainHunk hunk
hunk-PlainHunk = record {
  fits = record {
    old_start_fits = omega arith;
    old_count_fits = omega arith;
    new_start_fits = omega arith;
    new_count_fits = omega arith;
  };
  plain = refl;
  scans = refl;
}

parse_patch-print_patch_example : parse_patch (print_patch files) ≡ some files
parse_patch-print_patch_example = parse_patch-print_patch files (
  (record {
    whole = refl;
    old_scans = refl;
    new_scans = refl;
    plain_hunks = (hunk-PlainHunk, (hunk-PlainHunk, tt));
  }),
  (record { whole = refl; old_scans = refl; new_scans = refl; plain_hunks = tt }, tt),
)

-- "@@ -3 +4,5 @@ f": a count that is left out is 1, and what follows the mark is not read.
short_header :
    parse_hunk_header
      (64 ∷ 64 ∷ 32 ∷ 45 ∷ 51 ∷ 32 ∷ 43 ∷ 52 ∷ 44 ∷ 53 ∷ 32 ∷ 64 ∷ 64 ∷ 32 ∷ 102 ∷ [])
    ≡ some (record { old_start = 3; old_count = 1; new_start = 4; new_count = 5; lines = [] })
unfolding parse_hunk_header read_range read_count read_number span_digits atoi value_from
short_header = refl

-- "+++ f" without a line that starts a file gives no file.
no_file : parse_patch (43 ∷ 43 ∷ 43 ∷ 32 ∷ 102 ∷ 10 ∷ []) ≡ some []
unfolding parse_patch split_lines drop_cr parse_lines parse_line finish_patch parse_patch_path
    before_tab
no_file = refl

-- "b/f" and a tab with a date behind it.
path_with_date : parse_patch_path (98 ∷ 47 ∷ 102 ∷ 9 ∷ 50 ∷ []) ≡ 102 ∷ []
unfolding parse_patch_path before_tab
path_with_date = refl
