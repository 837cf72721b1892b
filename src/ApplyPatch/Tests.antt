-- ===== src/ApplyPatch/Tests.antt =====
-- Concrete patches.
use coagent.Base.{
  ℕ, zero, ◌↔◌, bytes_eq_refl, inl, ◌≡◌, refl, true, false, List, [], ◌∷◌, Option, some, none,
  if◌then◌else◌, Bytes, bytes_eq, arith, ◌⊎◌, drop,
}
use coagent.ApplyPatch.{
  PatchFile, PatchHunk, context, addition, deletion, Candidate, candidate_at, before,
  find_hunk_anchor, ok, error, not_found, apply_hunk_at, apply_hunks, old_lines, new_lines,
  match_line, match_lines, candidates_from, sort_candidates, insert_candidate, choose, insert_hunk,
  replace_hunk, clamp_hint,
}
use coagent.ApplyPatch.Matches.{MatchesAt, candidate_at-MatchesAt}
use coagent.ApplyPatch.Anchor.{IsWorse, find_hunk_anchor-best, find_hunk_anchor-not_found}
use coagent.ApplyPatch.Hunks.{Rewrites}
use coagent.ApplyPatch.Files.{
  FilePatchPlan, holds, plan_file_patches, plan_file_patches-Rewrites, plan_lines, split_newlines,
  join_newlines,
}
use coagent.ApplyPatch.Transaction.{
  FileMap, FileMutator, IsLocal, apply_jobs, write_file_patch, rollback, undo,
}
use coagent.ApplyPatch.Execute.{
  write_failed, read_file, has_duplicate, plan_jobs, execute_patch, CanRewrite, CanRemove,
  execute_patch-atomic,
}

-- The text "a", newline, "b", newline, "a", newline, "c".
abbrev text : Bytes
text = 97 ∷ 10 ∷ 98 ∷ 10 ∷ 97 ∷ 10 ∷ 99 ∷ []

abbrev text_lines : List Bytes
text_lines = (97 ∷ []) ∷ (98 ∷ []) ∷ (97 ∷ []) ∷ (99 ∷ []) ∷ []

-- The lines "a" and "b", which stand at index 0 with a blank behind each, and at index 2 with a
-- blank behind the second one.
abbrev blank_lines : List Bytes
blank_lines = (97 ∷ 32 ∷ []) ∷ (98 ∷ 32 ∷ []) ∷ (97 ∷ []) ∷ (98 ∷ 32 ∷ []) ∷ []

abbrev two_old : List Bytes
two_old = (97 ∷ []) ∷ (98 ∷ []) ∷ []

-- The place with an equal line is chosen, although the hint is at the other one.
anchor_found : find_hunk_anchor blank_lines two_old 0 ≡ ok 2
unfolding find_hunk_anchor candidates_from candidate_at match_lines match_line sort_candidates
    insert_candidate before choose
anchor_found = refl

abbrev second_candidate : Candidate
second_candidate = record { index = 0; exact = 0; whitespace = 2; distance = 0 }

second_found : candidate_at two_old 0 0 (drop 0 blank_lines) ≡ some second_candidate
unfolding candidate_at match_lines match_line
second_found = refl

second_matches : MatchesAt blank_lines two_old 0
second_matches =
    candidate_at-MatchesAt blank_lines two_old 0 0 second_candidate (omega arith) second_found

find_hunk_anchor-best_example :
    MatchesAt blank_lines two_old 2 × ((zero ≡ 2) ⊎ IsWorse blank_lines two_old 0 2 0)
find_hunk_anchor-best_example =
    find_hunk_anchor-best blank_lines two_old 0 2 0 (omega arith) (omega arith) (inl (omega arith))
      anchor_found second_matches

-- The line "d" is not in the text.
anchor_not_found : find_hunk_anchor text_lines ((100 ∷ []) ∷ []) 2 ≡ error not_found
unfolding find_hunk_anchor candidates_from candidate_at match_lines match_line sort_candidates
    insert_candidate before choose
anchor_not_found = refl

abbrev missing : List Bytes
missing = (100 ∷ []) ∷ []

find_hunk_anchor-not_found_example :
    (find_hunk_anchor text_lines missing 2 ≡ error not_found)
    ↔ ((k : ℕ) → MatchesAt text_lines missing k → ⊥)
find_hunk_anchor-not_found_example = find_hunk_anchor-not_found text_lines missing 2 (omega arith)

-- The line "c" becomes the line "d", behind the line "a".
abbrev hunk : PatchHunk
hunk = record {
  old_start = 3;
  old_count = 2;
  new_start = 3;
  new_count = 2;
  lines =
      record { line_type = context; content = 97 ∷ [] }
      ∷ record { line_type = deletion; content = 99 ∷ [] }
      ∷ record { line_type = addition; content = 100 ∷ [] }
      ∷ [];
}

abbrev text_after : List Bytes
text_after = (97 ∷ []) ∷ (98 ∷ []) ∷ (97 ∷ []) ∷ (100 ∷ []) ∷ []

hunk_applied : apply_hunk_at text_lines hunk 2 false ≡ ok (text_after, 0)
unfolding apply_hunk_at insert_hunk replace_hunk old_lines new_lines find_hunk_anchor
    candidates_from candidate_at match_lines match_line sort_candidates insert_candidate before
    choose clamp_hint
hunk_applied = refl

abbrev plan : FilePatchPlan
plan = record { content = 97 ∷ 10 ∷ 98 ∷ 10 ∷ 97 ∷ 10 ∷ 100 ∷ []; original = text; exists = true }

planned : plan_file_patches (holds text) (hunk ∷ []) ≡ ok plan
unfolding plan_file_patches plan_lines split_newlines join_newlines apply_hunks apply_hunk_at
    insert_hunk replace_hunk old_lines new_lines find_hunk_anchor candidates_from candidate_at
    match_lines match_line sort_candidates insert_candidate before choose clamp_hint
planned = refl

plan_file_patches-Rewrites_example :
    (plan.original ≡ text)
    × (plan.exists ≡ true)
    × ((out : List Bytes) × (plan.content ≡ join_newlines out)
        × Rewrites (hunk ∷ []) (split_newlines text) out)
plan_file_patches-Rewrites_example = plan_file_patches-Rewrites text (hunk ∷ []) plan planned

put : FileMap → Bytes → Option Bytes → FileMap
put fs p c q = if bytes_eq p q then c else fs q

put-same : (fs : FileMap) (p : Bytes) (c : Option Bytes) → put fs p c p ≡ c
unfolding put
put-same fs p c = ground (arith, bytes_eq_refl p)

-- A mutator whose writes succeed, with a ledger that fails for the path "2".
abbrev mutator : FileMutator
mutator = record {
  write_file = λ fs p c. (put fs p (some c), false);
  remove_file = λ fs p. put fs p none;
  record_read = λ fs p. bytes_eq p (50 ∷ []);
  is_irregular = λ p. false;
  is_unreadable = λ p. false;
}

put-local :
    (fs : FileMap) (p : Bytes) (c : Option Bytes) (q : Bytes)
    → (bytes_eq p q ≡ true) ⊎ (put fs p c q ≡ fs q)
unfolding put
put-local fs p c q = ground arith

mutator-IsLocal : IsLocal mutator
mutator-IsLocal = record {
  write_local = λ fs p c q. put-local fs p (some c) q;
  remove_local = λ fs p q. put-local fs p none q;
}

abbrev files : FileMap
files p = if bytes_eq p (49 ∷ []) then some text else none

-- The path "1" is patched, and the path "2" created.
abbrev patch_files : List PatchFile
patch_files =
    record { path = 49 ∷ []; hunks = hunk ∷ [] }
    ∷ record {
      path = 50 ∷ [];
      hunks =
          record {
            old_start = 0;
            old_count = 0;
            new_start = 1;
            new_count = 1;
            lines = record { line_type = addition; content = 100 ∷ [] } ∷ [];
          }
          ∷ [];
    }
    ∷ []

rewrites : CanRewrite mutator files
unfolding put
rewrites = record { rewrite = λ p c fs h. put-same fs p (some c) }

removes : CanRemove mutator false files patch_files
removes = inl (refl, λ fs p. put-same fs p none)

patch_fails : (execute_patch mutator false files patch_files).1 ≡ some write_failed
unfolding put execute_patch has_duplicate plan_jobs read_file apply_jobs write_file_patch rollback
    undo plan_file_patches plan_lines split_newlines join_newlines apply_hunks apply_hunk_at
    insert_hunk replace_hunk old_lines new_lines find_hunk_anchor candidates_from candidate_at
    match_lines match_line sort_candidates insert_candidate before choose clamp_hint
patch_fails = refl

execute_patch-atomic_example :
    (execute_patch mutator false files patch_files).0 (49 ∷ []) ≡ files (49 ∷ [])
execute_patch-atomic_example =
    execute_patch-atomic mutator false files patch_files write_failed (49 ∷ []) mutator-IsLocal
      rewrites removes patch_fails
