-- ===== src/ApplyPatch/Execute.antt =====
-- Execute of internal/tool/builtin/apply_patch.go from the parsed files on: all plans are made before
-- the first write. The paths are those that resolveAccessTarget gives.
use coagent.Base.{
  ◌≡◌, refl, Bool, true, false, ◌||◌, List, [], ◌∷◌, Option, some, none, if◌then◌else◌, Bytes,
  bytes_eq, arith, Bool-cases, inl, inr, ◌⊎◌, subst, All, any,
}
use coagent.ApplyPatch.{PatchFile, PatchHunk, PatchError, Applied, ok, error}
use coagent.ApplyPatch.Hunks.{Applied-cases}
use coagent.ApplyPatch.Files.{
  FilePatchPlan, FileRead, irregular, missing, unreadable, holds, plan_file_patches, plan_lines,
}
use coagent.ApplyPatch.Transaction.{
  FileMap, FileMutator, Job, IsLocal, Restorable, rewritable, removable, apply_jobs,
  apply_jobs-atomic,
}

pub data ExecuteError : Type 0 where
  no_files duplicate_file write_failed : ExecuteError
  plan_failed : PatchError → ExecuteError

unfoldable pub read_file : FileMutator → FileMap → Bytes → FileRead
read_file m fs p =
    if m.is_irregular p
    then irregular
    else if m.is_unreadable p
    then unreadable
    else elim (fs p) [ none ↦ missing | some content ↦ holds content ]

-- The loop over `seenPaths`.
unfoldable pub has_duplicate : List PatchFile → Bool
has_duplicate [] = false
has_duplicate (f ∷ files) = any (λ g. bytes_eq f.path g.path) files || has_duplicate files

unfoldable pub plan_jobs : FileMutator → FileMap → List PatchFile → Applied (List Job)
unfolding read_file
plan_jobs m fs [] = ok []
plan_jobs m fs (f ∷ files) =
    let rest = plan_jobs m fs files in
    elim (plan_file_patches (read_file m fs f.path) f.hunks) [
      | error e ↦ error e
      | ok p ↦ elim rest [
        | error e ↦ error e
        | ok jobs ↦ ok (record { path = f.path; plan = p } ∷ jobs)
      ]
    ]

-- The files after the patch, and the error if there was one.
unfoldable pub execute_patch :
    FileMutator → Bool → FileMap → List PatchFile → FileMap × Option ExecuteError
unfolding has_duplicate plan_jobs
execute_patch m has_access fs [] = (fs, some no_files)
execute_patch m has_access fs (f ∷ files) =
    if has_duplicate (f ∷ files)
    then (fs, some duplicate_file)
    else elim (plan_jobs m fs (f ∷ files)) [
      | error e ↦ (fs, some (plan_failed e))
      | ok jobs ↦
          let wrote = apply_jobs m has_access fs [] jobs in
          (wrote.0, if wrote.1 then some write_failed else none)
    ]

-- A write of the bytes that a file held before succeeds.
pub record CanRewrite (m : FileMutator) (fs0 : FileMap) : Type 0 where
  pub rewrite : (p c : Bytes) (fs : FileMap) → fs0 p ≡ some c → (m.write_file fs p c).0 p ≡ some c

-- A file that the patch creates can be removed again, or it creates none.
abbrev pub CanRemove : FileMutator → Bool → FileMap → List PatchFile → Type 0
CanRemove m has_access fs0 files =
    ((has_access ≡ false) × ((fs : FileMap) (p : Bytes) → m.remove_file fs p p ≡ none))
    ⊎ All (λ f. (c : Bytes) × (fs0 f.path ≡ some c)) files

-- What a plan keeps of the file.
plan-original :
    (m : FileMutator) (fs : FileMap) (p : Bytes) (hunks : List PatchHunk) (plan : FilePatchPlan)
    → plan_file_patches (read_file m fs p) hunks ≡ ok plan
    → ((plan.exists ≡ true) × (fs p ≡ some plan.original)) ⊎ ((plan.exists ≡ false) × (fs p ≡ none))
unfolding read_file plan_file_patches plan_lines
plan-original m fs p hunks plan h = ground (arith, h)

-- The planned jobs for files of which none is created, or that can be removed.
job-Restorable :
    (m : FileMutator) (has_access : Bool) (fs : FileMap) (p : Bytes) (plan : FilePatchPlan)
    → CanRewrite m fs
    → ((has_access ≡ false) × ((gs : FileMap) (q : Bytes) → m.remove_file gs q q ≡ none))
      ⊎ ((c : Bytes) × (fs p ≡ some c))
    → ((plan.exists ≡ true) × (fs p ≡ some plan.original)) ⊎ ((plan.exists ≡ false) × (fs p ≡ none))
    → Restorable m has_access fs (record { path = p; plan = plan })
job-Restorable m has_access fs p plan can removal (inl kept) =
    rewritable kept.0 kept.1 (λ gs. can.rewrite p plan.original gs kept.1)
job-Restorable m has_access fs p plan can (inl (no_access, remove)) (inr created) =
    removable created.0 no_access created.1 (λ gs. remove gs p)
job-Restorable m has_access fs p plan can (inr (c, held)) (inr created) =
    absurd (ground (arith, held, created))

CanRemove-head :
    (m : FileMutator) (has_access : Bool) (fs : FileMap) (f : PatchFile) (files : List PatchFile)
    → CanRemove m has_access fs (f ∷ files)
    → ((has_access ≡ false) × ((gs : FileMap) (q : Bytes) → m.remove_file gs q q ≡ none))
      ⊎ ((c : Bytes) × (fs f.path ≡ some c))
CanRemove-head m has_access fs f files (inl h) = inl h
CanRemove-head m has_access fs f files (inr h) = inr h.0

CanRemove-tail :
    (m : FileMutator) (has_access : Bool) (fs : FileMap) (f : PatchFile) (files : List PatchFile)
    → CanRemove m has_access fs (f ∷ files)
    → CanRemove m has_access fs files
CanRemove-tail m has_access fs f files (inl h) = inl h
CanRemove-tail m has_access fs f files (inr h) = inr h.1

plan_jobs-Restorable :
    (m : FileMutator) (has_access : Bool) (fs : FileMap) (files : List PatchFile) (jobs : List Job)
    → CanRewrite m fs
    → CanRemove m has_access fs files
    → plan_jobs m fs files ≡ ok jobs
    → All (Restorable m has_access fs) jobs
unfolding plan_jobs
plan_jobs-Restorable m has_access fs [] jobs can removal h =
    let e : [] ≡ jobs = ground (arith, h) in subst (All (Restorable m has_access fs)) e (record {})
plan_jobs-Restorable m has_access fs (f ∷ files) jobs can removal h =
    elim (Applied-cases (plan_file_patches (read_file m fs f.path) f.hunks)) [
      | inl (x, e) ↦ absurd (ground (arith, h, e))
      | inr (p, e) ↦ elim (Applied-cases (plan_jobs m fs files)) [
        | inl (x, e') ↦ absurd (ground (arith, h, e, e'))
        | inr (js, e') ↦
            let same : (record { path = f.path; plan = p } ∷ js) ≡ jobs =
              ground (arith, h, e, e') in
            let first =
              job-Restorable m has_access fs f.path p can
                (CanRemove-head m has_access fs f files removal)
                (plan-original m fs f.path f.hunks p e) in
            let others =
              plan_jobs-Restorable m has_access fs files js can
                (CanRemove-tail m has_access fs f files removal) e' in
            subst (All (Restorable m has_access fs)) same (first, others)
      ]
    ]

-- A patch that fails changes no file: not when it names no file or the same file twice, not when a
-- hunk of any of its files does not apply, and not when writing, reading back or recording one of
-- them fails, whatever was written before. The mutator changes only the file that it is asked to, a
-- write of the bytes that a file held before succeeds, and the patch creates no file, or there is no
-- access layer and files can be removed.
pub execute_patch-atomic :
    (m : FileMutator) (has_access : Bool) (fs : FileMap) (files : List PatchFile) (x : ExecuteError)
    (q : Bytes)
    → IsLocal m
    → CanRewrite m fs
    → CanRemove m has_access fs files
    → (execute_patch m has_access fs files).1 ≡ some x
    → (execute_patch m has_access fs files).0 q ≡ fs q
unfolding execute_patch
execute_patch-atomic m has_access fs [] x q local can removal h = refl
execute_patch-atomic m has_access fs (f ∷ files) x q local can removal h =
    elim (Bool-cases (has_duplicate (f ∷ files))) [
      | inl d ↦ ground (arith, d)
      | inr d ↦ elim (Applied-cases (plan_jobs m fs (f ∷ files))) [
        | inl (y, e) ↦ ground (arith, d, e)
        | inr (jobs, e) ↦
            let restorable = plan_jobs-Restorable m has_access fs (f ∷ files) jobs can removal e in
            let failed : (apply_jobs m has_access fs [] jobs).1 ≡ true = ground (arith, d, e, h) in
            let kept = apply_jobs-atomic m has_access fs jobs q local restorable failed in
            ground (arith, d, e, kept)
      ]
    ]
