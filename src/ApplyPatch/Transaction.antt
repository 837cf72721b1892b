-- ===== src/ApplyPatch/Transaction.antt =====
-- Execute, writeFilePatch and rollback of internal/tool/builtin/apply_patch.go, once every file has a
-- plan. The mutator, the removal of a file and the ledger of reads are interfaces: a record of
-- functions of the files.
use coagent.Base.{
  ◌≡◌, refl, sym, ap, ◌∙◌, Bool, true, false, not, ◌||◌, List, [], ◌∷◌, Option, some, none,
  if◌then◌else◌, Bytes, bytes_eq, bytes_eq_sound, arith, Bool-cases, inl, inr, ◌⊎◌, All, any,
}
use coagent.ApplyPatch.Files.{FilePatchPlan}

-- The content of the file at a path.
abbrev pub FileMap : Type 0
FileMap = Bytes → Option Bytes

-- `write_file` gives the files after the write, and whether it failed; `record_read` whether the
-- ledger failed; the other two which paths are no regular file or cannot be read.
pub record FileMutator : Type 0 where
  pub write_file : FileMap → Bytes → Bytes → FileMap × Bool
  pub remove_file : FileMap → Bytes → FileMap
  pub record_read : FileMap → Bytes → Bool
  pub is_irregular : Bytes → Bool
  pub is_unreadable : Bytes → Bool

pub record Job : Type 0 where
  pub path : Bytes
  pub plan : FilePatchPlan

unfoldable pub write_file_patch : FileMutator → FileMap → Job → FileMap × Bool
write_file_patch m fs j =
    let wrote = m.write_file fs j.path j.plan.content in
    if wrote.1 then wrote else (
      wrote.0,
      elim (wrote.0 j.path) [ none ↦ true | some written ↦ not (bytes_eq written j.plan.content) ],
    )

unfoldable pub undo : FileMutator → Bool → FileMap → Job → FileMap
undo m has_access fs j =
    if j.plan.exists
    then (m.write_file fs j.path j.plan.original).0
    else if has_access
    then fs
    else m.remove_file fs j.path

-- The jobs to undo, the last one first.
unfoldable pub rollback : FileMutator → Bool → FileMap → List Job → FileMap
rollback m has_access fs [] = fs
rollback m has_access fs (j ∷ js) = rollback m has_access (undo m has_access fs j) js

-- The writing loop of `Execute`, behind the jobs that are done; the flag says that it failed.
unfoldable pub apply_jobs : FileMutator → Bool → FileMap → List Job → List Job → FileMap × Bool
unfolding write_file_patch rollback
apply_jobs m has_access fs finished [] = (fs, false)
apply_jobs m has_access fs finished (j ∷ js) =
    let wrote = write_file_patch m fs j in
    let rest = apply_jobs m has_access wrote.0 (j ∷ finished) js in
    if wrote.1 || m.record_read wrote.0 j.path
    then (rollback m has_access wrote.0 (j ∷ finished), true)
    else rest

-- A mutator changes the file at the path that it is given, and no other.
pub record IsLocal (m : FileMutator) : Type 0 where
  pub write_local :
      (fs : FileMap) (p c q : Bytes) → (bytes_eq p q ≡ true) ⊎ ((m.write_file fs p c).0 q ≡ fs q)
  pub remove_local :
      (fs : FileMap) (p q : Bytes) → (bytes_eq p q ≡ true) ⊎ (m.remove_file fs p q ≡ fs q)

-- Undoing the job puts its file back, whatever the files are then.
abbrev pub CanUndo : FileMutator → Bool → FileMap → Job → Type 0
CanUndo m has_access fs0 j = (fs : FileMap) → undo m has_access fs j j.path ≡ fs0 j.path

-- The file is as it was, or one of the jobs is about it.
abbrev IsTracked : FileMap → FileMap → List Job → Bytes → Type 0
IsTracked fs0 fs js q = (fs q ≡ fs0 q) ⊎ (any (λ j. bytes_eq j.path q) js ≡ true)

module _ (m : FileMutator) (local : IsLocal m) (has_access : Bool) (fs0 : FileMap) where
  undo-IsTracked :
      (fs : FileMap) (j : Job) (js : List Job) (q : Bytes)
      → CanUndo m has_access fs0 j
      → IsTracked fs0 fs (j ∷ js) q
      → IsTracked fs0 (undo m has_access fs j) js q
  unfolding undo
  undo-IsTracked fs j js q can h = elim (Bool-cases (bytes_eq j.path q)) [
    | inl e ↦
        let here = bytes_eq_sound j.path q e in
        inl (ap (undo m has_access fs j) (sym here) ∙ can fs ∙ ap fs0 here)
    | inr e ↦
        ground (
          arith,
          e,
          h,
          local.write_local fs j.path j.plan.original q,
          local.remove_local fs j.path q,
        )
  ]

  rollback-restores :
      (fs : FileMap) (js : List Job) (q : Bytes)
      → All (CanUndo m has_access fs0) js
      → IsTracked fs0 fs js q
      → rollback m has_access fs js q ≡ fs0 q
  unfolding rollback
  rollback-restores fs [] q can h = ground (arith, h)
  rollback-restores fs (j ∷ js) q can h =
      rollback-restores (undo m has_access fs j) js q can.1 (undo-IsTracked fs j js q can.0 h)

  write_file_patch-IsTracked :
      (fs : FileMap) (j : Job) (js : List Job) (q : Bytes)
      → IsTracked fs0 fs js q
      → IsTracked fs0 (write_file_patch m fs j).0 (j ∷ js) q
  unfolding write_file_patch
  write_file_patch-IsTracked fs j js q h =
      ground (arith, h, local.write_local fs j.path j.plan.content q)

  apply_jobs-restores :
      (fs : FileMap) (finished js : List Job) (q : Bytes)
      → All (CanUndo m has_access fs0) finished
      → All (CanUndo m has_access fs0) js
      → IsTracked fs0 fs finished q
      → (apply_jobs m has_access fs finished js).1 ≡ true
      → (apply_jobs m has_access fs finished js).0 q ≡ fs0 q
  unfolding apply_jobs
  apply_jobs-restores fs finished [] q can_finished can h failed = ground (arith, failed)
  apply_jobs-restores fs finished (j ∷ js) q can_finished can h failed =
      let wrote = write_file_patch m fs j in
      let tracked = write_file_patch-IsTracked fs j finished q h in
      elim (Bool-cases (wrote.1 || m.record_read wrote.0 j.path)) [
        | inl e ↦
            rw (e, apply_jobs)
              (rollback-restores wrote.0 (j ∷ finished) q (can.0, can_finished) tracked)
        | inr e ↦
            rw (e, apply_jobs)
              (apply_jobs-restores wrote.0 (j ∷ finished) js q (can.0, can_finished) can.1 tracked
                (ground (arith, failed, e)))
      ]

-- The plan holds what the file was, and the mutator can give it that again: a file that existed by a
-- write of its bytes, which succeeds; a file that did not exist, without an access layer, by its
-- removal.
pub data Restorable (m : FileMutator) (has_access : Bool) (fs0 : FileMap) (j : Job) : Type 0 where
  rewritable :
      j.plan.exists ≡ true
      → fs0 j.path ≡ some j.plan.original
      → ((fs : FileMap) → (m.write_file fs j.path j.plan.original).0 j.path ≡ some j.plan.original)
      → Restorable m has_access fs0 j
  removable :
      j.plan.exists ≡ false
      → has_access ≡ false
      → fs0 j.path ≡ none
      → ((fs : FileMap) → m.remove_file fs j.path j.path ≡ none)
      → Restorable m has_access fs0 j

Restorable-CanUndo :
    (m : FileMutator) (has_access : Bool) (fs0 : FileMap) (j : Job)
    → Restorable m has_access fs0 j
    → CanUndo m has_access fs0 j
unfolding undo
Restorable-CanUndo m has_access fs0 j (rewritable e was write) fs = ground (arith, e, was, write fs)
Restorable-CanUndo m has_access fs0 j (removable e no_access was remove) fs =
    ground (arith, e, no_access, was, remove fs)

All-CanUndo :
    (m : FileMutator) (has_access : Bool) (fs0 : FileMap) (js : List Job)
    → All (Restorable m has_access fs0) js
    → All (CanUndo m has_access fs0) js
All-CanUndo m has_access fs0 [] h = record {}
All-CanUndo m has_access fs0 (j ∷ js) h =
    (Restorable-CanUndo m has_access fs0 j h.0, All-CanUndo m has_access fs0 js h.1)

-- When writing the planned files fails, at whichever file and whether at its write, at reading it
-- back or at recording the read, every file is afterwards what it was before the patch. The mutator
-- changes only the file that it is asked to, and each job is restorable: its plan holds what the
-- file was, a file that existed can be written again with its bytes, and a file that did not exist
-- is removable, for which there must be no access layer.
pub apply_jobs-atomic :
    (m : FileMutator) (has_access : Bool) (fs : FileMap) (js : List Job) (q : Bytes)
    → IsLocal m
    → All (Restorable m has_access fs) js
    → (apply_jobs m has_access fs [] js).1 ≡ true
    → (apply_jobs m has_access fs [] js).0 q ≡ fs q
apply_jobs-atomic m has_access fs js q local restorable failed =
    apply_jobs-restores m local has_access fs fs [] js q (record {})
      (All-CanUndo m has_access fs js restorable) (inl refl) failed
