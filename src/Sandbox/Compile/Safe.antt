-- ===== src/Sandbox/Compile/Safe.antt =====
-- Compile of internal/sandboxpolicy/compile.go: what a policy that compiles guarantees.
use coagent.Base.{
  ◌≡◌, refl, sym, ap, ◌∙◌, subst, true, false, ◌&&◌, List, [], ◌∷◌, ◌++◌, some, inl, inr, Bytes,
  arith, Bool-cases, Option-cases, All-append, bind_some,
}
use coagent.Sandbox.{
  Entry, has_prefix, is_abs, path_within, decide, allows_read, allows_write, is_allow,
  is_read_write, effective_entries,
}
use coagent.Sandbox.Effective.{
  AreProper, entry_of, last_of, decide-last_of, effective_entries-last_of,
}
use coagent.Sandbox.Compile.{
  Host, Request, Policy, compile, finish_policy, output_entries, ordered_entries,
  resolve_existing_dir, resolve_rule_group, resolve_rule, project_default_entries,
  process_output_entry, rule_action_path, resolve_anchor, entry_at, validate_mounts, validate_from,
  is_mountable, require_project_writable, is_blank,
}
use coagent.Sandbox.Compile.Proper.{
  HostLaws, IsProper, resolve_rule_group-AreProper, resolve_existing_dir-IsProper,
  project_default_entries-AreProper, process_output_entry-IsProper,
}

-- The parts that a compiled policy was put together from.
record Parts (host : Host) (req : Request) (policy : Policy) : Type 0 where
  project_root : Bytes
  work_dir : Bytes
  global : List Entry
  defaults : List Entry
  project : List Entry
  output : List Entry
  at_root : resolve_existing_dir host req.project_root ≡ some project_root
  at_work : resolve_existing_dir host req.work_dir ≡ some work_dir
  from_global : resolve_rule_group host req.global_rules ≡ some global
  from_defaults :
      project_default_entries host project_root work_dir req.worktree_git_dir ≡ some defaults
  from_project : resolve_rule_group host req.project_rules ≡ some project
  from_output : output_entries host req.process_output_root ≡ some output
  finishes :
      finish_policy host project_root work_dir (ordered_entries global defaults project) output
      ≡ some policy

compile-Parts :
    (host : Host) (req : Request) (policy : Policy)
    → compile host req ≡ some policy
    → Parts host req policy
unfolding compile
compile-Parts host req policy h =
    let root = bind_some (resolve_existing_dir host req.project_root) _ policy h in
    let work = bind_some (resolve_existing_dir host req.work_dir) _ policy root.2 in
    let global = bind_some (resolve_rule_group host req.global_rules) _ policy work.2 in
    let defaults =
      bind_some (project_default_entries host root.0 work.0 req.worktree_git_dir) _ policy
        global.2 in
    let project = bind_some (resolve_rule_group host req.project_rules) _ policy defaults.2 in
    let output = bind_some (output_entries host req.process_output_root) _ policy project.2 in
    record {
      project_root = root.0;
      work_dir = work.0;
      global = global.0;
      defaults = defaults.0;
      project = project.0;
      output = output.0;
      at_root = root.1;
      at_work = work.1;
      from_global = global.1;
      from_defaults = defaults.1;
      from_project = project.1;
      from_output = output.1;
      finishes = output.2;
    }

output_entries-AreProper :
    (host : Host) (laws : HostLaws host) (p : Bytes) (es : List Entry)
    → output_entries host p ≡ some es
    → AreProper host.clean es
unfolding output_entries
output_entries-AreProper host laws p es h = elim (Bool-cases (is_blank p)) [
  | inl b ↦ let same : [] ≡ es = ground (arith, h, b) in subst (AreProper host.clean) same tt
  | inr b ↦ elim (Option-cases (process_output_entry host p)) [
    | inl n ↦ absurd (ground (arith, h, b, n))
    | inr (e, n) ↦
        let same : e ∷ [] ≡ es = ground (arith, h, b, n) in
        subst (AreProper host.clean) same (process_output_entry-IsProper host laws p e n, tt)
  ]
]

-- The entries that a compilation puts together are absolute and cleaned.
Parts-AreProper :
    (host : Host) (laws : HostLaws host) (req : Request) (policy : Policy)
    (parts : Parts host req policy)
    → AreProper host.clean
        (ordered_entries parts.global parts.defaults parts.project ++ parts.output)
unfolding has_prefix
Parts-AreProper host laws req policy parts =
    let P : Entry → Type 0 = λ e. IsProper host e.path in
    let at_root =
      resolve_existing_dir-IsProper host laws req.project_root parts.project_root parts.at_root in
    let at_work =
      resolve_existing_dir-IsProper host laws req.work_dir parts.work_dir parts.at_work in
    let defaults =
      project_default_entries-AreProper host laws parts.project_root parts.work_dir
        req.worktree_git_dir parts.defaults at_root at_work parts.from_defaults in
    let global =
      resolve_rule_group-AreProper host laws req.global_rules parts.global parts.from_global in
    let project =
      resolve_rule_group-AreProper host laws req.project_rules parts.project parts.from_project in
    let output =
      output_entries-AreProper host laws req.process_output_root parts.output parts.from_output in
    let rest =
      All-append P parts.global (parts.defaults ++ parts.project) global
        (All-append P parts.defaults parts.project defaults project) in
    (
      (laws.clean_root, refl),
      All-append P (parts.global ++ (parts.defaults ++ parts.project)) parts.output rest output,
    )

finish_policy-entries :
    (host : Host) (root work : Bytes) (entries output : List Entry) (policy : Policy)
    → finish_policy host root work entries output ≡ some policy
    → (policy.entries ≡ entries ++ output)
      × ((require_project_writable host.clean entries root ≡ true)
          × (validate_mounts host.clean policy.entries ≡ true))
unfolding finish_policy
finish_policy-entries host root work entries output policy h =
    let whole : policy.entries ≡ entries ++ output = ground (arith, h) in
    (whole, (ground (arith, h), ap (validate_mounts host.clean) whole ∙ ground (arith, h)))

-- The entry that decides among mountable ones is there if it denies.
last_of-validate_from :
    (clean : Bytes → Bytes) (path : Bytes) (before es : List Entry) (e : Entry)
    → validate_from clean before es ≡ true
    → last_of path es ≡ some e
    → is_allow e ≡ false
    → e.present ≡ true
unfolding validate_from is_mountable last_of
last_of-validate_from clean path before [] e valid h denies = absurd (ground (arith, h))
last_of-validate_from clean path before (d ∷ es) e valid h denies =
    elim (Option-cases (last_of path es)) [
      | inl n ↦ ground (arith, n, valid, h, denies)
      | inr (w, n) ↦
          let same : w ≡ e = ground (arith, n, h) in
          last_of-validate_from clean path (before ++ d ∷ []) es e (ground (arith, valid))
            (n ∙ ap some same) denies
    ]

last_of_snoc :
    (path : Bytes) (es : List Entry) (e : Entry)
    → path_within e.path path ≡ true
    → last_of path (es ++ e ∷ []) ≡ some e
unfolding last_of
last_of_snoc path [] e h = ground (arith, h)
last_of_snoc path (d ∷ es) e h = ground (arith, last_of_snoc path es e h)

-- The process output is a read-only grant of a directory that is there.
process_output_entry_grants :
    (host : Host) (p : Bytes) (e : Entry)
    → process_output_entry host p ≡ some e
    → (is_allow e ≡ true) × (is_read_write e ≡ false)
unfolding process_output_entry resolve_rule rule_action_path resolve_anchor entry_at
process_output_entry_grants host p e h = (ground (arith, h), ground (arith, h))

decide-allows :
    (clean : Bytes → Bytes) (es : List Entry) (path : Bytes) (e : Entry)
    → entry_of (decide clean es path) ≡ some e
    → (allows_read clean es path ≡ is_allow e)
      × (allows_write clean es path ≡ is_allow e && is_read_write e)
unfolding allows_read allows_write
decide-allows clean es path e h = (ground (arith, h), ground (arith, h))

-- What a compiled policy guarantees. `denials`: an entry that denies a path names an object that is
-- there. `outputs`: what lies within the process output can be read and not written.
pub record Guards (host : Host) (req : Request) (policy : Policy) : Type 0 where
  pub proper : AreProper host.clean policy.entries
  pub denials :
      (path : Bytes) (e : Entry)
      → is_abs path ≡ true
      → entry_of (decide host.clean policy.entries path) ≡ some e
      → is_allow e ≡ false
      → e.present ≡ true
  pub outputs :
      (o : Entry) (path : Bytes)
      → is_blank req.process_output_root ≡ false
      → process_output_entry host req.process_output_root ≡ some o
      → is_abs path ≡ true
      → path_within o.path (host.clean path) ≡ true
      → (allows_read host.clean policy.entries path ≡ true)
        × (allows_write host.clean policy.entries path ≡ false)

validate_mounts-denials :
    (host : Host) (laws : HostLaws host) (es : List Entry)
    → AreProper host.clean es
    → validate_mounts host.clean es ≡ true
    → (path : Bytes) (e : Entry) → is_abs path ≡ true
    → entry_of (decide host.clean es path) ≡ some e
    → is_allow e ≡ false
    → e.present ≡ true
unfolding validate_mounts
validate_mounts-denials host laws es proper valid path e abs decides denies =
    let q = host.clean path in
    last_of-validate_from host.clean q [] (effective_entries host.clean es) e valid
      (effective_entries-last_of host.clean es q proper (laws.clean_abs path abs)
        ∙ sym (decide-last_of host.clean es path abs)
        ∙ decides)
      denies

output_entries-output :
    (host : Host) (p : Bytes) (es : List Entry) (o : Entry)
    → is_blank p ≡ false
    → process_output_entry host p ≡ some o
    → output_entries host p ≡ some es
    → es ≡ o ∷ []
unfolding output_entries
output_entries-output host p es o named found h = ground (arith, named, found, h)

-- Whatever the rules of the operator, a policy that compiles has absolute, cleaned paths, denies a
-- path only by an entry whose object is there, so that it can be mounted, and keeps the daemon's
-- process output readable and not writable. The path library and the operating system do what
-- they document.
pub compile-Guards :
    (host : Host) (req : Request) (policy : Policy)
    → HostLaws host
    → compile host req ≡ some policy
    → Guards host req policy
compile-Guards host req policy laws h =
    let parts = compile-Parts host req policy h in
    let entries = ordered_entries parts.global parts.defaults parts.project in
    let finished =
      finish_policy-entries host parts.project_root parts.work_dir entries parts.output policy
        parts.finishes in
    let proper =
      subst (AreProper host.clean) (sym finished.0) (Parts-AreProper host laws req policy parts) in
    record {
      proper = proper;
      denials = validate_mounts-denials host laws policy.entries proper finished.1.1;
      outputs = λ o path named found abs within.
          let last =
            output_entries-output host req.process_output_root parts.output o named found
              parts.from_output in
          let decides =
            decide-last_of host.clean policy.entries path abs
            ∙ ap (last_of (host.clean path)) (finished.0 ∙ ap (λ es. entries ++ es) last)
            ∙ last_of_snoc (host.clean path) entries o within in
          let allows = decide-allows host.clean policy.entries path o decides in
          let grants = process_output_entry_grants host req.process_output_root o found in
          (ground (arith, allows, grants), ground (arith, allows, grants));
    }
