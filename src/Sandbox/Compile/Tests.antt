-- ===== src/Sandbox/Compile/Tests.antt =====
-- A host whose objects are all directories, and a session of the project "/p", whose secrets "/p/s" a
-- rule denies, with its process output in "/o".
use coagent.Base.{
  ◌⊎◌, false, length, bytes_eq, ◌<◌, ◌≡◌, refl, arith, true, [], ◌∷◌, ◌++◌, none, some, Bytes,
}
use coagent.Sandbox.{
  dir, deny, read_only, read_write, separator, has_prefix, is_abs, path_within, decide_from, decide,
  allows_read, allows_write, effective_from, effective_entries,
}
use coagent.Sandbox.Effective.{AreProper, entry_of, decide-effective_entries}
use mathlib.Core.List.Permᴰ
use coagent.Sandbox.Compile.Sections.{
  Section, has_shared_root, select_project_rules, select_project_rules-perm,
}
use coagent.Sandbox.Compile.{
  Rule, Host, Request, Policy, resolved, object, unset, compile, finish_policy,
  require_project_writable, validate_mounts, validate_from, is_mountable, output_entries,
  process_output_entry, project_default_entries, resolve_existing_dir, resolve_rule_group,
  resolve_rule, resolve_anchor, entry_at, validate_rule, is_valid_path, rule_action_path,
  normalize_root_anchor, normalize_anchor, canonical_anchor, canonical_from, join_all, expand_path,
  has_dot_dot, grant,
}
use coagent.Sandbox.Compile.Proper.{HostLaws}
use coagent.Sandbox.Compile.Safe.{Guards, compile-Guards}

abbrev host : Host
host = record {
  clean = λ p. p;
  join = λ p q. p ++ separator ∷ q;
  dir_of = λ p. separator ∷ [];
  base_of = λ p. p;
  user_home = none;
  eval_symlinks = λ p. resolved p;
  lstat = λ p. object dir;
  is_dir = λ p. true;
}

has_prefix-append : (p q : Bytes) → is_abs p ≡ true → is_abs (p ++ q) ≡ true
unfolding has_prefix
has_prefix-append [] q h = absurd (ground (arith, h))
has_prefix-append (x ∷ p) q h = h

host-dir_shorter :
    (p : Bytes) → is_abs p ≡ true → bytes_eq p (separator ∷ []) ≡ false → 1 < length p
unfolding has_prefix
host-dir_shorter [] h other = absurd (ground (arith, h))
host-dir_shorter (x ∷ []) h other = absurd (ground (arith, h, other))
host-dir_shorter (x ∷ y ∷ p) h other = omega arith

host-HostLaws : HostLaws host
unfolding has_prefix
host-HostLaws = record {
  clean_clean = λ p. refl;
  clean_abs = λ p h. h;
  clean_root = refl;
  join_abs = λ p q h. has_prefix-append p (separator ∷ q) h;
  dir_abs = λ p h. refl;
  dir_shorter = host-dir_shorter;
  eval_abs = λ p r e h. ground (arith, e, h);
}

abbrev project : Bytes
project = 47 ∷ 112 ∷ []

abbrev secrets : Bytes
secrets = 47 ∷ 112 ∷ 47 ∷ 115 ∷ []

abbrev output : Bytes
output = 47 ∷ 111 ∷ []

abbrev request : Request
request = record {
  project_root = project;
  work_dir = project;
  global_rules = [];
  project_rules = record { allow_path = []; deny_path = secrets; mode = unset } ∷ [];
  process_output_root = output;
  worktree_git_dir = [];
}

abbrev policy : Policy
policy = record {
  project_root = project;
  work_dir = project;
  entries =
      grant read_only (separator ∷ [])
      ∷ grant read_write project
      ∷ record (grant read_only secrets) { action = deny }
      ∷ grant read_only output
      ∷ [];
}

request_compiled : compile host request ≡ some policy
unfolding compile finish_policy require_project_writable validate_mounts validate_from is_mountable
    output_entries process_output_entry project_default_entries resolve_existing_dir
    resolve_rule_group resolve_rule resolve_anchor entry_at validate_rule is_valid_path
    rule_action_path normalize_root_anchor normalize_anchor canonical_anchor canonical_from join_all
    expand_path has_dot_dot has_prefix path_within decide_from decide effective_from
    effective_entries
request_compiled = refl

policy-AreProper : AreProper host.clean policy.entries
policy-AreProper = (compile-Guards host request policy host-HostLaws request_compiled).proper

compile-Guards_example : Guards host request policy
compile-Guards_example = compile-Guards host request policy host-HostLaws request_compiled

decide-effective_entries_example :
    (entry_of (decide host.clean (effective_entries host.clean policy.entries) secrets)
      ≡ entry_of (decide host.clean policy.entries secrets))
    × ((allows_read host.clean (effective_entries host.clean policy.entries) secrets
          ≡ allows_read host.clean policy.entries secrets)
        × (allows_write host.clean (effective_entries host.clean policy.entries) secrets
            ≡ allows_write host.clean policy.entries secrets))
decide-effective_entries_example =
    decide-effective_entries host.clean policy.entries secrets policy-AreProper (λ q h. h)

abbrev deny_secrets : Rule
deny_secrets = record { allow_path = []; deny_path = secrets; mode = unset }

abbrev other_project : Bytes
other_project = 47 ∷ 113 ∷ []

abbrev two_projects : Section
two_projects = record {
  rules = [];
  projects = (project, deny_secrets ∷ []) ∷ (other_project, []) ∷ [];
}

abbrev two_projects_swapped : Section
two_projects_swapped = record {
  rules = [];
  projects = (other_project, []) ∷ (project, deny_secrets ∷ []) ∷ [];
}

select_project_rules-perm_example :
    (select_project_rules host two_projects project other_project
      ≡ select_project_rules host two_projects_swapped project other_project)
    × ((select_project_rules host two_projects project other_project ≡ none)
        ⊎ (has_shared_root host two_projects.projects ≡ false))
select_project_rules-perm_example =
    select_project_rules-perm host [] project other_project (Permᴰ.swap refl refl)
