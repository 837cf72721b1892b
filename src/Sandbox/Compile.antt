-- ===== src/Sandbox/Compile.antt =====
-- internal/sandboxpolicy/compile.go, paths.go and validate.go: a session's policy from the rules of the
-- configuration. What the operating system and the path library answer is a record of functions; an
-- error is none.
pub mod Proper
pub mod Safe
pub mod Sections
mod Tests
use coagent.Base.{
  ℕ, zero, suc, ◌+◌, Bool, true, false, not, ◌&&◌, ◌||◌, List, [], ◌∷◌, ◌++◌, Option, none, some,
  ◌==◌, length, if◌then◌else◌, Bytes, bytes_eq, ◌>>=◌,
}
use coagent.Sandbox.{
  Entry, Mode, Action, ObjectKind, read_only, read_write, allow, deny, dir, file, socket, separator,
  has_prefix, is_abs, decide, is_allow, is_read_write, effective_entries,
}

-- What `os.Lstat` finds at a path: an object that can be mounted, nothing, or an error or another object.
pub data Probe : Type 0 where
  object : ObjectKind → Probe
  missing refused : Probe

-- What `filepath.EvalSymlinks` answers.
pub data Resolution : Type 0 where
  resolved : Bytes → Resolution
  absent broken : Resolution

pub record Host : Type 0 where
  pub clean : Bytes → Bytes
  pub join : Bytes → Bytes → Bytes
  pub dir_of : Bytes → Bytes
  pub base_of : Bytes → Bytes
  pub user_home : Option Bytes
  pub eval_symlinks : Bytes → Resolution
  pub lstat : Bytes → Probe
  pub is_dir : Bytes → Bool

-- A mode that is not given is none, and one that the source rejects is unknown.
pub data RuleMode : Type 0 where
  given : Mode → RuleMode
  unset unknown : RuleMode

pub record Rule : Type 0 where
  pub allow_path : Bytes
  pub deny_path : Bytes
  pub mode : RuleMode

abbrev pub is_blank : Bytes → Bool
is_blank [] = true
is_blank (x ∷ xs) = false

-- The bytes of "~" and "..".
abbrev tilde : ℕ
tilde = 126

abbrev dot_dot : Bytes
dot_dot = 46 ∷ 46 ∷ []

-- Whether a component of the path, `part` and the rest, is "..".
pub has_dot_dot : Bytes → Bytes → Bool
has_dot_dot part [] = bytes_eq part dot_dot
has_dot_dot part (x ∷ xs) =
    let ends = has_dot_dot [] xs in
    let goes_on = has_dot_dot (part ++ x ∷ []) xs in
    if x == separator then bytes_eq part dot_dot || ends else goes_on

pub expand_path : Host → Bytes → Option Bytes
expand_path host [] = none
expand_path host (x ∷ []) = if x == tilde then host.user_home else some (x ∷ [])
expand_path host (x ∷ y ∷ rest) =
    if not (x == tilde)
    then some (x ∷ y ∷ rest)
    else if not (y == separator)
    then none
    else elim host.user_home [ none ↦ none | some home ↦ some (host.join home rest) ]

pub join_all : Host → Bytes → List Bytes → Bytes
join_all host path [] = path
join_all host path (part ∷ parts) = join_all host (host.join path part) parts

-- The loop of `canonicalAnchor`, of at most `fuel` rounds, with the last missing part in front.
pub canonical_from : Host → ℕ → Bytes → List Bytes → Option Bytes
unfolding join_all
canonical_from host zero probe parts = none
canonical_from host (suc fuel) probe parts =
    let rest = canonical_from host fuel (host.dir_of probe) (host.base_of probe ∷ parts) in
    elim (host.eval_symlinks probe) [
      | resolved path ↦ some (host.clean (join_all host path parts))
      | broken ↦ none
      | absent ↦ if bytes_eq probe (separator ∷ []) then none else rest
    ]

-- Each round takes a part off the path, so that its length is enough.
pub canonical_anchor : Host → Bytes → Option Bytes
canonical_anchor host anchor = canonical_from host (length anchor + 1) anchor []

pub normalize_anchor : Host → Bytes → Option Bytes
unfolding has_dot_dot expand_path canonical_anchor
normalize_anchor host path = if has_dot_dot [] path then none else elim (expand_path host path) [
  | none ↦ none
  | some expanded ↦ if is_abs expanded then canonical_anchor host (host.clean expanded) else none
]

pub normalize_root_anchor : Host → Bytes → Option Bytes
unfolding normalize_anchor
normalize_root_anchor host path = elim (normalize_anchor host path) [
  | none ↦ none
  | some anchor ↦ if bytes_eq anchor (separator ∷ []) then none else some anchor
]

pub rule_action_path : Rule → Option (Action × Bytes)
rule_action_path rule =
    if not (is_blank rule.allow_path) && not (is_blank rule.deny_path)
    then none
    else if not (is_blank rule.allow_path)
    then some (allow, rule.allow_path)
    else if not (is_blank rule.deny_path)
    then some (deny, rule.deny_path)
    else none

-- `validateRulePath`; a path under "~/" is absolute under its placeholder.
pub is_valid_path : Bytes → Bool
unfolding has_dot_dot
is_valid_path [] = false
is_valid_path (x ∷ []) = x == tilde || x == separator
is_valid_path (x ∷ y ∷ rest) =
    (if x == tilde then y == separator else x == separator) && not (has_dot_dot [] (x ∷ y ∷ rest))

abbrev is_valid_mode : Action → RuleMode → Bool
is_valid_mode deny unset = true
is_valid_mode deny _ = false
is_valid_mode allow unknown = false
is_valid_mode allow _ = true

pub validate_rule : Rule → Bool
unfolding rule_action_path is_valid_path
validate_rule rule = elim (rule_action_path rule) [
  | none ↦ false
  | some (action, path) ↦ is_valid_mode action rule.mode && is_valid_path path
]

abbrev mode_for : Action → RuleMode → Mode
mode_for allow (given read_write) = read_write
mode_for _ _ = read_only

-- The entry at an anchor; an object that is absent counts as a directory.
pub entry_at : Host → Action → Mode → Bytes → Option Entry
entry_at host action mode anchor = elim (host.lstat anchor) [
  | refused ↦ none
  | missing ↦
      some (record { path = anchor; action = action; mode = mode; kind = dir; present = false })
  | object kind ↦
      some (record { path = anchor; action = action; mode = mode; kind = kind; present = true })
]

-- `Refresh`: the object at the path as it is now, under the same authority.
pub refresh : Host → Entry → Option Entry
refresh host e = elim (host.lstat e.path) [
  | refused ↦ none
  | missing ↦ some (record e { present = false })
  | object kind ↦ some (record e { kind = kind; present = true })
]

pub resolve_anchor : Host → RuleMode → Action → Bytes → Option Entry
unfolding normalize_anchor entry_at
resolve_anchor host mode action path = elim (normalize_anchor host path) [
  | none ↦ none
  | some anchor ↦ entry_at host action (mode_for action mode) anchor
]

pub resolve_rule : Host → Rule → Option Entry
unfolding validate_rule rule_action_path resolve_anchor
resolve_rule host rule =
    if validate_rule rule
    then elim (rule_action_path rule) [
      | none ↦ none
      | some (action, path) ↦ resolve_anchor host rule.mode action path
    ]
    else none

pub resolve_rule_group : Host → List Rule → Option (List Entry)
unfolding resolve_rule
resolve_rule_group host [] = some []
resolve_rule_group host (r ∷ rs) = elim (resolve_rule host r) [
  | none ↦ none
  | some e ↦ elim (resolve_rule_group host rs) [ none ↦ none | some es ↦ some (e ∷ es) ]
]

-- `resolveExistingDir`.
pub resolve_existing_dir : Host → Bytes → Option Bytes
unfolding normalize_root_anchor
resolve_existing_dir host path = elim (normalize_root_anchor host path) [
  | none ↦ none
  | some anchor ↦ elim (host.eval_symlinks anchor) [
    | resolved r ↦ if host.is_dir r then some (host.clean r) else none
    | absent ↦ none
    | broken ↦ none
  ]
]

abbrev is_dir_kind : ObjectKind → Bool
is_dir_kind dir = true
is_dir_kind _ = false

abbrev grant : Mode → Bytes → Entry
grant mode path = record { path = path; action = allow; mode = mode; kind = dir; present = true }

-- `processOutputEntry`.
pub process_output_entry : Host → Bytes → Option Entry
unfolding normalize_root_anchor resolve_rule
process_output_entry host path = elim (normalize_root_anchor host path) [
  | none ↦ none
  | some anchor ↦
      elim (resolve_rule host
        (record { allow_path = anchor; deny_path = []; mode = given read_only })) [
          | none ↦ none
          | some e ↦ if e.present && is_dir_kind e.kind then some e else none
        ]
]

-- `resolveWorktreeGitDir`; the metadata of Git counts as a directory also where it is absent.
pub resolve_worktree_git_dir : Host → Bytes → Option Entry
unfolding normalize_root_anchor
resolve_worktree_git_dir host path = elim (normalize_root_anchor host path) [
  | none ↦ none
  | some anchor ↦ elim (host.lstat anchor) [
    | refused ↦ none
    | missing ↦ some (record (grant read_write anchor) { present = false })
    | object kind ↦ if is_dir_kind kind then some (grant read_write anchor) else none
  ]
]

pub project_default_entries : Host → Bytes → Bytes → Bytes → Option (List Entry)
unfolding resolve_worktree_git_dir
project_default_entries host project_root work_dir worktree_git_dir =
    let entries =
      if bytes_eq work_dir project_root
      then grant read_write project_root ∷ []
      else grant read_write project_root ∷ grant read_write work_dir ∷ [] in
    if is_blank worktree_git_dir
    then some entries
    else elim (resolve_worktree_git_dir host worktree_git_dir) [
      | none ↦ none
      | some git ↦ some (entries ++ git ∷ [])
    ]

-- `requireProjectWritable`; the first entry matches every path, so that there is a winner.
pub require_project_writable : (Bytes → Bytes) → List Entry → Bytes → Bool
require_project_writable clean entries project_root = elim (decide clean entries project_root) [
  | none ↦ false
  | some (i, e) ↦ (is_allow e && is_read_write e) || bytes_eq e.path project_root
]

-- The check of an entry of `ValidateMounts`, behind the entries before it.
pub is_mountable : (Bytes → Bytes) → List Entry → Entry → Bool
is_mountable clean before e =
    let weakens : Bool = elim (decide clean before e.path) [
      | none ↦ false
      | some (i, w) ↦ not (is_read_write e) && (is_allow w && is_read_write w)
    ] in
    e.present || (is_allow e && not weakens)

pub validate_from : (Bytes → Bytes) → List Entry → List Entry → Bool
unfolding is_mountable
validate_from clean before [] = true
validate_from clean before (e ∷ es) =
    is_mountable clean before e && validate_from clean (before ++ e ∷ []) es

pub validate_mounts : (Bytes → Bytes) → List Entry → Bool
unfolding validate_from
validate_mounts clean entries = validate_from clean [] (effective_entries clean entries)

pub record Request : Type 0 where
  pub project_root : Bytes
  pub work_dir : Bytes
  pub global_rules : List Rule
  pub project_rules : List Rule
  pub process_output_root : Bytes
  pub worktree_git_dir : Bytes

pub record Policy : Type 0 where
  pub project_root : Bytes
  pub work_dir : Bytes
  pub entries : List Entry

-- The entries of the daemon's process output, behind all others.
pub output_entries : Host → Bytes → Option (List Entry)
unfolding process_output_entry
output_entries host path =
    if is_blank path
    then some []
    else elim (process_output_entry host path) [ none ↦ none | some e ↦ some (e ∷ []) ]

abbrev pub ordered_entries : List Entry → List Entry → List Entry → List Entry
ordered_entries global defaults project =
    grant read_only (separator ∷ []) ∷ (global ++ (defaults ++ project))

-- The end of `Compile`.
pub finish_policy : Host → Bytes → Bytes → List Entry → List Entry → Option Policy
unfolding require_project_writable validate_mounts
finish_policy host project_root work_dir entries output =
    if require_project_writable host.clean entries project_root
      && validate_mounts host.clean (entries ++ output)
    then some
        (record { project_root = project_root; work_dir = work_dir; entries = entries ++ output })
    else none

pub compile : Host → Request → Option Policy
unfolding finish_policy
compile host req = do
  project_root ← resolve_existing_dir host req.project_root
  work_dir ← resolve_existing_dir host req.work_dir
  global ← resolve_rule_group host req.global_rules
  defaults ← project_default_entries host project_root work_dir req.worktree_git_dir
  project ← resolve_rule_group host req.project_rules
  output ← output_entries host req.process_output_root
  finish_policy host project_root work_dir (ordered_entries global defaults project) output
