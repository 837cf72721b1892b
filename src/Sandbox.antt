-- ===== src/Sandbox.antt =====
-- internal/sandboxpolicy/decide.go, types.go and paths.go: the ordered authority of one session and
-- its decision on a path. A path is its bytes, and `clean` stands for filepath.Clean.
pub mod Effective
pub mod Compile
use coagent.Base.{
  ℕ, zero, suc, ◌+◌, Bool, true, false, not, ◌&&◌, ◌||◌, List, [], ◌∷◌, Option, none, some, ◌==◌,
  length, drop, if◌then◌else◌, Bytes, bytes_eq,
}

pub data Mode : Type 0 where
  read_only read_write : Mode

pub data Action : Type 0 where
  allow deny : Action

pub data ObjectKind : Type 0 where
  dir file socket : ObjectKind

pub record Entry : Type 0 where
  pub path : Bytes
  pub action : Action
  pub mode : Mode
  pub kind : ObjectKind
  pub present : Bool

-- The byte of `filepath.Separator`.
abbrev pub separator : ℕ
separator = 47

-- `strings.HasPrefix`, the text first.
pub has_prefix : Bytes → Bytes → Bool
has_prefix text [] = true
has_prefix [] (x ∷ xs) = false
has_prefix (y ∷ ys) (x ∷ xs) = x == y && has_prefix ys xs

-- `filepath.IsAbs`.
abbrev pub is_abs : Bytes → Bool
is_abs path = has_prefix path (separator ∷ [])

pub path_within : Bytes → Bytes → Bool
unfolding has_prefix
path_within root path =
    (bytes_eq root path || bytes_eq root (separator ∷ []))
    || (has_prefix path root && has_prefix (drop (length root) path) (separator ∷ []))

-- The loop of `decide`, at the entries from index `i` on; the winner so far by its index.
pub decide_from : ℕ → List Entry → Bytes → Option (ℕ × Entry) → Option (ℕ × Entry)
unfolding path_within
decide_from i [] path winner = winner
decide_from i (e ∷ es) path winner =
    decide_from (i + 1) es path (if path_within e.path path then some (i, e) else winner)

-- `decide`: the last entry that matches, and its index.
pub decide : (Bytes → Bytes) → List Entry → Bytes → Option (ℕ × Entry)
unfolding decide_from has_prefix
decide clean entries path = if is_abs path then decide_from 0 entries (clean path) none else none

abbrev pub is_allow : Entry → Bool
is_allow e = elim e.action [ allow ↦ true | deny ↦ false ]

abbrev pub is_read_write : Entry → Bool
is_read_write e = elim e.mode [ read_only ↦ false | read_write ↦ true ]

pub allows_read : (Bytes → Bytes) → List Entry → Bytes → Bool
unfolding decide
allows_read clean entries path = elim (decide clean entries path) [
  | none ↦ false
  | some (i, e) ↦ is_allow e
]

pub allows_write : (Bytes → Bytes) → List Entry → Bytes → Bool
unfolding decide
allows_write clean entries path = elim (decide clean entries path) [
  | none ↦ false
  | some (i, e) ↦ is_allow e && is_read_write e
]

abbrev is_winner : ℕ → Option (ℕ × Entry) → Bool
is_winner i none = false
is_winner i (some (j, e)) = j == i

-- The loop of `EffectiveEntries`, at the entries from index `i` on.
pub effective_from : (Bytes → Bytes) → List Entry → ℕ → List Entry → List Entry
unfolding decide
effective_from clean all i [] = []
effective_from clean all i (e ∷ es) =
    let rest = effective_from clean all (i + 1) es in
    if is_winner i (decide clean all e.path) then e ∷ rest else rest

pub effective_entries : (Bytes → Bytes) → List Entry → List Entry
unfolding effective_from
effective_entries clean entries = effective_from clean entries 0 entries

abbrev is_writable : Entry → Bool
is_writable e = is_allow e && is_read_write e

-- The loop of `WritableRoots`.
abbrev pub writable_paths : List Entry → List Bytes
writable_paths [] = []
writable_paths (e ∷ es) =
    let rest = writable_paths es in if is_writable e then e.path ∷ rest else rest

pub writable_roots : (Bytes → Bytes) → List Entry → List Bytes
unfolding effective_entries
writable_roots clean entries = writable_paths (effective_entries clean entries)
