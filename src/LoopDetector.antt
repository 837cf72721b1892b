-- ===== src/LoopDetector.antt =====
-- internal/session/loopdetect.go: the detector that stops a session which repeats itself.
-- A Go map used as a set is a list without repeats, and a slice is a list, oldest entry first.
-- Hashes are numbers: FNV is the library's, and the detector only compares its results. The
-- quotients of small integers are compared with 0.35 and 0.7 by cross-multiplication, which agrees
-- with float64 division here: a window holds at most 20 records, a union at most 40 keys, and a
-- quotient equal to a threshold rounds to the same double as the literal.
pub mod Window
pub mod Sets
pub mod Escalation
pub mod Failures
mod Tests
use coagent.Base.{
  ℕ, suc, ◌+◌, ◌-◌, ◌*◌, Bool, true, false, not, ◌&&◌, List, [], ◌∷◌, ◌++◌, map, reverse, length,
  drop, any, count_if, String, str_eq, ltb, leb, ◌==◌, if◌then◌else◌,
}

abbrev pub window_size : ℕ
window_size = 20

abbrev pub min_fill : ℕ
min_fill = 10

abbrev pub max_blocks : ℕ
max_blocks = 3

abbrev pub fail_warn : ℕ
fail_warn = 3

abbrev pub fail_block : ℕ
fail_block = 5

pub data LoopAction : Type 0 where
  none warn block force_text_only warn_failure : LoopAction

pub record ToolRecord : Type 0 where
  pub name : String
  pub args_hash : ℕ
  pub result_hash : ℕ
  pub failed : Bool

-- `argKey`, and the local key types of the two diversity functions: a name and a hash.
pub record Key : Type 0 where
  pub name : String
  pub hash : ℕ

pub record LoopDetector : Type 0 where
  pub window : List ToolRecord
  pub warn_fingerprint : List Key
  pub warn_active : Bool
  pub blocked : Bool
  pub consecutive_blocks : ℕ
  pub is_text_only : Bool

bool_eq : Bool → Bool → Bool
bool_eq true b = b
bool_eq false b = not b

-- Equality of the struct's values, `==` in the source.
pub record_eq : ToolRecord → ToolRecord → Bool
unfolding bool_eq
record_eq r s =
    str_eq r.name s.name
    && (r.args_hash == s.args_hash && (r.result_hash == s.result_hash && bool_eq r.failed s.failed))

pub key_eq : Key → Key → Bool
key_eq j k = str_eq j.name k.name && j.hash == k.hash

-- A map lookup in a set of keys, and the insertion of one.
pub has_key : List Key → Key → Bool
has_key s k = any (key_eq k) s

pub insert_key : Key → List Key → List Key
insert_key k s = if has_key s k then s else k ∷ s

pub key_set : List Key → List Key
key_set [] = []
key_set (k ∷ ks) = insert_key k (key_set ks)

pub new_loop_detector : LoopDetector
new_loop_detector = record {
  window = [];
  warn_fingerprint = [];
  warn_active = false;
  blocked = false;
  consecutive_blocks = 0;
  is_text_only = false;
}

-- The loop of `record`: `seen` is the round's set.
pub append_new : List ToolRecord → List ToolRecord → List ToolRecord → List ToolRecord
append_new seen [] window = window
append_new seen (r ∷ rs) window = elim (any (record_eq r) seen) [
  | true ↦ append_new seen rs window
  | false ↦ append_new (r ∷ seen) rs (window ++ r ∷ [])
]

pub trim : List ToolRecord → List ToolRecord
trim w = if ltb window_size (length w) then drop (length w - window_size) w else w

pub record_round : LoopDetector → List ToolRecord → LoopDetector
record_round d rs = record d { window = trim (append_new [] rs d.window) }

-- The negation of the condition under which the loop below breaks.
pub is_same_failure : ToolRecord → ToolRecord → Bool
is_same_failure last r = r.failed && (str_eq r.name last.name && r.result_hash == last.result_hash)

-- The backward loop of `consecutiveFailureStreak`, over the window newest first.
pub streak_from : ToolRecord → List ToolRecord → ℕ
streak_from last [] = 0
streak_from last (r ∷ rs) =
    let rest = streak_from last rs in if is_same_failure last r then suc rest else 0

pub streak_newest_first : List ToolRecord → ℕ
streak_newest_first [] = 0
streak_newest_first (last ∷ rs) = if last.failed then streak_from last (last ∷ rs) else 0

pub consecutive_failure_streak : LoopDetector → ℕ
consecutive_failure_streak d = streak_newest_first (reverse d.window)

-- The last `loopDetectorConsecutiveWarn` = 3 records, newest first.
pub three_identical : List ToolRecord → Bool
three_identical (last ∷ b ∷ a ∷ rest) = record_eq a last && record_eq b last
three_identical _ = false

pub has_consecutive_identical : LoopDetector → Bool
has_consecutive_identical d = three_identical (reverse d.window)

arg_key : ToolRecord → Key
arg_key r = record { name = r.name; hash = r.args_hash }

result_key : ToolRecord → Key
result_key r = record { name = r.name; hash = r.result_hash }

pub window_as_arg_set : List ToolRecord → List Key
window_as_arg_set w = key_set (map arg_key w)

-- The numerators of the two fractions; the denominator is the window's length.
pub unique_args : LoopDetector → ℕ
unique_args d = length (window_as_arg_set d.window)

pub unique_results : LoopDetector → ℕ
unique_results d = length (key_set (map result_key d.window))

pub intersection : List Key → List Key → ℕ
intersection a b = count_if (has_key b) a

pub union : List Key → List Key → ℕ
union a b = length a + count_if (λ k. not (has_key a k)) b

-- `jaccardSimilarityArgs(a, b) >= 0.7`; the similarity of two empty sets is 0.
pub is_similar : List Key → List Key → Bool
is_similar [] [] = false
is_similar a b = leb (7 * union a b) (10 * intersection a b)

pub warn_or_escalate : LoopDetector → LoopDetector × LoopAction
warn_or_escalate d =
    let current = window_as_arg_set d.window in
    if d.warn_active && is_similar current d.warn_fingerprint
    then (record d { blocked = true }, block)
    else (record d { warn_active = true; warn_fingerprint = current }, warn)

-- `diversity >= 0.35`, where the diversity is the smaller of the two fractions.
pub is_diverse : LoopDetector → Bool
is_diverse d =
    let least =
      if ltb (unique_results d) (unique_args d) then unique_results d else unique_args d in
    leb (35 * length d.window) (100 * least)

-- Steps 4 to 11 of `check`.
check_window : LoopDetector → LoopDetector × LoopAction
check_window d =
    if has_consecutive_identical d
    then warn_or_escalate d
    else if ltb (length d.window) min_fill
    then (d, none)
    else if is_diverse d
    then (
      record d {
        warn_active = false;
        warn_fingerprint = [];
        blocked = false;
        consecutive_blocks = 0;
      },
      none,
    )
    else warn_or_escalate d

-- Step 2 of `check`.
check_blocked : LoopDetector → LoopDetector × LoopAction
check_blocked d =
    let d' = record d { consecutive_blocks = d.consecutive_blocks + 1 } in
    if leb max_blocks d'.consecutive_blocks
    then (record d' { is_text_only = true }, force_text_only)
    else (d', block)

-- Step 3 of `check`.
check_failures : LoopDetector → LoopDetector × LoopAction
unfolding check_window
check_failures d =
    let streak = consecutive_failure_streak d in
    if leb fail_block streak
    then (record d { blocked = true }, block)
    else if leb fail_warn streak
    then (d, warn_failure)
    else check_window d

pub check : LoopDetector → LoopDetector × LoopAction
unfolding check_blocked check_failures
check d =
    if d.is_text_only
    then (d, force_text_only)
    else if d.blocked
    then check_blocked d
    else check_failures d

pub reset_window : LoopDetector → LoopDetector
reset_window d = record d {
  window = [];
  warn_active = false;
  warn_fingerprint = [];
  blocked = false;
  consecutive_blocks = 0;
  is_text_only = false;
}

pub clear_force_text_only : LoopDetector → LoopDetector
clear_force_text_only d = record d {
  is_text_only = false;
  blocked = false;
  consecutive_blocks = 0;
  warn_active = false;
  warn_fingerprint = [];
  window = [];
}
