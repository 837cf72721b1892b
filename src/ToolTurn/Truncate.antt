-- ===== src/ToolTurn/Truncate.antt =====
-- truncateHeadTail and snapToNewline of internal/session/step_tools.go: a text that is too long keeps
-- its head and its tail. A text is its runes; the marker, whether the tail looks important, and the
-- product of a float ratio are given.
pub mod Fits
use coagent.Base.{
  ℕ, zero, suc, ◌+◌, ◌-◌, ◌*◌, ◌/◌, min, Bool, true, false, not, ◌&&◌, ◌||◌, List, [], ◌∷◌, ◌++◌,
  Option, none, some, ◌==◌, ltb, leb, length, take, drop, get_elem?, if◌then◌else◌,
}

abbrev is_newline : List ℕ → ℕ → Bool
is_newline runes i = elim (get_elem? runes i) [ none ↦ false | some r ↦ r == 10 ]

-- The backward search, from index `i` on in at most `steps` steps.
pub snap_backward : List ℕ → ℕ → ℕ → ℕ → ℕ
snap_backward runes pos i zero = pos
snap_backward runes pos i (suc steps) =
    let rest = snap_backward runes pos (i - 1) steps in if is_newline runes i then i + 1 else rest

pub snap_forward : List ℕ → ℕ → ℕ → ℕ → ℕ
snap_forward runes pos i zero = pos
snap_forward runes pos i (suc steps) =
    let rest = snap_forward runes pos (i + 1) steps in if is_newline runes i then i + 1 else rest

abbrev cannot_snap : List ℕ → ℕ → ℕ → Bool
cannot_snap runes pos max_drift = pos == 0 || (leb (length runes) pos || max_drift == 0)

-- `snapToNewline` with the direction -1, and with +1.
pub snap_head : List ℕ → ℕ → ℕ → ℕ
unfolding snap_backward
snap_head runes pos max_drift =
    if cannot_snap runes pos max_drift
    then pos
    else snap_backward runes pos pos (min max_drift pos + 1)

pub snap_tail : List ℕ → ℕ → ℕ → ℕ
unfolding snap_forward
snap_tail runes pos max_drift =
    if cannot_snap runes pos max_drift
    then pos
    else snap_forward runes pos pos (min (pos + max_drift) (length runes - 1) + 1 - pos)

-- The marker for a number of omitted runes, and the head's share of the available ones, by whether
-- the tail is important.
pub record Truncation : Type 0 where
  pub marker : ℕ → List ℕ
  pub has_important_tail : List ℕ → Bool
  pub share : Bool → ℕ → ℕ

-- Where the head ends and the tail starts.
pub choose_cuts : List ℕ → ℕ → ℕ → ℕ × ℕ
unfolding snap_head snap_tail
choose_cuts runes available head_size =
    let tail_size = available - head_size in
    let max_drift = min 200 (available / 5) in
    let snapped = snap_head runes head_size max_drift in
    let start = snap_tail runes (length runes - tail_size) max_drift in
    let tail_start = if leb (length runes) start then length runes - tail_size else start in
    if ltb available (snapped + (length runes - tail_start))
    then (head_size, length runes - tail_size)
    else (snapped, tail_start)

pub truncate_head_tail : Truncation → List ℕ → ℕ → List ℕ
unfolding choose_cuts
truncate_head_tail t runes max_runes =
    let marker = t.marker (length runes - max_runes) in
    let available = max_runes - length marker in
    let head_size = t.share (ltb 200 available && t.has_important_tail runes) available in
    let cuts = choose_cuts runes available head_size in
    if leb (length runes) max_runes
    then runes
    else if available == 0
    then take max_runes runes
    else (take cuts.0 runes ++ marker) ++ drop cuts.1 runes
