-- ===== src/LoopDetector/Escalation.antt =====
-- The escalation of internal/session/loopdetect.go: warning, block, text only.
use coagent.Base.{
  ℕ, ◌+◌, ◌≤◌, ◌<◌, ◌≡◌, refl, ◌≢◌, ◌⊎◌, true, false, List, [], ◌∷◌, reverse, arith, leb,
  if◌then◌else◌, map,
}
use coagent.LoopDetector.{
  ToolRecord, LoopDetector, LoopAction, warn, block, force_text_only, max_blocks, new_loop_detector,
  record_round, check, check_window, warn_or_escalate, reset_window, clear_force_text_only,
  window_as_arg_set, is_similar, consecutive_failure_streak, has_consecutive_identical,
  three_identical, is_diverse, unique_args, unique_results, arg_key,
}
use coagent.LoopDetector.Sets.{is_similar_refl, key_set-ne_nil}

-- What the session asks of its detector.
pub data Op : Type 0 where
  records : List ToolRecord → Op
  checks resets clears : Op

pub step : LoopDetector → Op → LoopDetector
step d (records rs) = record_round d rs
step d checks = (check d).0
step d resets = reset_window d
step d clears = clear_force_text_only d

pub run : LoopDetector → List Op → LoopDetector
run d [] = d
run d (o ∷ os) = run (step d o) os

-- The count of blocked checks is exact: 0 before a block, below the limit until text is forced,
-- at the limit from then on.
pub record Inv (d : LoopDetector) : Type 0 where
  pub unblocked : (d.blocked ≡ true) ⊎ ((d.consecutive_blocks ≡ 0) × (d.is_text_only ≡ false))
  pub counted :
      ((d.is_text_only ≡ true) × (d.consecutive_blocks ≡ max_blocks))
      ⊎ ((d.is_text_only ≡ false) × (d.consecutive_blocks < max_blocks))
  pub unwarned : (d.warn_active ≡ true) ⊎ (d.warn_fingerprint ≡ [])

step-Inv : (d : LoopDetector) (o : Op) → Inv d → Inv (step d o)
unfolding step check record_round warn_or_escalate reset_window clear_force_text_only
step-Inv d (records rs) v = ground arith
step-Inv d checks v = ground arith
step-Inv d resets v = ground arith
step-Inv d clears v = ground arith

run-Inv : (d : LoopDetector) (os : List Op) → Inv d → Inv (run d os)
unfolding run
run-Inv d [] v = v
run-Inv d (o ∷ os) v = run-Inv (step d o) os (step-Inv d o v)

-- Whatever rounds, checks and resets a detector has seen since it was made, its counter of blocked
-- checks is 0 while it is not blocked, below 3 until text is forced and 3 from then on, and it
-- keeps a fingerprint only while a warning is active.
pub run-new_loop_detector-Inv : (os : List Op) → Inv (run new_loop_detector os)
unfolding new_loop_detector
run-new_loop_detector-Inv os = run-Inv new_loop_detector os (ground arith)

-- The verdicts of a session that runs on: a round, a check, and so on.
unfoldable pub verdicts : LoopDetector → List (List ToolRecord) → List LoopAction
verdicts d [] = []
verdicts d (rs ∷ rounds) = let r = check (record_round d rs) in r.1 ∷ verdicts r.0 rounds

-- The verdicts that follow a block, by the number of checks that it has seen.
abbrev pub blocked_verdicts : ℕ → List (List ToolRecord) → List LoopAction
blocked_verdicts k [] = []
blocked_verdicts k (rs ∷ rounds) =
    (if leb max_blocks (k + 1) then force_text_only else block) ∷ blocked_verdicts (k + 1) rounds

verdicts_forced :
    (d : LoopDetector) (k : ℕ) (rounds : List (List ToolRecord))
    → d.is_text_only ≡ true
    → max_blocks ≤ k
    → verdicts d rounds ≡ blocked_verdicts k rounds
unfolding verdicts check record_round
verdicts_forced d k [] t h = refl
verdicts_forced d k (rs ∷ rounds) t h =
    ground (arith, verdicts_forced (check (record_round d rs)).0 (k + 1) rounds)

-- A block cannot be worked off by other tool calls: whatever the following rounds record, a
-- detector that is blocked and has counted k blocked checks answers `block` until the third blocked
-- check, and `force_text_only` from then on.
pub verdicts_blocked :
    (d : LoopDetector) (rounds : List (List ToolRecord))
    → Inv d
    → d.blocked ≡ true
    → verdicts d rounds ≡ blocked_verdicts d.consecutive_blocks rounds
unfolding verdicts check record_round
verdicts_blocked d [] v b = refl
verdicts_blocked d (rs ∷ rounds) v b = ground (
  arith,
  step-Inv (record_round d rs) checks,
  verdicts_blocked (check (record_round d rs)).0 rounds,
  verdicts_forced (check (record_round d rs)).0 (d.consecutive_blocks + 1) rounds,
)

three_identical-ne_nil : (w : List ToolRecord) → three_identical (reverse w) ≡ true → w ≢ []
unfolding three_identical
three_identical-ne_nil [] h e = cc
three_identical-ne_nil (r ∷ w) h e = cc

window_as_arg_set-similar :
    (w : List ToolRecord) → w ≢ [] → is_similar (window_as_arg_set w) (window_as_arg_set w) ≡ true
unfolding window_as_arg_set
window_as_arg_set-similar [] h = absurd (h refl)
window_as_arg_set-similar (r ∷ w) h =
    is_similar_refl (window_as_arg_set (r ∷ w)) (key_set-ne_nil (arg_key r) (map arg_key w))

-- The warning is given once: if a check warns, and no tool call is recorded before the next check,
-- that check blocks.
pub check-warn-block : (d : LoopDetector) → (check d).1 ≡ warn → (check (check d).0).1 ≡ block
unfolding check check_window warn_or_escalate has_consecutive_identical consecutive_failure_streak
    is_diverse unique_args unique_results
check-warn-block d h =
    ground (arith, three_identical-ne_nil d.window, window_as_arg_set-similar d.window)
