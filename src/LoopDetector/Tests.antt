-- ===== src/LoopDetector/Tests.antt =====
-- Runs of internal/session/loopdetect.go on small inputs, and its theorems at inputs.
use coagent.Base.{◌≡◌, refl, true, false, [], ◌∷◌, ◌⊎◌, arith}
use coagent.LoopDetector.{
  ToolRecord, LoopDetector, none, warn, block, force_text_only, warn_failure, new_loop_detector,
  record_round, check, consecutive_failure_streak, record_eq, streak_newest_first, check_window,
  append_new, trim, bool_eq, has_consecutive_identical, three_identical, warn_or_escalate,
  window_as_arg_set, arg_key, key_set, insert_key, has_key, key_eq, is_similar, intersection, union,
  clear_force_text_only,
}
use coagent.LoopDetector.Escalation.{
  Inv, run, verdicts, records, checks, clears, run-new_loop_detector-Inv, verdicts_blocked,
  check-warn-block,
}
use coagent.LoopDetector.Failures.{
  IsStreak, failing, round, consecutive_failure_streak_lem, verdicts-failing,
}

abbrev read_call : ToolRecord
read_call = record { name = "read"; args_hash = 1; result_hash = 7; failed = false }

abbrev grep_call : ToolRecord
grep_call = record { name = "grep"; args_hash = 2; result_hash = 8; failed = false }

-- Three identical calls, in rounds of their own.
abbrev repeating : LoopDetector
repeating = record new_loop_detector { window = read_call ∷ read_call ∷ read_call ∷ [] }

abbrev blocked_detector : LoopDetector
blocked_detector = record {
  window = [];
  warn_fingerprint = [];
  warn_active = false;
  blocked = true;
  consecutive_blocks = 0;
  is_text_only = false;
}

repeated_call :
    verdicts new_loop_detector
      ((read_call ∷ []) ∷ (read_call ∷ []) ∷ (read_call ∷ []) ∷ (read_call ∷ []) ∷ [])
    ≡ none ∷ none ∷ warn ∷ block ∷ []
unfolding verdicts check check_window record_round append_new trim new_loop_detector record_eq
    bool_eq consecutive_failure_streak streak_newest_first has_consecutive_identical three_identical
    warn_or_escalate window_as_arg_set arg_key key_set insert_key has_key key_eq is_similar
    intersection union
repeated_call = refl

run-new_loop_detector-Inv_example :
    Inv (run new_loop_detector (records (read_call ∷ []) ∷ checks ∷ clears ∷ checks ∷ []))
run-new_loop_detector-Inv_example =
    run-new_loop_detector-Inv (records (read_call ∷ []) ∷ checks ∷ clears ∷ checks ∷ [])

verdicts_blocked_example :
    verdicts blocked_detector ([] ∷ (grep_call ∷ []) ∷ [] ∷ [] ∷ [])
    ≡ block ∷ block ∷ force_text_only ∷ force_text_only ∷ []
verdicts_blocked_example =
    verdicts_blocked blocked_detector ([] ∷ (grep_call ∷ []) ∷ [] ∷ [] ∷ []) (ground arith) refl

repeating_warns : (check repeating).1 ≡ warn
unfolding check check_window record_round append_new trim new_loop_detector record_eq bool_eq
    consecutive_failure_streak streak_newest_first has_consecutive_identical three_identical
    warn_or_escalate window_as_arg_set arg_key key_set insert_key has_key key_eq is_similar
    intersection union
repeating_warns = refl

check-warn-block_example : (check (check repeating).0).1 ≡ block
check-warn-block_example = check-warn-block repeating repeating_warns

abbrev failed_twice : LoopDetector
failed_twice = record blocked_detector {
  window = grep_call ∷ failing "bash" 5 1 ∷ failing "bash" 5 2 ∷ [];
}

consecutive_failure_streak_lem_example :
    ((failing "bash" 5 2).failed ≡ false × (consecutive_failure_streak failed_twice ≡ 0))
    ⊎ IsStreak
        (failing "bash" 5 2)
        (failing "bash" 5 2 ∷ failing "bash" 5 1 ∷ grep_call ∷ [])
        (consecutive_failure_streak failed_twice)
consecutive_failure_streak_lem_example =
    consecutive_failure_streak_lem failed_twice (failing "bash" 5 2)
      (failing "bash" 5 1 ∷ grep_call ∷ []) refl

verdicts-failing_example :
    let r = round blocked_detector "bash" 5 in
    verdicts (clear_force_text_only blocked_detector) (r 1 ∷ r 2 ∷ r 3 ∷ r 4 ∷ r 5 ∷ [] ∷ [])
    ≡ none ∷ none ∷ warn_failure ∷ warn_failure ∷ block ∷ block ∷ []
verdicts-failing_example = verdicts-failing blocked_detector "bash" 5 1 2 3 4 5 ([] ∷ [])
