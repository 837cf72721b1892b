-- ===== src/LoopDetector/Failures.antt =====
-- The failure streak of internal/session/loopdetect.go, and what a run of failures leads to.
use coagent.Base.{
  ap, ◌↔◌, ℕ, suc, ◌≡◌, refl, ◌⊎◌, inl, inr, true, false, List, [], ◌∷◌, ◌++◌, reverse, arith,
  length, map, All, String, str_eq_iff, str_eq_refl, Bool-cases,
}
use coagent.LoopDetector.{
  ToolRecord, LoopDetector, LoopAction, none, block, warn_failure, record_round, append_new, trim,
  check, check_window, clear_force_text_only, consecutive_failure_streak, streak_newest_first,
  streak_from, is_same_failure, has_consecutive_identical, three_identical,
}
use coagent.LoopDetector.Escalation.{verdicts, blocked_verdicts, verdicts_blocked}

-- A failure of the same tool with the same error.
abbrev pub FailsAs : ToolRecord → ToolRecord → Type 0
FailsAs last r = (r.failed ≡ true) × (r.name ≡ last.name) × (r.result_hash ≡ last.result_hash)

-- The list does not begin with such a failure.
abbrev pub Stops : ToolRecord → List ToolRecord → Type 0
Stops last [] = Unit {0}
Stops last (r ∷ rs) = ¬ FailsAs last r

-- The newest records: a run of equal failures of the given length, and no more of them behind it.
pub record IsStreak (last : ToolRecord) (newest_first : List ToolRecord) (k : ℕ) : Type 0 where
  pub streak : List ToolRecord
  pub older : List ToolRecord
  pub split : newest_first ≡ streak ++ older
  pub long : length streak ≡ k
  pub same : All (FailsAs last) streak
  pub ends : Stops last older

is_same_failure_iff : (last r : ToolRecord) → (is_same_failure last r ≡ true) ↔ FailsAs last r
unfolding is_same_failure
is_same_failure_iff last r = ground (arith, str_eq_iff r.name last.name)

streak_from-IsStreak :
    (last : ToolRecord) (rs : List ToolRecord) → IsStreak last rs (streak_from last rs)
unfolding streak_from
streak_from-IsStreak last [] = record {
  streak = [];
  older = [];
  split = refl;
  long = refl;
  same = tt;
  ends = tt;
}
streak_from-IsStreak last (r ∷ rs) =
    let tail = streak_from-IsStreak last rs in
    elim (Bool-cases (is_same_failure last r)) [
      | inl f ↦
          rw (f, streak_from)
            (record {
              streak = r ∷ tail.streak;
              older = tail.older;
              split = ap (λ (t : List ToolRecord). r ∷ t) tail.split;
              long = ap suc tail.long;
              same = ((is_same_failure_iff last r).0 f, tail.same);
              ends = tail.ends;
            })
      | inr g ↦
          rw (g, streak_from)
            (record {
              streak = [];
              older = r ∷ rs;
              split = refl;
              long = refl;
              same = tt;
              ends = λ f. cc (g, (is_same_failure_iff last r).1 f);
            })
    ]

-- The streak that the detector reads off a window with a newest record: 0 if that record is no
-- failure, and else the length of the longest run of newest records that failed with
-- the tool and the error of the newest one.
pub consecutive_failure_streak_lem :
    (d : LoopDetector) (last : ToolRecord) (older : List ToolRecord)
    → reverse d.window ≡ last ∷ older
    → ((last.failed ≡ false) × (consecutive_failure_streak d ≡ 0))
      ⊎ IsStreak last (last ∷ older) (consecutive_failure_streak d)
unfolding consecutive_failure_streak streak_newest_first
consecutive_failure_streak_lem d last older e = elim (Bool-cases last.failed) [
  | inr no_failure ↦ inl (no_failure, rw (e, streak_newest_first) (rw no_failure))
  | inl f ↦ inr (rw (e, streak_newest_first) (simp f (streak_from-IsStreak last (last ∷ older))))
]

-- A tool call that fails with a given error, whatever its arguments.
abbrev pub failing : String → ℕ → ℕ → ToolRecord
failing name error args = record {
  name = name;
  args_hash = args;
  result_hash = error;
  failed = true;
}

failing-failing :
    (name : String) (error a b : ℕ)
    → is_same_failure (failing name error a) (failing name error b) ≡ true
unfolding is_same_failure
failing-failing name error a b = ground (arith, str_eq_refl name)

streak_newest_first-failing :
    (name : String) (error a : ℕ) (args : List ℕ)
    → streak_newest_first (failing name error a ∷ map (failing name error) args) ≡ suc (length args)
unfolding streak_newest_first streak_from
streak_newest_first-failing name error a args = streak_from-failing (a ∷ args)
  where
    streak_from-failing :
        (bs : List ℕ) → streak_from (failing name error a) (map (failing name error) bs) ≡ length bs
    streak_from-failing [] = refl
    streak_from-failing (b ∷ bs) =
        rw (failing-failing name error a b) (ap suc (streak_from-failing bs))

module _ (d : LoopDetector) (name : String) (error : ℕ) where
  -- A cleared detector that has seen failures of one kind, with the given arguments.
  abbrev pub seen : List ℕ → LoopDetector
  seen args = record d {
    window = map (failing name error) args;
    warn_fingerprint = [];
    warn_active = false;
    blocked = false;
    consecutive_blocks = 0;
    is_text_only = false;
  }

  -- The rounds of such failures, one call in each.
  abbrev pub round : ℕ → List ToolRecord
  round a = failing name error a ∷ []

  check_first : (a : ℕ) → check (record_round (seen ([])) (round a)) ≡ (seen (a ∷ []), none)
  unfolding check check_window record_round append_new trim consecutive_failure_streak
      has_consecutive_identical three_identical
  check_first a = rw (streak_newest_first-failing name error a ([]))

  check_second :
      (a b : ℕ) → check (record_round (seen (a ∷ [])) (round b)) ≡ (seen (a ∷ b ∷ []), none)
  unfolding check check_window record_round append_new trim consecutive_failure_streak
      has_consecutive_identical three_identical
  check_second a b = rw (streak_newest_first-failing name error b (a ∷ []))

  check_third :
      (a b c : ℕ)
      → check (record_round (seen (a ∷ b ∷ [])) (round c)) ≡ (seen (a ∷ b ∷ c ∷ []), warn_failure)
  unfolding check check_window record_round append_new trim consecutive_failure_streak
      has_consecutive_identical three_identical
  check_third a b c = rw (streak_newest_first-failing name error c (b ∷ a ∷ []))

  check_fourth :
      (a b c e : ℕ)
      → check (record_round (seen (a ∷ b ∷ c ∷ [])) (round e))
        ≡ (seen (a ∷ b ∷ c ∷ e ∷ []), warn_failure)
  unfolding check check_window record_round append_new trim consecutive_failure_streak
      has_consecutive_identical three_identical
  check_fourth a b c e = rw (streak_newest_first-failing name error e (c ∷ b ∷ a ∷ []))

  check_fifth :
      (a b c e f : ℕ)
      → check (record_round (seen (a ∷ b ∷ c ∷ e ∷ [])) (round f))
        ≡ (record (seen (a ∷ b ∷ c ∷ e ∷ f ∷ [])) { blocked = true }, block)
  unfolding check check_window record_round append_new trim consecutive_failure_streak
      has_consecutive_identical three_identical
  check_fifth a b c e f = rw (streak_newest_first-failing name error f (e ∷ c ∷ b ∷ a ∷ []))

-- New arguments do not hide a repeated failure: five rounds that each fail with the same tool and
-- the same error, from a cleared window, are answered by nothing, nothing, two warnings and a
-- block, whatever their arguments; and whatever comes then, the block escalates.
pub verdicts-failing :
    (d : LoopDetector) (name : String) (error a b c e f : ℕ) (later : List (List ToolRecord))
    → let r = round d name error in
      verdicts (clear_force_text_only d) (r a ∷ r b ∷ r c ∷ r e ∷ r f ∷ later)
      ≡ none ∷ none ∷ warn_failure ∷ warn_failure ∷ block ∷ blocked_verdicts 0 later
unfolding verdicts clear_force_text_only
verdicts-failing d name error a b c e f later =
    rw
      (
        check_first d name error a,
        check_second d name error a b,
        check_third d name error a b c,
        check_fourth d name error a b c e,
        check_fifth d name error a b c e f,
      )
      (ap (λ (t : List LoopAction). none ∷ none ∷ warn_failure ∷ warn_failure ∷ block ∷ t)
        (verdicts_blocked _ later (ground arith) refl))
