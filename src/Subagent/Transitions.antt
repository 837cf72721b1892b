-- ===== src/Subagent/Transitions.antt =====
-- internal/subagent/transitions.go: the transactions that end an activation and begin the next one.
-- Each is one step here: the row that its UPDATE finds is the one that was read before.
use coagent.Base.{
  ℕ, ◌+◌, Bool, true, false, not, ◌&&◌, ◌||◌, List, Option, none, some, String, leb, if◌then◌else◌,
}
use coagent.SessionStore.{
  SessionStatus, SessionRow, link_not_found, session_not_found, transcript_not_loaded, Result, ok,
  err, ◌>>=◌, or_fail, update_session_status_tx, mark_session_killed_tx,
}
use coagent.Subagent.{
  State, Outcome, no_result, unresumable, Link, is_terminal, is_open, is_stopped,
}
use coagent.Subagent.Derive.{
  Message, derive_outcome, last_assistant_text, empty_stop_terminal_streak,
}
use coagent.Subagent.Ledger.{
  Db, set_link, row_is_live, has_pending, has_pending_direct, is_delivered,
}

abbrev pub is_suspended : SessionStatus → Bool
is_suspended SessionStatus.suspended = true
is_suspended _ = false

abbrev pub is_error : SessionStatus → Bool
is_error SessionStatus.error = true
is_error _ = false

abbrev pub ended_state : Bool → State
ended_state true = State.error
ended_state false = State.completed

abbrev pub ended_status : Bool → SessionStatus
ended_status true = SessionStatus.error
ended_status false = SessionStatus.completed

-- `(errored || status == error) && streak < EmptyStopTerminalStreak`.
unfoldable pub fails : SessionRow → Bool → Bool
fails r errored =
    (errored || is_error r.status) && not (leb empty_stop_terminal_streak r.empty_stop_streak)

-- The WHERE clause of the update in `Finalize`.
unfoldable pub can_finalize : Db → ℕ → Link → Bool → Bool
can_finalize d child l failed =
    is_open l.state
    && (row_is_live (d.sessions.rows child)
        && (not (has_pending child d.sessions.inbox) && (failed || not (d.processes child))))

unfoldable pub ended_link : Db → ℕ → Link → SessionRow → Bool → Link
ended_link d child l r errored =
    let ended =
      derive_outcome (d.transcripts child) r.iteration errored (is_error r.status)
        r.empty_stop_streak in
    record l { state = ended_state (fails r errored); result = ended.0; outcome = ended.1 }

unfoldable pub finalize_row : ℕ → Bool → Db → Link → SessionRow → Result (Db × Option Link)
finalize_row child errored d l r =
    if is_suspended r.status && not errored
    then ok (d, none)
    else if can_finalize d child l (fails r errored)
    then (update_session_status_tx child (ended_status (fails r errored)) d.sessions >>= λ s. ok (
      set_link (record d { sessions = s }) child (ended_link d child l r errored),
      some (ended_link d child l r errored),
    ))
    else ok (d, none)

unfoldable pub finalize : ℕ → Bool → Db → Result (Db × Option Link)
finalize child errored d = elim (d.links child) [
  | none ↦ ok (d, none)
  | some l ↦
      if is_terminal l.state || is_stopped l.state
      then ok (d, none)
      else (or_fail (d.sessions.rows child) session_not_found >>= λ r.
          finalize_row child errored d l r)
]

unfoldable pub failed_link : Link → List Message → String → Link
failed_link l ms reason = record l {
  state = State.error;
  result = unresumable reason (last_assistant_text ms);
  outcome = Outcome.error;
}

-- The read of the messages may fail; `unresumable reason text` is the reason alone if the text is
-- empty.
unfoldable pub fail_resume : ℕ → String → Db → Result (Db × Option Link)
fail_resume child reason d = elim (d.links child) [
  | none ↦ ok (d, none)
  | some l ↦
      if not l.blocking || (is_terminal l.state || is_stopped l.state)
      then ok (d, none)
      else elim (d.transcripts child).messages [
        | none ↦ err transcript_not_loaded
        | some ms ↦
            if is_open l.state && row_is_live (d.sessions.rows child)
            then (update_session_status_tx child SessionStatus.error d.sessions >>= λ s. ok (
              set_link (record d { sessions = s }) child (failed_link l ms reason),
              some (failed_link l ms reason),
            ))
            else ok (d, none)
      ]
]

unfoldable pub kill : ℕ → Db → Result Db
kill child d = or_fail (d.links child) link_not_found >>= λ l.
    mark_session_killed_tx child d.sessions >>= λ s. ok (
      set_link (record d { sessions = s }) child
        (record l { state = State.killed; result = no_result; outcome = Outcome.killed }))

abbrev pub next_activation : Link → Link
next_activation l = record l {
  state = State.running;
  blocking = false;
  activation_seq = l.activation_seq + 1;
  delivered_at = none;
}

unfoldable pub resume : ℕ → Db → Result Db
resume child d = or_fail (d.links child) link_not_found >>= λ l.
    update_session_status_tx child SessionStatus.active d.sessions >>= λ s.
    ok (set_link (record d { sessions = s }) child (next_activation l))

-- The WHERE clause of the update in `Rearm`.
unfoldable pub can_rearm : Db → ℕ → Link → Bool
can_rearm d child l = is_delivered l && elim l.state [
  | State.completed ↦ has_pending child d.sessions.inbox
  | State.error ↦ has_pending_direct child d.sessions.inbox
  | _ ↦ false
]

unfoldable pub rearm : ℕ → Db → Result (Db × Bool)
rearm child d = elim (d.links child) [
  | none ↦ ok (d, false)
  | some l ↦
      if can_rearm d child l
      then (update_session_status_tx child SessionStatus.active d.sessions >>= λ s.
          ok (set_link (record d { sessions = s }) child (next_activation l), true))
      else ok (d, false)
]
