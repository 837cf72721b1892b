-- ===== src/Subagent/Tests.antt =====
-- internal/subagent on a small ledger: session 1 has the child 2.
use coagent.Base.{
  ℕ, ◌≡◌, refl, if◌then◌else◌, Bool, true, false, List, [], ◌∷◌, Option, none, some, arith, ◌==◌,
  String,
}
use coagent.SessionStore.{
  SessionStatus, SessionRow, Sessions, Input, InboxRow, InputState, link_changed, Result, ok, err,
  enqueue_tx, validate_enqueue_input, enqueue_lifecycle_accepts, delivered_before,
  insert_enqueued_input, update_session_status_tx, mark_session_killed_tx,
  cancel_pending_input_tree,
}
use coagent.Subagent.{
  State, Outcome, no_result, answer, messages_unreadable, Link, is_terminal, valid_terminal_link,
}
use coagent.Subagent.Derive.{
  Transcript, Rejection, Message, assistant, derive_outcome, outcome_of_transcript,
}
use coagent.Subagent.Ledger.{Db, has_pending}
use coagent.Subagent.Transitions.{
  finalize, finalize_row, can_finalize, fails, ended_link, kill, resume,
}
use coagent.Subagent.Delivery.{deliver, skips_parent, queue_completion, completion_input}
use coagent.Subagent.Steps.{Op, resumes, kills, step, run, after}
use coagent.Subagent.Once.{deliver_once}
use coagent.Subagent.Valid.{finalize-deliver_unreadable}
use coagent.Subagent.Graph.{MovesTo, step-Moves}

abbrev session : ℕ → ℕ → SessionRow
session parent root = record {
  parent_id = parent;
  root_id = root;
  status = SessionStatus.active;
  is_killed = false;
  iteration = 4;
  empty_stop_streak = 0;
}

abbrev sessions : List InboxRow → Sessions
sessions inbox = record {
  rows = λ j. if j == 1 then some (session 0 0) else if j == 2 then some (session 1 1) else none;
  inbox = inbox;
  next_id = 3;
}

abbrev open_link : Link
open_link = record {
  parent_id = 1;
  child_id = 2;
  task_call_id = "call";
  blocking = true;
  depth = 1;
  state = State.running;
  delivered_at = none;
  created_at = 100;
  activation_seq = 1;
  result = no_result;
  outcome = Outcome.none;
}

abbrev said : String → Message
said text = record { role = assistant; content = text; has_calls = false; finish_type = "stop" }

abbrev transcript : Option (List Message) → Transcript
transcript ms = record { messages = ms; rejection = Rejection.not_found; confirmed_answer = none }

abbrev db : Option (List Message) → Link → List InboxRow → Db
db ms l inbox = record {
  sessions = sessions inbox;
  links = λ j. if j == 2 then some l else none;
  processes = λ j. false;
  transcripts = λ j. transcript ms;
}

abbrev answered : Db
answered = db (some (said "done" ∷ [])) open_link []

abbrev unreadable : Db
unreadable = db none open_link []

abbrev done_link : Link
done_link = record open_link {
  state = State.completed;
  result = answer "done";
  outcome = Outcome.completed;
}

abbrev lost_link : Link
lost_link = record open_link {
  state = State.completed;
  result = messages_unreadable 4;
  outcome = Outcome.error;
}

abbrev after_finalize : Db → Db
after_finalize d = after d (finalize 2 false d)

finalize-lost_link : finalize 2 false unreadable ≡ ok (after_finalize unreadable, some lost_link)
unfolding finalize finalize_row can_finalize fails ended_link derive_outcome outcome_of_transcript
    is_terminal has_pending update_session_status_tx
finalize-lost_link = refl

finalize-deliver_unreadable_example :
    (lost_link.state ≡ State.completed)
    × (lost_link.outcome ≡ Outcome.error)
    × (deliver 200 lost_link (completion_input lost_link "result") (after_finalize unreadable)
        ≡ err link_changed)
finalize-deliver_unreadable_example =
    finalize-deliver_unreadable 2 200 unreadable (after_finalize unreadable) lost_link (session 1 1)
      (completion_input lost_link "result") refl refl refl refl finalize-lost_link refl refl

-- A ledger in which the child has answered and nothing was delivered.
abbrev ended : Db
ended = db (some (said "done" ∷ [])) done_link []

abbrev notice : Input
notice = completion_input done_link "result"

abbrev delivered : Db
delivered = after ended (deliver 200 done_link notice ended)

deliver-ended : deliver 200 done_link notice ended ≡ ok (delivered, true)
unfolding deliver valid_terminal_link skips_parent queue_completion enqueue_tx
    validate_enqueue_input enqueue_lifecycle_accepts delivered_before insert_enqueued_input
deliver-ended = refl

-- After the delivery the child is resumed, ends again and is killed.
abbrev later : List Op
later = resumes 2 ∷ kills 2 ∷ []

deliver-later : deliver 300 done_link notice (run delivered later) ≡ ok (run delivered later, false)
unfolding deliver run step resume kill valid_terminal_link skips_parent queue_completion enqueue_tx
    validate_enqueue_input enqueue_lifecycle_accepts delivered_before insert_enqueued_input
    update_session_status_tx mark_session_killed_tx cancel_pending_input_tree
deliver-later = refl

deliver_once_example : (◌≡◌ {A = Bool} false false) × (run delivered later ≡ run delivered later)
deliver_once_example =
    deliver_once 200 300 done_link done_link notice notice ended delivered (run delivered later)
      later false (omega arith) deliver-ended refl refl deliver-later

step-Moves_example : MovesTo done_link ((step ended (resumes 2)).links 2)
step-Moves_example = step-Moves 2 done_link ended (resumes 2) refl (omega arith)

-- The child still has an input that it did not read.
abbrev waiting : Db
waiting =
    db (some []) open_link
      (record { input = record notice { session_id = 2 }; state = InputState.pending } ∷ [])

finalize-waiting : finalize 2 true waiting ≡ ok (waiting, none)
unfolding finalize finalize_row can_finalize is_terminal has_pending fails
finalize-waiting = refl

abbrev after_kill : Result Db → Db
after_kill (ok d) = d
after_kill (err e) = waiting

kill-waiting : kill 2 waiting ≡ ok (after_kill (kill 2 waiting))
unfolding kill mark_session_killed_tx cancel_pending_input_tree
kill-waiting = refl
