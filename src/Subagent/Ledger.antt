-- ===== src/Subagent/Ledger.antt =====
-- internal/subagent/types.go and store.go, and Create in transitions.go: the tables, and the
-- transactions that make a link, stop it and detach it from its parent's call. There is one link for
-- each child, since a child's session id is new when its link is inserted. `now` is the clock.
use coagent.Base.{
  ℕ, Bool, true, false, not, ◌&&◌, List, Option, none, some, any, String, str_eq, ◌==◌,
  if◌then◌else◌,
}
use coagent.SessionStore.{
  SessionStatus, InputSource, agent, user, SessionRow, InboxRow, Sessions, empty_link_state, Result,
  ok, ◌>>=◌, or_fail, put, is_pending, enqueue_tx, create_subagent_session_tx,
}
use coagent.Subagent.{State, Outcome, no_result, Link, is_open, is_stopped}
use coagent.Subagent.Derive.{Transcript}

-- The tables. `processes` says whether a session owns a running background process that was
-- advertised to the model, and `transcripts` is what can be read of the children's messages.
pub record Db : Type 0 where
  pub sessions : Sessions
  pub links : ℕ → Option Link
  pub processes : ℕ → Bool
  pub transcripts : ℕ → Transcript

abbrev pub tool_id_task : String
tool_id_task = "task"

abbrev pub is_pending_of : ℕ → InboxRow → Bool
is_pending_of id r = is_pending r.state && r.input.session_id == id

-- `EXISTS(SELECT 1 FROM session_inbox WHERE session_id = ... AND state = 'pending')`.
unfoldable pub has_pending : ℕ → List InboxRow → Bool
has_pending id inbox = any (is_pending_of id) inbox

abbrev pub is_direct : InputSource → Bool
is_direct user = true
is_direct agent = true
is_direct _ = false

-- The same, with `source IN ('user', 'agent')`.
unfoldable pub has_pending_direct : ℕ → List InboxRow → Bool
has_pending_direct id inbox = any (λ r. is_pending_of id r && is_direct r.input.source) inbox

-- `sess.status NOT IN ('stopping', 'stopped', 'killed') AND sess.killed_at IS NULL`.
abbrev pub status_is_live : SessionStatus → Bool
status_is_live SessionStatus.stopping = false
status_is_live SessionStatus.stopped = false
status_is_live SessionStatus.killed = false
status_is_live _ = true

abbrev pub row_is_live : Option SessionRow → Bool
row_is_live none = false
row_is_live (some r) = status_is_live r.status && not r.is_killed

abbrev pub is_delivered : Link → Bool
is_delivered l = elim l.delivered_at [ none ↦ false | some t ↦ true ]

abbrev pub set_link : Db → ℕ → Link → Db
set_link d child l = record d { links = put d.links child (some l) }

pub record Create : Type 0 where
  pub parent_id : ℕ
  pub root_id : ℕ
  pub task_call_id : String
  pub blocking : Bool
  pub depth : ℕ
  pub state : Option State  -- none is the empty state
  pub initial_input : String

-- `if create.InitialInput != "" { EnqueueTx }`.
unfoldable pub enqueue_initial : Create → ℕ → Sessions → Result Sessions
enqueue_initial c child s =
    if str_eq c.initial_input ""
    then ok s
    else (enqueue_tx
          (record {
            session_id = child;
            source = agent;
            content = c.initial_input;
            call_id = "";
            tool_id = "";
            delivery_key = none;
          })
          s
        >>= λ r. ok r.0)

unfoldable pub create : ℕ → Create → Db → Result (Db × ℕ)
create now c d = or_fail c.state empty_link_state >>= λ state.
    create_subagent_session_tx c.parent_id c.root_id d.sessions >>= λ r.
    enqueue_initial c r.1 r.0 >>= λ s. ok (
      set_link (record d { sessions = s }) r.1
          (record {
            parent_id = c.parent_id;
            child_id = r.1;
            task_call_id = c.task_call_id;
            blocking = c.blocking;
            depth = c.depth;
            state = state;
            delivered_at = none;
            created_at = now;
            activation_seq = 1;
            result = no_result;
            outcome = Outcome.none;
          }),
      r.1,
    )

unfoldable pub mark_link_stopped : ℕ → Db → Db
mark_link_stopped child d = elim (d.links child) [
  | none ↦ d
  | some l ↦ if is_open l.state then set_link d child (record l { state = State.stopped }) else d
]

unfoldable pub make_stopped_link_resumable : ℕ → Db → Db
make_stopped_link_resumable child d = elim (d.links child) [
  | none ↦ d
  | some l ↦ if is_stopped l.state then set_link d child (record l { blocking = false }) else d
]
