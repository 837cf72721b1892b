-- ===== src/Subagent/Valid.antt =====
-- internal/subagent/transitions.go: what Finalize writes can be delivered, and what a delivery does.
use coagent.Base.{ℕ, ◌≡◌, refl, ◌≢◌, ◌⊎◌, Bool, true, false, ◌∷◌, Option, none, some, arith, leb}
use coagent.SessionStore.{
  SessionRow, Input, pending, link_changed, ok, err, enqueue_tx, insert_enqueued_input,
}
use coagent.Subagent.{State, Outcome, Link, valid_terminal_link}
use coagent.Subagent.Derive.{
  derive_outcome, outcome_of_transcript, outcome_of_messages, integrity_or,
  current_integrity_outcome, empty_stop_terminal_streak,
}
use coagent.Subagent.Ledger.{Db, is_delivered}
use coagent.Subagent.Transitions.{finalize, finalize_row, fails, ended_link, is_error}
use coagent.Subagent.Delivery.{deliver, queue_completion}

-- The state and the outcome that end an activation agree, if the transcript can be read or the
-- activation ended by an error.
ended_link-valid :
    (d : Db) (child : ℕ) (l : Link) (r : SessionRow) (errored : Bool)
    → ((d.transcripts child).messages ≢ none)
    → valid_terminal_link
        (ended_link d child l r errored).state
        (ended_link d child l r errored).outcome
      ≡ true
unfolding ended_link fails derive_outcome outcome_of_transcript outcome_of_messages integrity_or
    current_integrity_outcome valid_terminal_link
ended_link-valid d child l r errored h = ground arith

finalize_ended :
    (child : ℕ) (errored : Bool) (d d' : Db) (l : Link)
    → finalize child errored d ≡ ok (d', some l)
    → (row : Link) × (r : SessionRow) × (d.links child ≡ some row)
      × (d.sessions.rows child ≡ some r)
      × (l ≡ ended_link d child row r errored)
      × (d'.links child ≡ some l)
unfolding finalize finalize_row
finalize_ended child errored d d' l h = ground arith

-- When Finalize ends an activation of a child whose transcript can be read, it writes a terminal
-- state with an outcome that a delivery accepts, and returns the link as it stands in the ledger.
pub finalize-valid_terminal_link :
    (child : ℕ) (errored : Bool) (d d' : Db) (l : Link)
    → (d.transcripts child).messages ≢ none
    → finalize child errored d ≡ ok (d', some l)
    → (valid_terminal_link l.state l.outcome ≡ true) × (d'.links child ≡ some l)
finalize-valid_terminal_link child errored d d' l readable h =
    let (row, r, _, _, same, stored) = finalize_ended child errored d d' l h in
    (rw same (ended_link-valid d child row r errored readable), stored)

ended_link-unreadable :
    (d : Db) (child : ℕ) (l : Link) (r : SessionRow)
    → (d.transcripts child).messages ≡ none
    → is_error r.status ≡ false
    → leb empty_stop_terminal_streak r.empty_stop_streak ≡ false
    → ((ended_link d child l r false).state ≡ State.completed)
      × ((ended_link d child l r false).outcome ≡ Outcome.error)
unfolding ended_link fails derive_outcome outcome_of_transcript
ended_link-unreadable d child l r unreadable no_error streak = ground arith

deliver_invalid :
    (now : ℕ) (l : Link) (i : Input) (d : Db)
    → d.links l.child_id ≡ some l
    → is_delivered l ≡ false
    → valid_terminal_link l.state l.outcome ≡ false
    → deliver now l i d ≡ err link_changed
unfolding deliver
deliver_invalid now l i d stored fresh invalid = ground arith

-- The defect: if the transcript of a child that ended without an error cannot be read at that
-- moment, and the child's empty answers are not what ended it, Finalize writes the state
-- `completed` with the outcome `error`, and no delivery of that link succeeds: each is refused as
-- changed before delivery. The link must be one that was not delivered.
pub finalize-deliver_unreadable :
    (child now : ℕ) (d d' : Db) (l : Link) (r : SessionRow) (i : Input)
    → (d.transcripts child).messages ≡ none
    → d.sessions.rows child ≡ some r
    → is_error r.status ≡ false
    → leb empty_stop_terminal_streak r.empty_stop_streak ≡ false
    → finalize child false d ≡ ok (d', some l)
    → l.child_id ≡ child
    → is_delivered l ≡ false
    → (l.state ≡ State.completed)
      × (l.outcome ≡ Outcome.error)
      × (deliver now l i d' ≡ err link_changed)
unfolding valid_terminal_link
finalize-deliver_unreadable child now d d' l r i unreadable found no_error streak h own fresh =
    let (row, q, _, found', same, stored) = finalize_ended child false d d' l h in
    let same_row : q ≡ r = cc in
    let (st, out) =
      ended_link-unreadable d child row q unreadable (rw same_row no_error) (rw same_row streak) in
    let st' : l.state ≡ State.completed = cc in
    let out' : l.outcome ≡ Outcome.error = cc in
    (st', out', deliver_invalid now l i d' (simp own stored) fresh (rw (st', out')))

-- What a delivery changes if it wins.
pub record Delivers (now : ℕ) (l : Link) (i : Input) (d d' : Db) : Type 0 where
  pub row : Link
  pub found : d.links l.child_id ≡ some row
  pub same_parent : row.parent_id ≡ l.parent_id
  pub same_activation : row.activation_seq ≡ l.activation_seq
  pub undelivered : is_delivered row ≡ false
  pub ended : valid_terminal_link row.state l.outcome ≡ true
  pub queued : d'.sessions.inbox ≡ record { input = i; state = pending } ∷ d.sessions.inbox
  pub acked : d'.links l.child_id ≡ some (record row { delivered_at = some now })
  pub sessions_kept : d'.sessions.rows ≡ d.sessions.rows
  pub others_kept : (j : ℕ) → (j ≡ l.child_id) ⊎ (d'.links j ≡ d.links j)

-- A delivery that wins found the child's link undelivered, in the activation of the snapshot, under
-- the same parent and ended; it has put exactly the given input into the inbox, marked that link
-- delivered, and changed no other link and no session.
pub deliver-Delivers :
    (now : ℕ) (l : Link) (i : Input) (d d' : Db)
    → deliver now l i d ≡ ok (d', true)
    → Delivers now l i d d'
unfolding deliver queue_completion enqueue_tx insert_enqueued_input
deliver-Delivers now l i d d' h =
    let (row, e) = found_row (d.links l.child_id) refl in
    record {
      row = row;
      found = e;
      same_parent = ground arith;
      same_activation = ground arith;
      undelivered = ground arith;
      ended = ground arith;
      queued = ground arith;
      acked = ground arith;
      sessions_kept = ground arith;
      others_kept = λ j. ground arith;
    }
  where
    found_row :
        (o : Option Link) → d.links l.child_id ≡ o → (row : Link) × (d.links l.child_id ≡ some row)
    found_row none e = ground arith
    found_row (some row) e = (row, e)
