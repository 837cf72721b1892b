-- ===== src/Subagent/Once.antt =====
-- internal/subagent/transitions.go: no activation is delivered twice.
use coagent.Base.{
  ℕ, suc, ◌<◌, ◌≡◌, ◌⊎◌, Bool, true, false, List, [], ◌∷◌, Option, none, some, arith, String,
}
use coagent.SessionStore.{
  SessionStatus, agent, Sessions, Input, Result, ok, err, enqueue_tx, update_session_status_tx,
  mark_session_killed_tx, create_subagent_session_tx, cancel_pending_input_tree,
  insert_enqueued_input,
}
use coagent.Subagent.{Link}
use coagent.Subagent.Ledger.{
  Db, Create, create, mark_link_stopped, make_stopped_link_resumable, is_delivered, enqueue_initial,
}
use coagent.Subagent.Transitions.{
  finalize, finalize_row, ended_link, fail_resume, failed_link, kill, resume, rearm,
}
use coagent.Subagent.Delivery.{deliver, queue_completion}
use coagent.Subagent.Steps.{
  Op, creates, stops, detaches, kills, resumes, rearms, finalizes, fails_resume, delivers, others,
  step, run, after, after_only,
}

-- The row's activation is a later one than `seq`, or it is that one and was delivered.
abbrev pub IsPast : ℕ → Option Link → Type 0
IsPast seq none = ⊥
IsPast seq (some l) =
    ((l.activation_seq ≡ seq) × (is_delivered l ≡ true)) ⊎ (seq < l.activation_seq)

abbrev pub IsSpent : ℕ → ℕ → Db → Type 0
IsSpent child seq d = IsPast seq (d.links child) × (child < d.sessions.next_id)

-- A successful transaction on the sessions keeps the next id; making a session raises it.
abbrev Keeps : Sessions → Result Sessions → Type 0
Keeps s (ok t) = t.next_id ≡ s.next_id
Keeps s (err e) = Unit

abbrev KeepsToo : Sessions → Result (Sessions × Bool) → Type 0
KeepsToo s (ok (t, b)) = t.next_id ≡ s.next_id
KeepsToo s (err e) = Unit

abbrev pub Makes : Sessions → Result (Sessions × ℕ) → Type 0
Makes s (ok (t, id)) = (t.next_id ≡ suc s.next_id) × (id ≡ s.next_id)
Makes s (err e) = Unit

update_session_status_tx-Keeps :
    (id : ℕ) (status : SessionStatus) (s : Sessions)
    → Keeps s (update_session_status_tx id status s)
unfolding update_session_status_tx
update_session_status_tx-Keeps id status s = ground arith

mark_session_killed_tx-Keeps : (id : ℕ) (s : Sessions) → Keeps s (mark_session_killed_tx id s)
unfolding mark_session_killed_tx cancel_pending_input_tree
mark_session_killed_tx-Keeps id s = ground arith

enqueue_tx-Keeps : (i : Input) (s : Sessions) → KeepsToo s (enqueue_tx i s)
unfolding enqueue_tx insert_enqueued_input
enqueue_tx-Keeps i s = ground arith

pub create_subagent_session_tx-Makes :
    (parent root : ℕ) (s : Sessions) → Makes s (create_subagent_session_tx parent root s)
unfolding create_subagent_session_tx
create_subagent_session_tx-Makes parent root s = ground arith

enqueue_initial-Keeps :
    (c : Create) (child : ℕ) (s : Sessions) → Keeps s (enqueue_initial c child s)
unfolding enqueue_initial
enqueue_initial-Keeps c child s = ground (
  arith,
  enqueue_tx-Keeps
      (record {
        session_id = child;
        source = agent;
        content = c.initial_input;
        call_id = "";
        tool_id = "";
        delivery_key = none;
      })
      s,
)

module _ (child seq : ℕ) (d : Db) (h : IsSpent child seq d) where
  create-IsSpent : (now : ℕ) (c : Create) → IsSpent child seq (after d (create now c d))
  unfolding create
  create-IsSpent now c = grind (
    arith,
    create_subagent_session_tx-Makes c.parent_id c.root_id d.sessions,
    enqueue_initial-Keeps c,
  )

  kill-IsSpent : (j : ℕ) → IsSpent child seq (after_only d (kill j d))
  unfolding kill
  kill-IsSpent j = ground (arith, mark_session_killed_tx-Keeps j d.sessions)

  resume-IsSpent : (j : ℕ) → IsSpent child seq (after_only d (resume j d))
  unfolding resume
  resume-IsSpent j =
      ground (arith, update_session_status_tx-Keeps j SessionStatus.active d.sessions)

  rearm-IsSpent : (j : ℕ) → IsSpent child seq (after d (rearm j d))
  unfolding rearm
  rearm-IsSpent j = ground (arith, update_session_status_tx-Keeps j SessionStatus.active d.sessions)

  finalize-IsSpent : (j : ℕ) (errored : Bool) → IsSpent child seq (after d (finalize j errored d))
  unfolding finalize finalize_row ended_link
  finalize-IsSpent j errored = ground (
    arith,
    update_session_status_tx-Keeps j SessionStatus.error d.sessions,
    update_session_status_tx-Keeps j SessionStatus.completed d.sessions,
  )

  fail_resume-IsSpent :
      (j : ℕ) (reason : String) → IsSpent child seq (after d (fail_resume j reason d))
  unfolding fail_resume failed_link
  fail_resume-IsSpent j reason =
      ground (arith, update_session_status_tx-Keeps j SessionStatus.error d.sessions)

  deliver-IsSpent :
      (now : ℕ) (l : Link) (i : Input) → IsSpent child seq (after d (deliver now l i d))
  unfolding deliver queue_completion
  deliver-IsSpent now l i = ground (arith, enqueue_tx-Keeps i d.sessions)

step-IsSpent :
    (child seq : ℕ) (d : Db) (o : Op) → IsSpent child seq d → IsSpent child seq (step d o)
unfolding step mark_link_stopped make_stopped_link_resumable
step-IsSpent child seq d (creates now c) h = create-IsSpent child seq d h now c
step-IsSpent child seq d (stops j) h = ground arith
step-IsSpent child seq d (detaches j) h = ground arith
step-IsSpent child seq d (kills j) h = kill-IsSpent child seq d h j
step-IsSpent child seq d (resumes j) h = resume-IsSpent child seq d h j
step-IsSpent child seq d (rearms j) h = rearm-IsSpent child seq d h j
step-IsSpent child seq d (finalizes j errored) h = finalize-IsSpent child seq d h j errored
step-IsSpent child seq d (fails_resume j reason) h = fail_resume-IsSpent child seq d h j reason
step-IsSpent child seq d (delivers now l i) h = deliver-IsSpent child seq d h now l i
step-IsSpent child seq d (others s p t) h = ground arith

run-IsSpent :
    (child seq : ℕ) (d : Db) (os : List Op) → IsSpent child seq d → IsSpent child seq (run d os)
unfolding run
run-IsSpent child seq d [] h = h
run-IsSpent child seq d (o ∷ os) h =
    run-IsSpent child seq (step d o) os (step-IsSpent child seq d o h)

deliver-IsSpent_won :
    (now : ℕ) (l : Link) (i : Input) (d d' : Db)
    → deliver now l i d ≡ ok (d', true)
    → l.child_id < d.sessions.next_id
    → IsSpent l.child_id l.activation_seq d'
unfolding deliver queue_completion
deliver-IsSpent_won now l i d d' h fresh = ground (arith, enqueue_tx-Keeps i d.sessions)

deliver_spent :
    (now : ℕ) (l : Link) (i : Input) (d d' : Db) (won : Bool)
    → IsSpent l.child_id l.activation_seq d
    → deliver now l i d ≡ ok (d', won)
    → (won ≡ false) × (d' ≡ d)
unfolding deliver
deliver_spent now l i d d' won h e = ground arith

-- At most once: after a delivery has put a completion into the parent's inbox, no delivery of the
-- same activation of that child, by whatever snapshot of its link, puts one there again. It answers
-- that nothing was won and leaves every table as it is, whatever the ledger and the rest of the
-- daemon did in between: a later activation has a later sequence number. The child's session id
-- must have been given out.
pub deliver_once :
    (now later : ℕ) (l k : Link) (i j : Input) (d d' e : Db) (os : List Op) (won : Bool)
    → l.child_id < d.sessions.next_id
    → deliver now l i d ≡ ok (d', true)
    → k.child_id ≡ l.child_id
    → k.activation_seq ≡ l.activation_seq
    → deliver later k j (run d' os) ≡ ok (e, won)
    → (won ≡ false) × (e ≡ run d' os)
deliver_once now later l k i j d d' e os won fresh first same_child same_seq second =
    deliver_spent later k j (run d' os) e won
      (rw (same_child, same_seq)
        (run-IsSpent l.child_id l.activation_seq d' os
          (deliver-IsSpent_won now l i d d' first fresh)))
      second
