-- ===== src/Subagent/Graph.antt =====
-- internal/subagent: the moves of a link, whatever the ledger does.
use coagent.Base.{ℕ, ◌+◌, ◌<◌, ◌≡◌, ◌⊎◌, Bool, true, false, Option, none, some, arith, String}
use coagent.SessionStore.{Input}
use coagent.Subagent.{State, Link, is_open, is_terminal}
use coagent.Subagent.Ledger.{Db, Create, create, mark_link_stopped, make_stopped_link_resumable}
use coagent.Subagent.Transitions.{
  finalize, finalize_row, can_finalize, ended_link, fail_resume, failed_link, kill, resume, rearm,
}
use coagent.Subagent.Delivery.{deliver}
use coagent.Subagent.Once.{create_subagent_session_tx-Makes}
use coagent.Subagent.Steps.{
  Op, creates, stops, detaches, kills, resumes, rearms, finalizes, fails_resume, delivers, others,
  step, after, after_only,
}

-- The same activation, as long as it was; it may have been delivered now.
abbrev pub Stays : Link → Link → Type 0
Stays l m = (m.state ≡ l.state) × (m.activation_seq ≡ l.activation_seq)

-- An open activation is stopped, or ends and is yet to be delivered.
abbrev pub Closes : Link → Link → Type 0
Closes l m =
    (is_open l.state ≡ true)
    × ((m.state ≡ State.stopped) ⊎ (is_terminal m.state ≡ true))
    × (m.activation_seq ≡ l.activation_seq)
    × (m.delivered_at ≡ l.delivered_at)

-- The child is killed, from any state.
abbrev pub Dies : Link → Link → Type 0
Dies l m =
    (m.state ≡ State.killed)
    × (m.activation_seq ≡ l.activation_seq)
    × (m.delivered_at ≡ l.delivered_at)

-- The next activation runs in the background, not delivered.
abbrev pub Restarts : Link → Link → Type 0
Restarts l m =
    (m.state ≡ State.running)
    × (m.blocking ≡ false)
    × (m.activation_seq ≡ l.activation_seq + 1)
    × (m.delivered_at ≡ none)

abbrev pub Moves : Link → Link → Type 0
Moves l m = Stays l m ⊎ (Closes l m ⊎ (Dies l m ⊎ Restarts l m))

-- The child's link is still there, under the same parent, and has made a move.
abbrev pub MovesTo : Link → Option Link → Type 0
MovesTo l none = ⊥
MovesTo l (some m) = (m.parent_id ≡ l.parent_id) × Moves l m

module _ (child : ℕ) (l : Link) (d : Db) (h : d.links child ≡ some l) where
  create-Moves :
      (now : ℕ) (c : Create)
      → child < d.sessions.next_id
      → MovesTo l ((after d (create now c d)).links child)
  unfolding create
  create-Moves now c fresh =
      ground (arith, create_subagent_session_tx-Makes c.parent_id c.root_id d.sessions)

  kill-Moves : (j : ℕ) → MovesTo l ((after_only d (kill j d)).links child)
  unfolding kill
  kill-Moves j = ground arith

  resume-Moves : (j : ℕ) → MovesTo l ((after_only d (resume j d)).links child)
  unfolding resume
  resume-Moves j = ground arith

  rearm-Moves : (j : ℕ) → MovesTo l ((after d (rearm j d)).links child)
  unfolding rearm
  rearm-Moves j = ground arith

  finalize-Moves :
      (j : ℕ) (errored : Bool) → MovesTo l ((after d (finalize j errored d)).links child)
  unfolding finalize finalize_row can_finalize ended_link is_terminal
  finalize-Moves j errored = ground arith

  fail_resume-Moves :
      (j : ℕ) (reason : String) → MovesTo l ((after d (fail_resume j reason d)).links child)
  unfolding fail_resume failed_link is_terminal
  fail_resume-Moves j reason = ground arith

  deliver-Moves :
      (now : ℕ) (k : Link) (i : Input) → MovesTo l ((after d (deliver now k i d)).links child)
  unfolding deliver
  deliver-Moves now k i = ground arith

-- Whatever the ledger or the rest of the daemon does, the link of a child stays in the ledger under
-- its parent, and makes one of four moves: its activation goes on in the same state; an open one is
-- stopped or ends; the child is killed; or the next activation begins, with the next number, in the
-- background and undelivered. The child's session id must have been given out.
pub step-Moves :
    (child : ℕ) (l : Link) (d : Db) (o : Op)
    → d.links child ≡ some l
    → child < d.sessions.next_id
    → MovesTo l ((step d o).links child)
unfolding step mark_link_stopped make_stopped_link_resumable
step-Moves child l d (creates now c) h fresh = create-Moves child l d h now c fresh
step-Moves child l d (stops j) h fresh = ground arith
step-Moves child l d (detaches j) h fresh = ground arith
step-Moves child l d (kills j) h fresh = kill-Moves child l d h j
step-Moves child l d (resumes j) h fresh = resume-Moves child l d h j
step-Moves child l d (rearms j) h fresh = rearm-Moves child l d h j
step-Moves child l d (finalizes j errored) h fresh = finalize-Moves child l d h j errored
step-Moves child l d (fails_resume j reason) h fresh = fail_resume-Moves child l d h j reason
step-Moves child l d (delivers now k i) h fresh = deliver-Moves child l d h now k i
step-Moves child l d (others s p t) h fresh = ground arith
