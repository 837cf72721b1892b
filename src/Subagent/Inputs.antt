-- ===== src/Subagent/Inputs.antt =====
-- internal/subagent/transitions.go and internal/sessionstore: a child's inbox at the end of its
-- activation.
use coagent.Base.{
  ℕ, ◌≡◌, refl, Bool, true, false, List, [], ◌∷◌, map, any, inl, inr, Option-cases, Option, none,
  some, arith, ◌==◌,
}
use coagent.SessionStore.{
  SessionStatus, SessionRow, Sessions, InboxRow, Result, ok, err, mark_session_killed_tx,
  cancel_pending_input_tree, cancel_row,
}
use coagent.Subagent.{State, Outcome, Link}
use coagent.Subagent.Ledger.{Db, row_is_live, has_pending, is_pending_of}
use coagent.Subagent.Transitions.{finalize, finalize_row, can_finalize, kill}

cancel_row-none_pending :
    (id : ℕ) (is_root : Bool) (rows : ℕ → Option SessionRow) (r : SessionRow)
    (inbox : List InboxRow)
    → rows id ≡ some r
    → any (is_pending_of id) (map (cancel_row id is_root rows) inbox) ≡ false
cancel_row-none_pending id is_root rows r [] h = refl
cancel_row-none_pending id is_root rows r (i ∷ inbox) h =
    ground (arith, cancel_row-none_pending id is_root rows r inbox)

-- The session is killed, with no input left pending.
abbrev IsDead : ℕ → Result Sessions → Type 0
IsDead id (ok t) = (any (is_pending_of id) t.inbox ≡ false) × (row_is_live (t.rows id) ≡ false)
IsDead id (err e) = Unit

mark_session_killed_tx-IsDead : (id : ℕ) (s : Sessions) → IsDead id (mark_session_killed_tx id s)
unfolding mark_session_killed_tx cancel_pending_input_tree
mark_session_killed_tx-IsDead id s = elim (Option-cases (s.rows id)) [
  | inl e ↦ rw (e, mark_session_killed_tx) tt
  | inr (r, e) ↦
      rw (e, mark_session_killed_tx)
        (
          cancel_row-none_pending id (r.parent_id == 0) _
              (record r { status = SessionStatus.killed; is_killed = true }) s.inbox (ground arith),
          ground arith,
        )
]

abbrev pub KilledLink : Option Link → Type 0
KilledLink none = ⊥
KilledLink (some l) = (l.state ≡ State.killed) × (l.outcome ≡ Outcome.killed)

-- Killing a child that the ledger knows leaves it no pending input, its session out of every later
-- activation's way, and its link killed, in state and outcome.
pub kill-has_pending :
    (child : ℕ) (d d' : Db)
    → kill child d ≡ ok d'
    → (has_pending child d'.sessions.inbox ≡ false)
      × (row_is_live (d'.sessions.rows child) ≡ false)
      × KilledLink (d'.links child)
unfolding kill has_pending
kill-has_pending child d d' h =
    let dead = mark_session_killed_tx-IsDead child d.sessions in
    (ground (arith, dead), ground (arith, dead), ground arith)

-- An activation is not ended over its child's head: if input is pending for the child, Finalize
-- either fails or ends nothing and changes nothing.
pub finalize-pending :
    (child : ℕ) (errored : Bool) (d d' : Db) (l : Option Link)
    → has_pending child d.sessions.inbox ≡ true
    → finalize child errored d ≡ ok (d', l)
    → (l ≡ none) × (d' ≡ d)
unfolding finalize finalize_row can_finalize
finalize-pending child errored d d' l p h = ground arith
