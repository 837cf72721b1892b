-- ===== src/Subagent/Steps.antt =====
-- internal/subagent: the ledger as a state machine. An operation is one transaction of the ledger, or
-- a change that the rest of the daemon makes to the tables which the ledger only reads or shares. A
-- transaction that returns an error is rolled back.
use coagent.Base.{ℕ, Bool, max, List, [], ◌∷◌, String}
use coagent.SessionStore.{Sessions, Input, Result, ok, err}
use coagent.Subagent.{Link}
use coagent.Subagent.Derive.{Transcript}
use coagent.Subagent.Ledger.{Db, Create, create, mark_link_stopped, make_stopped_link_resumable}
use coagent.Subagent.Transitions.{finalize, fail_resume, kill, resume, rearm}
use coagent.Subagent.Delivery.{deliver}

pub data Op : Type 0 where
  creates : ℕ → Create → Op
  stops detaches kills resumes rearms : ℕ → Op
  finalizes : ℕ → Bool → Op
  fails_resume : ℕ → String → Op
  delivers : ℕ → Link → Input → Op
  others : Sessions → (ℕ → Bool) → (ℕ → Transcript) → Op

abbrev pub after {ℓ} : {A : Type ℓ} → Db → Result (Db × A) → Db
after d (ok r) = r.0
after d (err e) = d

abbrev pub after_only : Db → Result Db → Db
after_only d (ok d') = d'
after_only d (err e) = d

-- Session ids only grow: SQLite does not give an AUTOINCREMENT id twice.
unfoldable pub step : Db → Op → Db
step d (creates now c) = after d (create now c d)
step d (stops child) = mark_link_stopped child d
step d (detaches child) = make_stopped_link_resumable child d
step d (kills child) = after_only d (kill child d)
step d (resumes child) = after_only d (resume child d)
step d (rearms child) = after d (rearm child d)
step d (finalizes child errored) = after d (finalize child errored d)
step d (fails_resume child reason) = after d (fail_resume child reason d)
step d (delivers now l i) = after d (deliver now l i d)
step d (others s processes transcripts) = record d {
  sessions = record s { next_id = max d.sessions.next_id s.next_id };
  processes = processes;
  transcripts = transcripts;
}

unfoldable pub run : Db → List Op → Db
run d [] = d
run d (o ∷ os) = run (step d o) os
