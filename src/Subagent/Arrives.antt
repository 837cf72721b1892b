-- ===== src/Subagent/Arrives.antt =====
-- internal/subagent/transitions.go: a child that has ended is heard of by a parent that is alive.
use coagent.Base.{ℕ, ◌≡◌, false, some}
use coagent.SessionStore.{SessionRow, Sessions}
use coagent.Subagent.Delivery.{root_id_of, parent_status_skips, root_status_skips}

-- The session takes a completion: it and its root are there, not killed and not on the way out.
pub record IsListening (parent : ℕ) (s : Sessions) : Type 0 where
  pub row : SessionRow
  pub root : SessionRow
  pub found : s.rows parent ≡ some row
  pub root_found : s.rows (root_id_of parent row) ≡ some root
  pub alive : row.is_killed ≡ false
  pub root_alive : root.is_killed ≡ false
  pub stays : parent_status_skips row.status ≡ false
  pub root_stays : root_status_skips root.status ≡ false
