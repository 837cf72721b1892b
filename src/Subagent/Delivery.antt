-- ===== src/Subagent/Delivery.antt =====
-- internal/subagent/transitions.go: a completion is delivered to the parent's inbox at most once.
use coagent.Base.{ℕ, Bool, true, false, not, ◌||◌, none, some, String, ◌==◌, if◌then◌else◌}
use coagent.SessionStore.{
  SessionStatus, subagent, call_result, subagent_key, task_key, SessionRow, Input, Sessions,
  link_not_found, wrong_parent, wrong_delivery_mode, link_changed, session_not_found, Result, ok,
  err, ◌>>=◌, or_fail, enqueue_tx,
}
use coagent.Subagent.{Link, valid_terminal_link}
use coagent.Subagent.Ledger.{Db, set_link, tool_id_task, is_delivered}

abbrev pub root_status_skips : SessionStatus → Bool
root_status_skips SessionStatus.terminating = true
root_status_skips SessionStatus.killed = true
root_status_skips _ = false

abbrev pub parent_status_skips : SessionStatus → Bool
parent_status_skips SessionStatus.stopping = true
parent_status_skips s = root_status_skips s

-- `CASE WHEN parent.parent_id = 0 THEN parent.id ELSE parent.root_id END`.
abbrev pub root_id_of : ℕ → SessionRow → ℕ
root_id_of id p = if p.parent_id == 0 then id else p.root_id

-- The query on the parent and its root; no row is an error.
unfoldable pub skips_parent : ℕ → Sessions → Result Bool
skips_parent parent s = or_fail (s.rows parent) session_not_found >>= λ p.
    or_fail (s.rows (root_id_of parent p)) session_not_found >>= λ r.
    ok
      (p.is_killed || (parent_status_skips p.status || (r.is_killed || root_status_skips r.status)))

-- The input is queued unless the parent is skipped.
unfoldable pub queue_completion : Bool → Input → Sessions → Result (Sessions × Bool)
queue_completion skip i s = if skip then ok (s, false) else enqueue_tx i s

abbrev pub mode_eq : Bool → Bool → Bool
mode_eq true b = b
mode_eq false b = not b

-- The link was delivered, or another activation has begun since `link` was read.
abbrev pub is_settled : Link → Link → Bool
is_settled row link = is_delivered row || not (row.activation_seq == link.activation_seq)

-- `deliver`, from the snapshot `link` of a row that may have changed since. The update that follows
-- the queries finds the row as they read it, so it changes that row.
unfoldable pub deliver : ℕ → Link → Input → Db → Result (Db × Bool)
deliver now link i d = elim (d.links link.child_id) [
  | none ↦ err link_not_found
  | some row ↦
      if not (row.parent_id == link.parent_id)
      then err wrong_parent
      else if is_settled row link
      then ok (d, false)
      else if not (mode_eq row.blocking link.blocking)
          || not (valid_terminal_link row.state link.outcome)
      then err link_changed
      else (skips_parent link.parent_id d.sessions >>= λ skip.
          queue_completion skip i d.sessions >>= λ q. ok (
            set_link (record d { sessions = q.0 }) link.child_id
                (record row { delivered_at = some now }),
            q.1,
          ))
]

-- The text that `formatBackgroundCompletion` makes of the link is a parameter.
module _ (format : Link → ℕ → String) where
  unfoldable pub deliver_background_completion : ℕ → Link → ℕ → Db → Result (Db × Bool)
  deliver_background_completion now link iterations d =
      if link.blocking
      then err wrong_delivery_mode
      else deliver now link
          (record {
            session_id = link.parent_id;
            source = subagent;
            content = format link iterations;
            call_id = "";
            tool_id = "";
            delivery_key = some (subagent_key link.child_id link.activation_seq);
          })
          d

abbrev pub completion_input : Link → String → Input
completion_input link content = record {
  session_id = link.parent_id;
  source = call_result;
  content = content;
  call_id = link.task_call_id;
  tool_id = tool_id_task;
  delivery_key = some (task_key link.child_id link.activation_seq);
}

unfoldable pub deliver_completion : ℕ → Link → String → Db → Result (Db × Bool)
deliver_completion now link content d =
    if not link.blocking
    then err wrong_delivery_mode
    else deliver now link (completion_input link content) d
