-- ===== src/SessionStore.antt =====
-- internal/sessionstore: the rows that the subagent ledger shares with the rest of the daemon
-- (sessions and their inbox), and the statements that change them. A table keyed by a session id
-- is a function, a table read in insertion order is a list, newest row first. A statement either
-- succeeds or returns an error, on which the transaction around it leaves every table as it was.
-- Errors of the database itself are not modelled.
use coagent.Base.{
  ℕ, suc, Bool, true, false, not, ◌&&◌, ◌||◌, List, ◌∷◌, map, Option, none, some, any, String,
  str_eq, ◌==◌, if◌then◌else◌,
}

pub data SessionStatus : Type 0 where
  active completed suspended error stopping stopped terminating killed : SessionStatus

pub data InputSource : Type 0 where
  user agent process subagent schedule call_result : InputSource

pub data InputState : Type 0 where
  pending accepted handled rejected cancelled : InputState

-- The keys `subagent:child:seq` and `task:child:seq`.
pub data DeliveryKey : Type 0 where
  subagent_key task_key : ℕ → ℕ → DeliveryKey

pub record SessionRow : Type 0 where
  pub parent_id : ℕ
  pub root_id : ℕ
  pub status : SessionStatus
  pub is_killed : Bool  -- killed_at IS NOT NULL
  pub iteration : ℕ
  pub empty_stop_streak : ℕ

pub record Input : Type 0 where
  pub session_id : ℕ
  pub source : InputSource
  pub content : String
  pub call_id : String
  pub tool_id : String
  pub delivery_key : Option DeliveryKey

pub record InboxRow : Type 0 where
  pub input : Input
  pub state : InputState

pub data Error : Type 0 where
  empty_content incomplete_call_result session_not_accepting session_not_found : Error
  link_not_found transcript_not_loaded empty_link_state wrong_parent wrong_delivery_mode
        link_changed :
      Error

pub data Result {ℓ} (A : Type ℓ) : Type ℓ where
  ok : A → Result A
  err : Error → Result A

infixl 5 ◌>>=◌
abbrev pub ◌>>=◌ {ℓ κ} : {A : Type ℓ} {B : Type κ} → Result A → (A → Result B) → Result B
ok a >>= f = f a
err e >>= f = err e

abbrev pub or_fail {ℓ} : {A : Type ℓ} → Option A → Error → Result A
or_fail none e = err e
or_fail (some a) e = ok a

-- A keyed table with one row changed.
abbrev pub put {ℓ} : {A : Type ℓ} → (ℕ → A) → ℕ → A → ℕ → A
put t k v j = if j == k then v else t j

abbrev pub is_pending : InputState → Bool
is_pending pending = true
is_pending _ = false

abbrev pub key_eq : DeliveryKey → DeliveryKey → Bool
key_eq (subagent_key a b) (subagent_key c e) = a == c && b == e
key_eq (task_key a b) (task_key c e) = a == c && b == e
key_eq _ _ = false

abbrev pub has_key : Option DeliveryKey → DeliveryKey → Bool
has_key none k = false
has_key (some j) k = key_eq j k

abbrev pub is_producer : InputSource → Bool
is_producer process = true
is_producer subagent = true
is_producer _ = false

-- `killed || status == killed || status == terminating || (status == stopping && !producer)`.
abbrev pub is_blocked : SessionStatus → Bool → Bool → Bool
is_blocked killed gone producer = true
is_blocked terminating gone producer = true
is_blocked stopping gone producer = gone || not producer
is_blocked _ gone producer = gone

unfoldable pub enqueue_lifecycle_accepts : InputSource → SessionStatus → Bool → Result Bool
enqueue_lifecycle_accepts source status gone =
    if not (is_blocked status gone (is_producer source))
    then ok true
    else if is_producer source
    then ok false
    else err session_not_accepting

abbrev pub is_call_result : InputSource → Bool
is_call_result call_result = true
is_call_result _ = false

-- Every constructor of `InputSource` is a valid source, so the default case does not arise.
unfoldable pub validate_enqueue_input : Input → Result (Unit {0})
validate_enqueue_input i =
    if str_eq i.content ""
    then err empty_content
    else if is_call_result i.source && (str_eq i.call_id "" || str_eq i.tool_id "")
    then err incomplete_call_result
    else ok tt

-- The two tables, and the next id that SQLite's AUTOINCREMENT gives.
pub record Sessions : Type 0 where
  pub rows : ℕ → Option SessionRow
  pub inbox : List InboxRow
  pub next_id : ℕ

abbrev pub is_row_of : ℕ → DeliveryKey → InboxRow → Bool
is_row_of id k r = r.input.session_id == id && has_key r.input.delivery_key k

-- `SELECT EXISTS(... WHERE session_id = ? AND delivery_key = ?)`.
unfoldable pub delivered_before : ℕ → DeliveryKey → Sessions → Bool
delivered_before id k s = any (is_row_of id k) s.inbox

abbrev pub duplicate : Input → Sessions → Bool
duplicate i s = elim i.delivery_key [ none ↦ false | some k ↦ delivered_before i.session_id k s ]

unfoldable pub insert_enqueued_input : Input → Sessions → Sessions
insert_enqueued_input i s = record s { inbox = record { input = i; state = pending } ∷ s.inbox }

-- `EnqueueTx` for input from an agent, a process, a subagent or a task call: what the function also
-- does for a user's and a schedule's input (titles, budgets, episodes) is not modelled. The flag is
-- the field `Applied` of its result.
unfoldable pub enqueue_tx : Input → Sessions → Result (Sessions × Bool)
enqueue_tx i s = validate_enqueue_input i >>= λ _.
    or_fail (s.rows i.session_id) session_not_accepting >>= λ r.
    enqueue_lifecycle_accepts i.source r.status r.is_killed >>= λ accepting.
    if not accepting
    then ok (s, false)
    else if duplicate i s
    then ok (s, false)
    else ok (insert_enqueued_input i s, true)

-- `UPDATE sessions SET status = ? WHERE id = ?`; the status is one of the constructors, so valid.
unfoldable pub update_session_status_tx : ℕ → SessionStatus → Sessions → Result Sessions
update_session_status_tx id status s = elim (s.rows id) [
  | none ↦ err session_not_found
  | some r ↦ ok (record s { rows = put s.rows id (some (record r { status = status })) })
]

-- The row belongs to the session, or to a descendant of the root that it is.
abbrev pub in_killed_tree : ℕ → Bool → (ℕ → Option SessionRow) → ℕ → Bool
in_killed_tree id is_root rows j = elim (rows j) [
  | none ↦ false
  | some r ↦ j == id || is_root && r.root_id == id
]

abbrev pub cancel_row : ℕ → Bool → (ℕ → Option SessionRow) → InboxRow → InboxRow
cancel_row id is_root rows r =
    if is_pending r.state && in_killed_tree id is_root rows r.input.session_id
    then record r { state = cancelled }
    else r

unfoldable pub cancel_pending_input_tree : ℕ → Bool → Sessions → Sessions
cancel_pending_input_tree id is_root s = record s {
  inbox = map (cancel_row id is_root s.rows) s.inbox;
}

unfoldable pub mark_session_killed_tx : ℕ → Sessions → Result Sessions
mark_session_killed_tx id s = elim (s.rows id) [
  | none ↦ err session_not_found
  | some r ↦ ok (
      cancel_pending_input_tree id (r.parent_id == 0)
        (record s { rows = put s.rows id (some (record r { status = killed; is_killed = true })) }))
]

abbrev pub can_spawn : SessionStatus → Bool
can_spawn killed = false
can_spawn terminating = false
can_spawn stopping = false
can_spawn stopped = false
can_spawn _ = true

-- `INSERT INTO sessions ... SELECT ... FROM sessions WHERE id = parent AND killed_at IS NULL AND
-- status NOT IN (...)`, and `requireOneSessionUpdate`. A new session is active.
unfoldable pub create_subagent_session_tx : ℕ → ℕ → Sessions → Result (Sessions × ℕ)
create_subagent_session_tx parent root s = elim (s.rows parent) [
  | none ↦ err session_not_found
  | some p ↦
      if not p.is_killed && can_spawn p.status
      then ok (
        record s {
          rows = put s.rows s.next_id (
              some (record {
                parent_id = parent;
                root_id = root;
                status = active;
                is_killed = false;
                iteration = 0;
                empty_stop_streak = 0;
              }));
          next_id = suc s.next_id;
        },
        s.next_id,
      )
      else err session_not_found
]
