-- ===== src/Budget/Store.antt =====
-- internal/sessionstore: the rows that the statements on budgets read and change, and the outputs and
-- activations that they share with the rest of the store. An error rolls the transaction back, so an
-- operation gives the tables only where it succeeds. Times of rows without a decision are left out.
use coagent.Base.{
  ℕ, Bool, true, false, not, ◌&&◌, ◌||◌, List, ◌∷◌, Option, none, some, String, any, str_eq, leb,
  ltb, ◌==◌, if◌then◌else◌,
}
use coagent.SessionStore.{SessionStatus}
use coagent.Budget.{
  armed, fired, released, ParkPhase, unparked, parked, ParkOwner, Record, session_not_found,
  owner_not_root, ownerless, not_writable, conflict, check_failed, Attempt, ok, fails, ◌>>=◌,
  or_fails, require,
}

-- A row of `sessions`, with the attribute `manager_id` and the cost of the messages of its tree.
pub record Session : Type 0 where
  pub parent_id : ℕ
  pub manager_id : String
  pub status : SessionStatus
  pub is_killed : Bool  -- killed_at IS NOT NULL
  pub tree_cost : ℕ

-- The keys `budget:generation:checkpoint` and `tool:call:direct:0`.
pub data SourceKey : Type 0 where
  checkpoint_key : ℕ → SourceKey
  direct_key : String → SourceKey

pub record Output : Type 0 where
  pub session_id : ℕ
  pub source_key : SourceKey

pub data ActivationState : Type 0 where
  pending consumed expired : ActivationState

pub record Activation : Type 0 where
  pub session_id : ℕ
  pub tool_id : String
  pub command : String
  pub activation_state : ActivationState
  pub tool_call_id : String  -- COALESCE(tool_call_id, '')

pub record Db : Type 0 where
  pub sessions : ℕ → Option Session
  pub budgets : ℕ → Option Record
  pub outbox : List Output
  pub activations : ℕ → Option Activation

abbrev pub put {ℓ} : {A : Type ℓ} → (ℕ → A) → ℕ → A → ℕ → A
put t k v j = if j == k then v else t j

-- `outputOwner`.
unfoldable pub output_owner : Db → ℕ → Attempt String
output_owner d id = elim (d.sessions id) [
  | none ↦ fails session_not_found
  | some s ↦
      if not (s.parent_id == 0)
      then fails owner_not_root
      else if str_eq s.manager_id ""
      then fails ownerless
      else ok s.manager_id
]

abbrev pub is_closed_status : SessionStatus → Bool
is_closed_status SessionStatus.stopping = true
is_closed_status SessionStatus.terminating = true
is_closed_status SessionStatus.killed = true
is_closed_status _ = false

unfoldable pub output_session_writable : Db → ℕ → Attempt (Unit {0})
output_session_writable d id = elim (d.sessions id) [
  | none ↦ fails session_not_found
  | some s ↦ if s.is_killed || is_closed_status s.status then fails not_writable else ok tt
]

pub data CommitMode : Type 0 where
  commit_lifecycle commit_loop : CommitMode

abbrev pub source_key_eq : SourceKey → SourceKey → Bool
source_key_eq (checkpoint_key a) (checkpoint_key b) = a == b
source_key_eq (direct_key a) (direct_key b) = str_eq a b
source_key_eq _ _ = false

abbrev pub is_output : ℕ → SourceKey → Output → Bool
is_output id key o = o.session_id == id && source_key_eq o.source_key key

-- The field `Existing` of a commit, which a session without a manager does not get.
pub data OutputCommit : Type 0 where
  no_commit new_output existing_output : OutputCommit

-- The unique index keeps a second row with the key of a first one out.
unfoldable pub insert_row : Db → ℕ → SourceKey → Db × OutputCommit
insert_row d id key =
    if any (is_output id key) d.outbox
    then (d, existing_output)
    else (record d { outbox = record { session_id = id; source_key = key } ∷ d.outbox }, new_output)

-- What `insertOutputTx` does once the owner is known, or not.
abbrev pub insert_owned :
    Attempt String → Db → ℕ → SourceKey → CommitMode → Attempt (Db × OutputCommit)
insert_owned (fails owner_not_root) d id key mode = ok (d, no_commit)
insert_owned (fails ownerless) d id key mode = ok (d, no_commit)
insert_owned (fails e) d id key mode = fails e
insert_owned (ok owner) d id key commit_lifecycle = ok (insert_row d id key)
insert_owned (ok owner) d id key commit_loop =
    output_session_writable d id >>= λ _. ok (insert_row d id key)

-- `insertOutputTx` for a message, which `validateLifecycleTarget` lets pass.
unfoldable pub insert_output_tx : Db → ℕ → SourceKey → CommitMode → Attempt (Db × OutputCommit)
unfolding output_owner insert_row output_session_writable
insert_output_tx d id key mode = insert_owned (output_owner d id) d id key mode

pub record ActivationBinding : Type 0 where
  pub input_id : ℕ
  pub session_id : ℕ
  pub tool_id : String
  pub command : String
  pub tool_call_id : String

abbrev pub is_granted : Activation → ActivationBinding → Bool
is_granted a b =
    a.session_id == b.session_id && str_eq a.tool_id b.tool_id && str_eq a.command b.command

abbrev pub is_complete : ActivationBinding → Bool
is_complete b = not (
    b.input_id == 0
    || b.session_id == 0
    || str_eq b.tool_id ""
    || str_eq b.command ""
    || str_eq b.tool_call_id "")

-- A pending grant is consumed, and one consumed by the same call stays.
unfoldable pub consume_activation : Activation → ActivationBinding → Attempt Activation
consume_activation a b = if not (is_granted a b) then fails conflict else elim a.activation_state [
  | pending ↦ ok (record a { activation_state = consumed; tool_call_id = b.tool_call_id })
  | consumed ↦ if str_eq a.tool_call_id b.tool_call_id then ok a else fails conflict
  | expired ↦ fails conflict
]

unfoldable pub consume_activation_tx : Db → ActivationBinding → Attempt Db
unfolding consume_activation
consume_activation_tx d b = require (is_complete b) conflict >>= λ _.
    or_fails (d.activations b.input_id) conflict >>= λ a. consume_activation a b >>= λ c.
    ok (record d { activations = put d.activations b.input_id (some c) })

abbrev pub max_cost : ℕ
max_cost = 1000000000000000000000000

abbrev pub max_cost_limit : ℕ
max_cost_limit = 1000000000000000000

abbrev is_within : ℕ → ℕ → Option ℕ → Bool
is_within low high none = true
is_within low high (some n) = leb low n && leb n high

abbrev pub is_null {ℓ} : {A : Type ℓ} → Option A → Bool
is_null none = true
is_null (some a) = false

abbrev pub is_limited : Record → Bool
is_limited r = not (is_null r.cost_limit_usd) || not (is_null r.duration_seconds)

-- Whether the phase and the owner of a fired budget go together.
abbrev is_parking : ParkPhase → Option ParkOwner → Bool
is_parking unparked owner = false
is_parking parked owner = is_null owner
is_parking _ owner = not (is_null owner)

abbrev is_unparked : ParkPhase → Bool
is_unparked unparked = true
is_unparked _ = false

-- The CHECK over the whole row.
abbrev pub check_state : Record → Bool
check_state r = elim r.state [
  | armed ↦
      is_limited r
      && is_null r.fired_at
      && is_null r.released_at
      && is_null r.fired_reason
      && is_null r.released_reason
      && is_null r.observed_cost_usd
      && is_unparked r.park_phase
      && is_null r.park_owner
  | fired ↦
      is_limited r
      && not (is_null r.fired_at)
      && is_null r.released_at
      && not (is_null r.fired_reason)
      && is_null r.released_reason
      && not (is_null r.observed_cost_usd)
      && is_parking r.park_phase r.park_owner
  | released ↦
      not (is_null r.released_at) && not (is_null r.released_reason) && is_null r.park_owner
]

-- The CHECK constraints of `session_budgets`, for costs that are not negative.
abbrev pub check_budget : Record → Bool
check_budget r =
    ltb 0 r.generation
    && leb r.baseline_cost_usd max_cost
    && is_within 1 max_cost_limit r.cost_limit_usd
    && is_within 60 31536000 r.duration_seconds
    && is_within 0 max_cost r.observed_cost_usd
    && check_state r

-- A row that fails the CHECK is refused.
unfoldable pub write_budget : Db → Record → Attempt Db
write_budget d r =
    if check_budget r
    then ok (record d { budgets = put d.budgets r.root_session_id (some r) })
    else fails check_failed
