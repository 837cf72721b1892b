-- ===== src/Budget/Park.antt =====
-- internal/sessionstore/budget_park_store.go, with the releases of budget_output_store.go and
-- enqueue.go: a budget that fired is drained by its owner and parked, or released. Each is one
-- statement that compares before it writes.
use coagent.Base.{
  ℕ, Bool, true, false, not, ◌&&◌, Option, none, some, String, str_eq, ◌==◌, if◌then◌else◌,
}
use coagent.Budget.{
  State, released, ReleasedReason, cleared, resumed, completed, errored, stopped, killed, replaced,
  ParkPhase, unparked, requested, draining, parked, ParkOwner, budget_owner, Record, conflict,
  Attempt, ok, fails, ◌>>=◌, or_fails,
}
use coagent.Budget.Store.{Db, write_budget}
use coagent.Budget.Observe.{is_fired}

abbrev pub owner_eq : Option ParkOwner → Option ParkOwner → Bool
owner_eq none none = true
owner_eq (some (budget_owner r g)) (some (budget_owner s h)) = r == s && g == h
owner_eq _ _ = false

abbrev pub phase_eq : ParkPhase → ParkPhase → Bool
phase_eq unparked unparked = true
phase_eq requested requested = true
phase_eq draining draining = true
phase_eq parked parked = true
phase_eq _ _ = false

-- The WHERE clause of both changes of phase.
abbrev pub owns_phase : ℕ → Option ParkOwner → ParkPhase → Record → Bool
owns_phase generation owner phase r =
    r.generation == generation
    && is_fired r.state
    && phase_eq r.park_phase phase
    && owner_eq r.park_owner owner

unfoldable pub begin_budget_drain : Db → ℕ → ℕ → Option ParkOwner → Attempt Db
unfolding write_budget
begin_budget_drain d root generation owner = or_fails (d.budgets root) conflict >>= λ r.
    if owns_phase generation owner requested r
    then write_budget d (record r { park_phase = draining })
    else fails conflict

unfoldable pub mark_budget_parked : Db → ℕ → ℕ → Option ParkOwner → Attempt Db
unfolding write_budget
mark_budget_parked d root generation owner = or_fails (d.budgets root) conflict >>= λ r.
    if owns_phase generation owner draining r
    then write_budget d (record r { park_phase = parked; park_owner = none })
    else fails conflict

-- `validBudgetReleaseReason`, with the reason that a valid text names.
abbrev pub release_reason_of : String → Option ReleasedReason
release_reason_of text =
    if str_eq text "cleared"
    then some cleared
    else if str_eq text "resumed"
    then some resumed
    else if str_eq text "completed"
    then some completed
    else if str_eq text "error"
    then some errored
    else if str_eq text "stopped"
    then some stopped
    else if str_eq text "killed"
    then some killed
    else if str_eq text "replaced"
    then some replaced
    else none

abbrev pub reason_eq : ReleasedReason → ReleasedReason → Bool
reason_eq cleared cleared = true
reason_eq resumed resumed = true
reason_eq completed completed = true
reason_eq errored errored = true
reason_eq stopped stopped = true
reason_eq killed killed = true
reason_eq replaced replaced = true
reason_eq _ _ = false

abbrev pub has_reason : Option ReleasedReason → ReleasedReason → Bool
has_reason none reason = false
has_reason (some r) reason = reason_eq r reason

abbrev pub is_released : State → Bool
is_released released = true
is_released _ = false

abbrev pub released_record : ℕ → ReleasedReason → Record → Record
released_record now reason r = record r {
  state = released;
  released_at = some now;
  released_reason = some reason;
  park_owner = none;
}

-- Releasing again for the same reason changes nothing.
abbrev pub release_row : Db → ℕ → ℕ → ReleasedReason → Record → Attempt Db
release_row d now generation reason r =
    if not (r.generation == generation)
    then fails conflict
    else if not (is_released r.state) && not (phase_eq r.park_phase draining)
    then write_budget d (released_record now reason r)
    else if is_released r.state && has_reason r.released_reason reason
    then ok d
    else fails conflict

unfoldable pub release_budget : Db → ℕ → ℕ → ℕ → String → Attempt Db
unfolding write_budget
release_budget d now root generation reason =
    or_fails (release_reason_of reason) conflict >>= λ why.
    or_fails (d.budgets root) conflict >>= λ r. release_row d now generation why r

-- `prepareManagerModelInputTx` on the budget: an input of the manager resumes a session that parked.
-- The start of its episode is a column of another table.
unfoldable pub prepare_manager_model_input : Db → ℕ → ℕ → Attempt Db
unfolding write_budget
prepare_manager_model_input d now root = elim (d.budgets root) [
  | none ↦ ok d
  | some r ↦ if not (is_fired r.state) then ok d else elim r.park_phase [
    | requested ↦ write_budget d (released_record now resumed r)
    | parked ↦ write_budget d (released_record now resumed r)
    | draining ↦ fails conflict
    | unparked ↦ fails conflict
  ]
]
