-- ===== src/Budget/Mutate.antt =====
-- internal/sessionstore/budget_state_store.go: the user's commands arm and clear a budget. Each is one
-- transaction with the grant that it consumes and the receipt that it leaves. The session is woken after
-- it, which is not modelled.
use coagent.Base.{
  ℕ, suc, Bool, true, false, not, ◌&&◌, ◌||◌, Option, none, some, String, str_eq, leb, ltb, ◌==◌,
  if◌then◌else◌,
}
use coagent.Budget.{
  armed, released, cleared, unparked, requested, draining, Record, conflict, parking, not_found,
  Attempt, ok, fails, ◌>>=◌, or_fails, require,
}
use coagent.Budget.Store.{
  Db, direct_key, output_owner, insert_output_tx, commit_loop, Activation, pending, consumed,
  expired, ActivationBinding, consume_activation_tx, write_budget, is_null, max_cost_limit,
}
use coagent.Budget.Observe.{is_fired}
use coagent.Budget.Park.{phase_eq, released_record}

pub record Mutation : Type 0 where
  pub root_session_id : ℕ
  pub grant_session_id : ℕ
  pub input_id : ℕ
  pub tool_id : String
  pub command : String
  pub tool_call_id : String
  pub cost_limit_usd : Option ℕ
  pub duration_seconds : Option ℕ
  pub receipt : String

-- `cmp.Or(mutation.GrantSessionID, mutation.RootSessionID)`.
abbrev pub with_grant : Mutation → Mutation
with_grant m = record m {
  grant_session_id = if m.grant_session_id == 0 then m.root_session_id else m.grant_session_id;
}

abbrev pub is_cost_limit : Option ℕ → Bool
is_cost_limit none = true
is_cost_limit (some c) = ltb 0 c && leb c max_cost_limit

abbrev pub is_duration_limit : Option ℕ → Bool
is_duration_limit none = true
is_duration_limit (some s) = leb 60 s && leb s 31536000

abbrev pub is_named : Mutation → Bool
is_named m = not (
    m.root_session_id == 0
    || str_eq m.tool_id ""
    || str_eq m.tool_call_id ""
    || str_eq m.receipt ""
    || m.input_id == 0
    || str_eq m.command "")

-- Whether there is a limit, where one is wanted, and none where none is.
abbrev pub has_limits : Bool → Mutation → Bool
has_limits true m = not (is_null m.cost_limit_usd && is_null m.duration_seconds)
has_limits false m = is_null m.cost_limit_usd && is_null m.duration_seconds

unfoldable pub validate_budget_mutation : Mutation → Bool → Attempt (Unit {0})
validate_budget_mutation m arm =
    require
      (is_named m
        && has_limits arm m
        && is_cost_limit m.cost_limit_usd
        && is_duration_limit m.duration_seconds)
      conflict

-- `budgetRootFacts`: the cost of the root's tree.
unfoldable pub budget_root_facts : Db → ℕ → Attempt ℕ
unfolding output_owner
budget_root_facts d root = output_owner d root >>= λ _. or_fails (d.sessions root) conflict >>= λ s.
    if s.parent_id == 0 then ok s.tree_cost else fails conflict

-- An armed budget and one that parked or was released can be armed anew.
unfoldable pub next_budget_generation_tx : Db → ℕ → Attempt ℕ
next_budget_generation_tx d root = elim (d.budgets root) [
  | none ↦ ok 1
  | some r ↦
      if is_fired r.state && (phase_eq r.park_phase requested || phase_eq r.park_phase draining)
      then fails parking
      else ok (suc r.generation)
]

abbrev pub is_same_grant : Activation → Mutation → Bool
is_same_grant a m =
    str_eq a.tool_call_id m.tool_call_id && str_eq a.tool_id m.tool_id && str_eq a.command m.command

abbrev pub replay_consumed : Db → Mutation → Activation → Attempt (Option Db)
replay_consumed d m a =
    if not (is_same_grant a m)
    then fails conflict
    else (or_fails (d.budgets m.root_session_id) not_found >>= λ r.
        insert_output_tx d m.grant_session_id (direct_key m.tool_call_id) commit_loop >>= λ out.
        ok (some out.0))

-- A grant that the same call consumed is replayed, and a pending one goes on to the mutation.
unfoldable pub replay_budget_mutation : Db → Mutation → Attempt (Option Db)
unfolding insert_output_tx
replay_budget_mutation d m = elim (d.activations m.input_id) [
  | none ↦ ok none
  | some a ↦ if not (a.session_id == m.grant_session_id) then ok none else elim a.activation_state [
    | pending ↦ ok none
    | consumed ↦ replay_consumed d m a
    | expired ↦ fails conflict
  ]
]

abbrev pub binding_of : Mutation → ActivationBinding
binding_of m = record {
  input_id = m.input_id;
  session_id = m.grant_session_id;
  tool_id = m.tool_id;
  command = m.command;
  tool_call_id = m.tool_call_id;
}

-- The end of both transactions: the grant is consumed, and the receipt inserted.
abbrev pub settle : Db → Mutation → Attempt Db
settle d m = consume_activation_tx d (binding_of m) >>= λ consumed_db.
    insert_output_tx consumed_db m.grant_session_id (direct_key m.tool_call_id) commit_loop
    >>= λ out. ok out.0

abbrev pub armed_record : ℕ → ℕ → ℕ → Mutation → Record
armed_record now generation baseline m = record {
  root_session_id = m.root_session_id;
  state = armed;
  generation = generation;
  armed_at = now;
  baseline_cost_usd = baseline;
  cost_limit_usd = m.cost_limit_usd;
  duration_seconds = m.duration_seconds;
  fired_at = none;
  released_at = none;
  fired_reason = none;
  released_reason = none;
  observed_cost_usd = none;
  park_phase = unparked;
  park_owner = none;
}

abbrev pub arm_new : Db → ℕ → ℕ → Mutation → Attempt Db
arm_new d now baseline m = next_budget_generation_tx d m.root_session_id >>= λ generation.
    write_budget d (armed_record now generation baseline m) >>= λ written. settle written m

-- What follows the check of a mutation: a replay ends it.
abbrev pub arm_granted : Db → ℕ → Mutation → Attempt Db
arm_granted d now m = budget_root_facts d m.root_session_id >>= λ baseline.
    replay_budget_mutation d m >>= λ replayed. elim replayed [
      | some done ↦ ok done
      | none ↦ arm_new d now baseline m
    ]

unfoldable pub arm : Db → ℕ → Mutation → Attempt Db
unfolding validate_budget_mutation budget_root_facts replay_budget_mutation
    next_budget_generation_tx write_budget consume_activation_tx insert_output_tx
arm d now m = validate_budget_mutation (with_grant m) true >>= λ _. arm_granted d now (with_grant m)

-- The row of a root without a budget.
abbrev pub absent_record : ℕ → ℕ → ℕ → Record
absent_record now root baseline = record {
  root_session_id = root;
  state = released;
  generation = 1;
  armed_at = now;
  baseline_cost_usd = baseline;
  cost_limit_usd = none;
  duration_seconds = none;
  fired_at = none;
  released_at = some now;
  fired_reason = none;
  released_reason = some cleared;
  observed_cost_usd = none;
  park_phase = unparked;
  park_owner = none;
}

abbrev pub clear_row : Db → ℕ → ℕ → ℕ → Attempt Db
clear_row d now root baseline = elim (d.budgets root) [
  | none ↦ write_budget d (absent_record now root baseline)
  | some r ↦
      if phase_eq r.park_phase draining
      then fails conflict
      else write_budget d (released_record now cleared r)
]

abbrev pub clear_granted : Db → ℕ → Mutation → Attempt Db
clear_granted d now m = budget_root_facts d m.root_session_id >>= λ baseline.
    replay_budget_mutation d m >>= λ replayed. elim replayed [
      | some done ↦ ok done
      | none ↦ (clear_row d now m.root_session_id baseline >>= λ written. settle written m)
    ]

unfoldable pub clear : Db → ℕ → Mutation → Attempt Db
unfolding validate_budget_mutation budget_root_facts replay_budget_mutation write_budget
    consume_activation_tx insert_output_tx
clear d now m =
    validate_budget_mutation (with_grant m) false >>= λ _. clear_granted d now (with_grant m)
