-- ===== src/Budget/Steps/Tests.antt =====
-- internal/sessionstore and internal/budget: a budget of one dollar and one minute on small tables.
use coagent.Base.{ℕ, ◌*◌, ◌≡◌, refl, false, [], ◌∷◌, Option, none, some, arith, ◌⊎◌}
use coagent.SessionStore.{active}
use coagent.Budget.{
  armed, cost_reason, unparked, draining, budget_owner, Record, minus, crossing_reason, ok, fails,
  parking, conflict, checkpoint_fired, admit,
}
use coagent.Budget.Store.{
  Session, checkpoint_key, Db, put, output_owner, insert_row, insert_output_tx, write_budget,
  new_output,
}
use coagent.Budget.Observe.{
  fired_record, fire_budget_tx, fire_budget, budget_crossing, observe_budget,
}
use coagent.Budget.Park.{begin_budget_drain}
use coagent.Budget.Mutate.{
  Mutation, validate_budget_mutation, budget_root_facts, next_budget_generation_tx,
  replay_budget_mutation, arm,
}
use coagent.Budget.Crossing.{Agrees, crossing_reason-Agrees}
use coagent.Budget.Checks.{ParkCycle, park-ParkCycle}
use coagent.Budget.Fires.{IsOwned, Fires, observe_budget-Fires}
use coagent.Budget.Steps.{observe_op, park_op, run, stay, runs}
use coagent.Budget.Steps.Effects.{IsKeyed}
use coagent.Budget.Steps.Once.{FreshAt, IsOnce, IsNew, fire_budget-IsNew}
use coagent.Budget.Steps.Lock.{run-draining, IsLater, Reaches-IsLater}

abbrev dollar : ℕ
dollar = 1000000000000

abbrev root : Session
root = record {
  parent_id = 0;
  manager_id = "m";
  status = active;
  is_killed = false;
  tree_cost = 5 * dollar;
}

abbrev one_dollar : Record
one_dollar = record {
  root_session_id = 7;
  state = armed;
  generation = 2;
  armed_at = 1000;
  baseline_cost_usd = 3 * dollar;
  cost_limit_usd = some dollar;
  duration_seconds = some 60;
  fired_at = none;
  released_at = none;
  fired_reason = none;
  released_reason = none;
  observed_cost_usd = none;
  park_phase = unparked;
  park_owner = none;
}

abbrev tables : Record → Db
tables r = record {
  sessions = put (λ id. none) 7 (some root);
  budgets = put (λ id. none) 7 (some r);
  outbox = [];
  activations = λ id. none;
}

abbrev spent_dollar : Record
spent_dollar = fired_record 2000 cost_reason (2 * dollar) one_dollar

abbrev fired_tables : Db
fired_tables = record {
  sessions = put (λ id. none) 7 (some root);
  budgets = put (put (λ id. none) 7 (some one_dollar)) 7 (some spent_dollar);
  outbox = record { session_id = 7; source_key = checkpoint_key 2 } ∷ [];
  activations = λ id. none;
}

tables-IsKeyed : (r : Record) → r.root_session_id ≡ 7 → IsKeyed (tables r)
tables-IsKeyed r seven = record { key = λ id s found. ground (arith, seven, found) }

FreshAt-empty : (o : Option Record) → FreshAt (λ g. false) o
FreshAt-empty none = λ g. refl
FreshAt-empty (some r) = (λ g lt. refl, λ at. refl)

tables-IsOnce : (r : Record) → IsOnce (tables r)
tables-IsOnce r = record { fresh = λ id. FreshAt-empty ((tables r).budgets id) }

observed : run (observe_op 2000 7 1500) (tables one_dollar) ≡ ok fired_tables
unfolding run observe_budget budget_crossing crossing_reason fire_budget_tx output_owner
    insert_output_tx insert_row write_budget
observed = refl

Reaches-IsLater_example : (s : Record) × (fired_tables.budgets 7 ≡ some s) × IsLater one_dollar s
Reaches-IsLater_example =
    Reaches-IsLater (tables one_dollar) fired_tables 7 one_dollar (tables-IsKeyed one_dollar refl)
      refl
      (runs (tables one_dollar) (tables one_dollar) fired_tables (observe_op 2000 7 1500)
        (stay (tables one_dollar)) observed)

abbrev draining_budget : Record
draining_budget = record spent_dollar { park_phase = draining }

observed_draining :
    run (observe_op 2000 7 1500) (tables draining_budget) ≡ ok (tables draining_budget)
unfolding run observe_budget
observed_draining = refl

run-draining_example :
    ((tables draining_budget).budgets 7 ≡ some draining_budget)
    ⊎ (observe_op 2000 7 1500 ≡ park_op 7 2 (some (budget_owner 7 2)))
run-draining_example =
    run-draining (observe_op 2000 7 1500) (tables draining_budget) (tables draining_budget) 7
      draining_budget (tables-IsKeyed draining_budget refl) refl refl refl observed_draining

fired_now :
    fire_budget (tables one_dollar) 2000 7 2 cost_reason (2 * dollar)
    ≡ ok (fired_tables, none, new_output)
unfolding fire_budget fire_budget_tx output_owner insert_output_tx insert_row write_budget
fired_now = refl

fire_budget-IsNew_example : IsNew (tables one_dollar) 7 2 (fired_tables, none, new_output)
fire_budget-IsNew_example =
    fire_budget-IsNew (tables one_dollar) (tables one_dollar) 2000 7 (2 * dollar) cost_reason
      one_dollar (fired_tables, none, new_output) (tables-IsKeyed one_dollar refl)
      (tables-IsOnce one_dollar) (stay (tables one_dollar)) refl refl fired_now

park-ParkCycle_example : ParkCycle (tables spent_dollar) spent_dollar 3000
park-ParkCycle_example = park-ParkCycle (tables spent_dollar) spent_dollar 3000 refl refl refl refl

owned : IsOwned (tables one_dollar) one_dollar root
owned = record {
  row = refl;
  is_root = refl;
  has_manager = refl;
  grown = omega arith;
  bounded = omega arith;
}

crossed :
    crossing_reason one_dollar (minus root.tree_cost one_dollar.baseline_cost_usd) 1500
    ≡ some cost_reason
unfolding crossing_reason
crossed = refl

observe_budget-Fires_example : Fires (tables one_dollar) 2000 1500 one_dollar spent_dollar
observe_budget-Fires_example =
    observe_budget-Fires (tables one_dollar) one_dollar root 2000 1500 cost_reason refl refl refl
      owned crossed

crossing_reason-Agrees_example :
    Agrees one_dollar
      (5 * dollar)
      1500
      (crossing_reason one_dollar (minus (5 * dollar) (3 * dollar)) 1500)
crossing_reason-Agrees_example = crossing_reason-Agrees one_dollar (5 * dollar) 1500 (omega arith)

-- A budget that fired and has not parked cannot be armed anew.
abbrev again : Mutation
again = record {
  root_session_id = 7;
  grant_session_id = 0;
  input_id = 1;
  tool_id = "set_budget";
  command = "/budget";
  tool_call_id = "c";
  cost_limit_usd = none;
  duration_seconds = some 60;
  receipt = "Budget armed";
}

not_while_parking : arm fired_tables 3000 again ≡ fails parking
unfolding arm validate_budget_mutation budget_root_facts replay_budget_mutation
    next_budget_generation_tx output_owner
not_while_parking = refl

-- A step is admitted under no fired budget.
not_admitted : admit (some spent_dollar) 3000 ≡ fails checkpoint_fired
unfolding admit
not_admitted = refl

-- A budget is drained only by the owner of its park.
other_owner : begin_budget_drain fired_tables 7 2 (some (budget_owner 7 1)) ≡ fails conflict
unfolding begin_budget_drain
other_owner = refl
