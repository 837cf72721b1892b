-- ===== src/Budget/Checks.antt =====
-- internal/sessionstore: a budget that fired is drained, parked and resumed. Every row that this writes
-- passes the CHECK constraints of the table.
use coagent.Base.{ℕ, ◌≡◌, refl, true, Option, none, some, arith}
use coagent.Budget.{
  fired, resumed, requested, draining, parked, ParkOwner, budget_owner, Record, ok,
}
use coagent.Budget.Store.{Db, put, check_budget, write_budget}
use coagent.Budget.Park.{
  owner_eq, begin_budget_drain, mark_budget_parked, released_record, prepare_manager_model_input,
}

owner_eq_refl : (o : Option ParkOwner) → owner_eq o o ≡ true
owner_eq_refl none = refl
owner_eq_refl (some (budget_owner r g)) = ground arith

pub write_budget-fine :
    (d : Db) (r : Record)
    → check_budget r ≡ true
    → write_budget d r ≡ ok (record d { budgets = put d.budgets r.root_session_id (some r) })
unfolding write_budget
write_budget-fine d r h = ground (arith, h)

pub put-here : (t : ℕ → Option Record) (k : ℕ) (o : Option Record) → put t k o k ≡ o
put-here t k o = ground arith

abbrev pub with_row : Db → Record → Db
with_row d r = record d { budgets = put d.budgets r.root_session_id (some r) }

abbrev draining_record : Record → Record
draining_record r = record r { park_phase = draining }

abbrev parked_record : Record → Record
parked_record r = record r { park_phase = parked; park_owner = none }

drains_check :
    (r : Record)
    → check_budget r ≡ true
    → r.state ≡ fired
    → r.park_phase ≡ requested
    → check_budget (draining_record r) ≡ true
drains_check r h was at = ground (arith, h, was, at)

parks_check :
    (r : Record) → check_budget r ≡ true → r.state ≡ fired → check_budget (parked_record r) ≡ true
parks_check r h was = ground (arith, h, was)

resumes_check :
    (r : Record) (now : ℕ)
    → check_budget r ≡ true
    → check_budget (released_record now resumed r) ≡ true
resumes_check r now h = ground (arith, h)

begin_budget_drain-ok :
    (d : Db) (r : Record)
    → d.budgets r.root_session_id ≡ some r
    → check_budget r ≡ true
    → r.state ≡ fired
    → r.park_phase ≡ requested
    → begin_budget_drain d r.root_session_id r.generation r.park_owner
      ≡ ok (with_row d (draining_record r))
unfolding begin_budget_drain
begin_budget_drain-ok d r there h was at = ground (
  arith,
  there,
  was,
  at,
  owner_eq_refl r.park_owner,
  write_budget-fine d (draining_record r) (drains_check r h was at),
)

mark_budget_parked-ok :
    (d : Db) (r : Record)
    → d.budgets r.root_session_id ≡ some r
    → check_budget r ≡ true
    → r.state ≡ fired
    → r.park_phase ≡ draining
    → mark_budget_parked d r.root_session_id r.generation r.park_owner
      ≡ ok (with_row d (parked_record r))
unfolding mark_budget_parked
mark_budget_parked-ok d r there h was at = ground (
  arith,
  there,
  was,
  at,
  owner_eq_refl r.park_owner,
  write_budget-fine d (parked_record r) (parks_check r h was),
)

resume-ok :
    (d : Db) (r : Record) (now : ℕ)
    → d.budgets r.root_session_id ≡ some r
    → check_budget r ≡ true
    → r.state ≡ fired
    → r.park_phase ≡ parked
    → prepare_manager_model_input d now r.root_session_id
      ≡ ok (with_row d (released_record now resumed r))
unfolding prepare_manager_model_input
resume-ok d r now there h was at = ground (
  arith,
  there,
  was,
  at,
  write_budget-fine d (released_record now resumed r) (resumes_check r now h),
)

-- The three steps of a park, each on the tables that the one before left.
pub record ParkCycle (d : Db) (r : Record) (now : ℕ) : Type 0 where
  pub drained : Db
  pub parks : Db
  pub resumes : Db
  pub begins : begin_budget_drain d r.root_session_id r.generation r.park_owner ≡ ok drained
  pub ends : mark_budget_parked drained r.root_session_id r.generation r.park_owner ≡ ok parks
  pub goes_on : prepare_manager_model_input parks now r.root_session_id ≡ ok resumes
  pub released_row :
      resumes.budgets r.root_session_id ≡ some (released_record now resumed (parked_record r))

-- A budget that fired and asks for a park can be drained and parked by its owner, after which an input
-- of the manager releases it: none of the three fails, for a row that passes the CHECK.
pub park-ParkCycle :
    (d : Db) (r : Record) (now : ℕ)
    → d.budgets r.root_session_id ≡ some r
    → check_budget r ≡ true
    → r.state ≡ fired
    → r.park_phase ≡ requested
    → ParkCycle d r now
park-ParkCycle d r now there h was at =
    let e = with_row d (draining_record r) in
    let f = with_row e (parked_record r) in
    let in_e = put-here d.budgets r.root_session_id (some (draining_record r)) in
    let in_f = put-here e.budgets r.root_session_id (some (parked_record r)) in
    record {
      drained = e;
      parks = f;
      resumes = with_row f (released_record now resumed (parked_record r));
      begins = begin_budget_drain-ok d r there h was at;
      ends = mark_budget_parked-ok e (draining_record r) in_e (drains_check r h was at) was refl;
      goes_on = resume-ok f (parked_record r) now in_f (parks_check r h was) was refl;
      released_row =
          put-here f.budgets r.root_session_id
            (some (released_record now resumed (parked_record r)));
    }
