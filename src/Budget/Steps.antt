-- ===== src/Budget/Steps.antt =====
-- internal/sessionstore: the transactions on budgets, in any order. Each of them is serialized by the
-- database, so that an interleaving of observers, users and the daemon is a sequence of them.
pub mod Effects
pub mod Runs
pub mod Once
pub mod Lock
mod Tests
use coagent.Base.{ℕ, ◌+◌, ◌≡◌, Bool, List, Option, none, some, String, ◌==◌, if◌then◌else◌}
use coagent.Budget.{FiredReason, ParkOwner, Attempt, ok, fails, ◌>>=◌}
use coagent.Budget.Store.{Session, Db, put}
use coagent.Budget.Observe.{Commit, fire_budget, observe_budget, observe_commit_budget_tx}
use coagent.Budget.Park.{
  begin_budget_drain, mark_budget_parked, release_budget, prepare_manager_model_input,
}
use coagent.Budget.Mutate.{Mutation, arm, clear}

-- The operations of the store on budgets, with their arguments.
pub data Operation : Type 0 where
  arm_op clear_op : ℕ → Mutation → Operation
  fire_op : ℕ → ℕ → ℕ → FiredReason → ℕ → Operation
  observe_op : ℕ → ℕ → ℕ → Operation
  commit_op : ℕ → Commit → Operation
  drain_op park_op : ℕ → ℕ → Option ParkOwner → Operation
  release_op : ℕ → ℕ → ℕ → String → Operation
  resume_op : ℕ → ℕ → Operation

unfoldable pub run : Operation → Db → Attempt Db
run (arm_op now m) d = arm d now m
run (clear_op now m) d = clear d now m
run (fire_op now root generation reason observed) d =
    fire_budget d now root generation reason observed >>= λ out. ok out.0
run (observe_op now root observed_at) d = observe_budget d now root observed_at >>= λ out. ok out.0
run (commit_op now c) d = observe_commit_budget_tx d now c >>= λ out. ok out.db
run (drain_op root generation owner) d = begin_budget_drain d root generation owner
run (park_op root generation owner) d = mark_budget_parked d root generation owner
run (release_op now root generation reason) d = release_budget d now root generation reason
run (resume_op now root) d = prepare_manager_model_input d now root

-- The rows of sessions change beside the operations, as messages add to the cost of a tree.
pub data Reaches : Db → Db → Type 0 where
  stay : (d : Db) → Reaches d d
  runs : (d e f : Db) (op : Operation) → Reaches d e → run op e ≡ ok f → Reaches d f
  spends :
      (d e : Db) (sessions : ℕ → Option Session)
      → Reaches d e
      → Reaches d (record e { sessions = sessions })
