-- ===== src/Subagent.antt =====
-- internal/subagent: the durable ledger of parent-child links. The states and outcomes of a link are
-- here, the outcome that ends an activation in Derive, the transactions in Ledger,
-- Transitions and Delivery, and what the ledger promises in the other children.
pub mod Derive
pub mod Ledger
pub mod Transitions
pub mod Delivery
pub mod Steps
pub mod Valid
pub mod Arrives
pub mod Once
pub mod Graph
pub mod Inputs
mod Tests
use coagent.Base.{ℕ, ◌≡◌, Bool, true, false, ◌||◌, List, [], ◌∷◌, Option, String}

pub data State : Type 0 where
  spawned running completed error stopped killed : State

-- `none` is the empty outcome of a link that no activation has ended.
pub data Outcome : Type 0 where
  none completed error killed incomplete : Outcome

-- The text of a completion. What the source formats is a constructor with what is put in.
pub data ResultText : Type 0 where
  no_result output_length_error unknown_finish_error rejection_unreadable : ResultText
  empty_stop_notice messages_unreadable no_final_answer crashed : ℕ → ResultText
  answer : String → ResultText
  unresumable : String → String → ResultText

pub record Link : Type 0 where
  pub parent_id : ℕ
  pub child_id : ℕ
  pub task_call_id : String
  pub blocking : Bool
  pub depth : ℕ
  pub state : State
  pub delivered_at : Option ℕ
  pub created_at : ℕ
  pub activation_seq : ℕ
  pub result : ResultText
  pub outcome : Outcome

-- `Link.Terminal`.
unfoldable pub is_terminal : State → Bool
is_terminal State.completed = true
is_terminal State.error = true
is_terminal State.killed = true
is_terminal _ = false

unfoldable pub valid_terminal_link : State → Outcome → Bool
valid_terminal_link State.completed Outcome.completed = true
valid_terminal_link State.completed Outcome.incomplete = true
valid_terminal_link State.error Outcome.error = true
valid_terminal_link State.error Outcome.incomplete = true
valid_terminal_link State.killed Outcome.killed = true
valid_terminal_link _ _ = false

-- `state IN ('spawned', 'running')`.
abbrev pub is_open : State → Bool
is_open State.spawned = true
is_open State.running = true
is_open _ = false

abbrev pub is_stopped : State → Bool
is_stopped State.stopped = true
is_stopped _ = false
