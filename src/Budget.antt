-- ===== src/Budget.antt =====
-- internal/budget: the record of a root session's one-shot budget, the test of record.go that decides
-- when it has been crossed, and the admission of a step in budget.go. A time is a number of
-- nanoseconds. A cost, a float in the code, is a number of millionths of a micro-dollar; a difference
-- of costs may be negative.
pub mod Store
pub mod Observe
pub mod Mutate
pub mod Park
pub mod Crossing
pub mod Checks
pub mod Fires
pub mod Steps
use coagent.Base.{
  ℕ, suc, ◌+◌, ◌-◌, ◌*◌, ◌/◌, Bool, true, false, not, ◌&&◌, ◌||◌, List, ◌∷◌, Option, none, some,
  String, ltb, leb, ◌==◌, if◌then◌else◌,
}

pub data State : Type 0 where
  armed fired released : State

pub data FiredReason : Type 0 where
  cost_reason duration_reason : FiredReason

pub data ReleasedReason : Type 0 where
  cleared resumed completed errored stopped killed replaced : ReleasedReason

-- The empty text and the three phases of a park.
pub data ParkPhase : Type 0 where
  unparked requested draining parked : ParkPhase

-- The text `budget:root:generation`.
pub data ParkOwner : Type 0 where
  budget_owner : ℕ → ℕ → ParkOwner

pub record Record : Type 0 where
  pub root_session_id : ℕ
  pub state : State
  pub generation : ℕ
  pub armed_at : ℕ
  pub baseline_cost_usd : ℕ
  pub cost_limit_usd : Option ℕ
  pub duration_seconds : Option ℕ
  pub fired_at : Option ℕ
  pub released_at : Option ℕ
  pub fired_reason : Option FiredReason
  pub released_reason : Option ReleasedReason
  pub observed_cost_usd : Option ℕ
  pub park_phase : ParkPhase
  pub park_owner : Option ParkOwner

pub data Delta : Type 0 where
  pos negsuc : ℕ → Delta

abbrev pub minus : ℕ → ℕ → Delta
minus a b = if ltb a b then negsuc (b - a - 1) else pos (a - b)

abbrev pub second : ℕ
second = 1000000000

abbrev pub micro_dollar : ℕ
micro_dollar = 1000000

-- `math.Round` to whole micro-dollars.
abbrev pub round_cost_usd : ℕ → ℕ
round_cost_usd value = (value + 500000) / micro_dollar * micro_dollar

-- `RoundCostUSD(delta) >= RoundCostUSD(limit)`: a negative number rounds to nothing or below.
abbrev pub reaches : Delta → ℕ → Bool
reaches (pos d) limit = leb (round_cost_usd limit) (round_cost_usd d)
reaches (negsuc d) limit = (round_cost_usd (suc d) == 0) && (round_cost_usd limit == 0)

abbrev pub is_over : Record → ℕ → Bool
is_over r observed_at = elim r.duration_seconds [
  | none ↦ false
  | some s ↦ leb (r.armed_at + s * second) observed_at
]

abbrev pub is_overspent : Record → Delta → Bool
is_overspent r delta = elim r.cost_limit_usd [ none ↦ false | some limit ↦ reaches delta limit ]

unfoldable pub crossing_reason : Record → Delta → ℕ → Option FiredReason
crossing_reason r delta observed_at =
    if is_over r observed_at
    then some duration_reason
    else if is_overspent r delta
    then some cost_reason
    else none

abbrev pub remaining_cost : Record → ℕ → Option ℕ
remaining_cost r tree_cost = elim r.cost_limit_usd [
  | none ↦ none
  | some limit ↦ some (limit + r.baseline_cost_usd - tree_cost)
]

abbrev pub remaining_duration : Record → ℕ → Option ℕ
remaining_duration r now = elim r.duration_seconds [
  | none ↦ none
  | some s ↦ if ltb now r.armed_at then none else some (s * second - (now - r.armed_at))
]

unfoldable pub remaining : Record → ℕ → ℕ → Option ℕ × Option ℕ
remaining r tree_cost now = (remaining_cost r tree_cost, remaining_duration r now)

-- The errors of the package and of the store, apart from those of the database.
pub data BudgetError : Type 0 where
  not_found conflict session_not_found owner_not_root ownerless not_writable parking : BudgetError
  output_conflict checkpoint_fired clock_behind check_failed : BudgetError

pub data Attempt {ℓ} (A : Type ℓ) : Type ℓ where
  ok : A → Attempt A
  fails : BudgetError → Attempt A

infixl 5 ◌>>=◌
abbrev pub ◌>>=◌ {ℓ κ} : {A : Type ℓ} {B : Type κ} → Attempt A → (A → Attempt B) → Attempt B
ok a >>= f = f a
fails e >>= f = fails e

abbrev pub or_fails {ℓ} : {A : Type ℓ} → Option A → BudgetError → Attempt A
or_fails none e = fails e
or_fails (some a) e = ok a

abbrev pub require : Bool → BudgetError → Attempt (Unit {0})
require true e = ok tt
require false e = fails e

-- `Admit`: whether a step may begin under the record that is stored.
unfoldable pub admit : Option Record → ℕ → Attempt (Unit {0})
admit none now = ok tt
admit (some r) now = elim r.state [
  | released ↦ ok tt
  | fired ↦ fails checkpoint_fired
  | armed ↦ if ltb now r.armed_at then fails clock_behind else ok tt
]
