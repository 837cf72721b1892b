-- ===== src/Catalog.antt =====
-- internal/catalog/effort.go: the levels of reasoning effort, their order, and the clamping of a
-- level to those that a model accepts.
pub mod Clamp
pub mod Sort
mod Tests
use coagent.Base.{
  ℕ, zero, suc, ◌+◌, ◌-◌, Bool, true, false, not, ◌&&◌, ◌||◌, List, [], ◌∷◌, Option, none, some,
  if◌then◌else◌, ltb, ◌==◌, String, str_eq, any, length,
}

abbrev pub effort_order : List String
effort_order = "none" ∷ "minimal" ∷ "low" ∷ "medium" ∷ "high" ∷ "xhigh" ∷ "max" ∷ []

-- `StoredEffort`: a level that is not set is read as medium.
pub stored_effort : String → String
stored_effort stored = if str_eq stored "" then "medium" else stored

-- `slices.Contains`.
abbrev pub contains : List String → String → Bool
contains levels level = any (str_eq level) levels

-- `slices.Index`, from index `i` on; `none` is -1.
abbrev pub index_from : ℕ → String → List String → Option ℕ
index_from i level [] = none
index_from i level (x ∷ xs) = if str_eq x level then some i else index_from (i + 1) level xs

pub effort_rank : String → Option ℕ
effort_rank level = index_from 0 level effort_order

-- The levels of `order` that are in `levels`; the map `seen` never holds one before its turn.
pub known_efforts : List String → List String → List String
known_efforts levels [] = []
known_efforts levels (want ∷ order) =
    let rest = known_efforts levels order in if contains levels want then want ∷ rest else rest

pub sort_efforts : List String → List String
sort_efforts levels = known_efforts levels effort_order

-- The difference of two ranks, made positive.
abbrev pub delta_of : ℕ → ℕ → ℕ
delta_of rank want = if ltb rank want then want - rank else rank - want

-- `rank < effortRank(best)`.
abbrev pub is_weaker : ℕ → Option ℕ → Bool
is_weaker rank none = false
is_weaker rank (some r) = ltb rank r

-- The loop of `ClampEffort`.
pub clamp_loop : ℕ → String → ℕ → List String → String
clamp_loop want best best_delta [] = best
clamp_loop want best best_delta (candidate ∷ allowed) = elim (effort_rank candidate) [
  | none ↦ clamp_loop want best best_delta allowed
  | some rank ↦
      if ltb (delta_of rank want) best_delta
        || ((delta_of rank want == best_delta) && is_weaker rank (effort_rank best))
      then clamp_loop want candidate (delta_of rank want) allowed
      else clamp_loop want best best_delta allowed
]

pub clamp_effort : String → List String → String
clamp_effort level allowed =
    if (length allowed == 0) || contains allowed level then level else elim (effort_rank level) [
      | none ↦ level
      | some want ↦
          let best = clamp_loop want "" (length effort_order + 1) allowed in
          if str_eq best "" then level else best
    ]
