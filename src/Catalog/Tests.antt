-- ===== src/Catalog/Tests.antt =====
-- Concrete efforts: a model that accepts "low" and "high".
use coagent.Base.{ℕ, ◌≡◌, refl, true, List, [], ◌∷◌, some, String, arith}
use coagent.Catalog.{contains, effort_rank, clamp_effort}
use coagent.Catalog.Clamp.{Beats, clamp_effort-Beats}

abbrev accepted : List String
accepted = "high" ∷ "low" ∷ []

medium_known : effort_rank "medium" ≡ some 3
unfolding effort_rank
medium_known = refl

high_known : effort_rank "high" ≡ some 4
unfolding effort_rank
high_known = refl

clamp_effort-Beats_example :
    (rank : ℕ) × (effort_rank (clamp_effort "medium" accepted) ≡ some rank)
    × (contains accepted (clamp_effort "medium" accepted) ≡ true)
    × Beats 3 rank 4
clamp_effort-Beats_example =
    clamp_effort-Beats "medium" accepted 3 "high" 4 medium_known refl high_known

same_levels :
    (level : String)
    → contains ("high" ∷ "low" ∷ []) level ≡ contains ("low" ∷ "high" ∷ "low" ∷ []) level
same_levels level = ground arith
