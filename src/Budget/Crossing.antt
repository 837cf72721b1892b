-- ===== src/Budget/Crossing.antt =====
-- internal/budget/record.go: Remaining and CrossingReason read the same limits. What is left of one is
-- nothing when it has been crossed, to the precision of the receipts.
use coagent.Base.{
  ℕ, ◌+◌, ◌-◌, ◌≤◌, ◌<◌, ◌≡◌, true, Option, none, some, arith, Option-cases, inl, inr,
}
use coagent.Budget.{
  FiredReason, cost_reason, duration_reason, Record, minus, micro_dollar, reaches, is_over,
  is_overspent, crossing_reason, remaining_cost, remaining_duration, remaining,
}

-- A limit that has been reached leaves less than a micro-dollar, and one that leaves nothing was.
minus-reaches :
    (cost baseline limit : ℕ)
    → reaches (minus cost baseline) limit ≡ true
    → limit + baseline - cost < micro_dollar
minus-reaches cost baseline limit h = ground (arith, h)

reaches-minus :
    (cost baseline limit : ℕ)
    → limit + baseline - cost ≡ 0
    → reaches (minus cost baseline) limit ≡ true
reaches-minus cost baseline limit h = ground (arith, h)

-- What the two functions say of one record at one time.
pub record Agrees (r : Record) (tree_cost now : ℕ) (crossing : Option FiredReason) : Type 0 where
  pub over : crossing ≡ some duration_reason → (remaining r tree_cost now).1 ≡ some 0
  pub no_time : (remaining r tree_cost now).1 ≡ some 0 → crossing ≡ some duration_reason
  pub overspent :
      crossing ≡ some cost_reason
      → (c : ℕ) × ((remaining r tree_cost now).0 ≡ some c) × (c < micro_dollar)
  pub no_money : (remaining r tree_cost now).0 ≡ some 0 → crossing ≡ none → ⊥

module _ (r : Record) (tree_cost now : ℕ) (started : r.armed_at ≤ now) where
  is_over-remaining : is_over r now ≡ true → remaining_duration r now ≡ some 0
  is_over-remaining h = ground (arith, started, h)

  remaining-is_over : remaining_duration r now ≡ some 0 → is_over r now ≡ true
  remaining-is_over h = ground (arith, started, h)

  is_overspent-remaining :
      is_overspent r (minus tree_cost r.baseline_cost_usd) ≡ true
      → (c : ℕ) × (remaining_cost r tree_cost ≡ some c) × (c < micro_dollar)
  is_overspent-remaining h = elim (Option-cases r.cost_limit_usd) [
    | inl unlimited ↦ absurd (ground (arith, h, unlimited))
    | inr there ↦ (
      there.0 + r.baseline_cost_usd - tree_cost,
      ground (arith, there.1),
      minus-reaches tree_cost r.baseline_cost_usd there.0 (ground (arith, h, there.1)),
    )
  ]

  remaining-is_overspent :
      remaining_cost r tree_cost ≡ some 0
      → is_overspent r (minus tree_cost r.baseline_cost_usd) ≡ true
  remaining-is_overspent h = elim (Option-cases r.cost_limit_usd) [
    | inl unlimited ↦ absurd (ground (arith, h, unlimited))
    | inr there ↦
        let reached =
          reaches-minus tree_cost r.baseline_cost_usd there.0 (ground (arith, h, there.1)) in
        ground (arith, reached, there.1)
  ]

  -- At a time that is not before the arming, CrossingReason is "duration" exactly when Remaining leaves
  -- no time. If it is "cost", less than a micro-dollar is left, and it is not empty if nothing is left.
  pub crossing_reason-Agrees :
      Agrees r tree_cost now (crossing_reason r (minus tree_cost r.baseline_cost_usd) now)
  unfolding crossing_reason remaining
  crossing_reason-Agrees = record {
    over = λ h. is_over-remaining (ground (arith, h));
    no_time = λ h. let o = remaining-is_over h in ground (arith, o);
    overspent = λ h. is_overspent-remaining (ground (arith, h));
    no_money = λ h. λ quiet. let o = remaining-is_overspent h in ground (arith, o, quiet);
  }
