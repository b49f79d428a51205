-- ===== src/Risk/Cover.antt =====
-- What a margin assessment covers, programs/clober/src/matcher/risk.rs.
use flash_book.Common.{
  ℕ, ◌+◌, ◌-◌, ◌<◌, ◌≡◌, ap, ◌∙◌, true, List, [], ◌∷◌, ◌++◌, arith, min, leb, ◌==◌, ◌||◌, u64,
  saturating_add, Bool-cases, inl, inr, ok, ok_or, require, length, Ensures, Ensures->>=,
  Ensures-map, Ensures-self, Ensures-ok, Ensures-both, Ensures-skip,
}
use flash_book.Common.Int.{ℤ, pos, ◌+ℤ◌, ◌-ℤ◌, ◌≤ℤ◌, is_pos, checked, i128}
use flash_book.Errors.{CloberError, arithmetic_overflow, arithmetic_underflow}
use flash_book.Risk.{PositionSnapshot, MarketSnapshot, Scenario}
use flash_book.Risk.Scenarios.{
  equity_totals, scenario_losses, worst_over, loss_of, group_of, decorrelate, total_relief,
}
use flash_book.Risk.Losses.{total, losses, total-losses, losses-le, scenario_losses-AreDistinct}
use flash_book.Risk.Worst.{worst_over-AreDistinct, worst_over-Covers_scenario}
use flash_book.Risk.Assess.{
  MarginAssessment, max_stress_scenarios, no_worst, required_margin, assess_margin,
}

-- No market nets against another.
abbrev pub AreUngrouped : List MarketSnapshot → Type 0
AreUngrouped markets = (k : ℕ) → ((group_of markets k).0 == 0 || (group_of markets k).1 == 0) ≡ true

decorrelate-ungrouped :
    (markets : List MarketSnapshot) (ps : List PositionSnapshot) (ws : List (ℕ × ℤ)) (decorr : ℕ)
    → AreUngrouped markets
    → decorr < u64
    → decorrelate markets ps ws decorr [] ≡ (min (decorr + losses ws) (u64 - 1), [])
unfolding decorrelate
decorrelate-ungrouped markets ps [] decorr u fits = ap (λ n. (n, [])) (omega arith)
decorrelate-ungrouped markets ps ((k, w) ∷ rest) decorr u fits = elim (Bool-cases (is_pos w)) [
  | inl yes_loss ↦
      rw (yes_loss, u k)
        (decorrelate-ungrouped markets ps rest (saturating_add u64 decorr (loss_of w)) u
            (ground arith)
          ∙ ap (λ n. (n, [])) (ground arith))
  | inr no_loss ↦
      rw no_loss
        (decorrelate-ungrouped markets ps rest decorr u fits ∙ ap (λ n. (n, [])) (ground arith))
]

-- Where no market nets against another, the margin is the sum of the worst losses, up to a u64.
pub required_margin-ungrouped :
    (markets : List MarketSnapshot) (ps : List PositionSnapshot) (ws : List (ℕ × ℤ))
    → AreUngrouped markets
    → required_margin markets ps ws ≡ min (losses ws) (u64 - 1)
unfolding required_margin total_relief
required_margin-ungrouped markets ps ws u =
    rw (decorrelate-ungrouped markets ps ws 0 u (omega arith)) (omega arith)

checked-value : (x : ℤ) (e : CloberError) → Ensures (ok_or (checked i128 x) e) λ a. a ≡ x
checked-value x e = ground arith

module _ (positions : List PositionSnapshot) (markets : List MarketSnapshot)
    (before : List Scenario) (s : Scenario) (after : List Scenario) (collateral : ℕ)
    (ungrouped : AreUngrouped markets) where
  -- The losses of a scenario that is among those folded in are within the margin.
  worst-covers : Ensures (worst_over markets positions 0 (before ++ s ∷ after) no_worst) λ worst.
      (required_margin markets positions worst.market_worst + 1 < u64
        → Ensures
            (scenario_losses markets s positions [])
            λ ls. total ls ≤ℤ pos (required_margin markets positions worst.market_worst))
  worst-covers =
      Ensures-map (worst_over markets positions 0 (before ++ s ∷ after) no_worst)
        (λ worst (covers, d) room.
          Ensures-map (scenario_losses markets s positions [])
            (λ ls (c, dl). omega (
              arith,
              total-losses ls,
              losses-le ls worst.market_worst dl d c.markets_kept c.losses_kept,
              required_margin-ungrouped markets positions worst.market_worst ungrouped,
            ))
            (Ensures-both _ _ (scenario_losses markets s positions []) covers
              (scenario_losses-AreDistinct markets s positions [] tt)))
        (Ensures-both _ _ (worst_over markets positions 0 (before ++ s ∷ after) no_worst)
          (worst_over-Covers_scenario markets positions 0 before s after no_worst)
          (worst_over-AreDistinct markets positions 0 (before ++ s ∷ after) no_worst tt))

  -- What a healthy assessment leaves: the collateral less the funding covers the scenario.
  abbrev pub Survives : MarginAssessment → Type 0
  Survives a =
      a.required_quote_lots + 1 < u64
      → a.is_healthy ≡ true
      → Ensures (equity_totals markets positions (pos 0) (pos 0)) λ totals.
        Ensures (scenario_losses markets s positions [])
          λ ls. total ls ≤ℤ pos collateral -ℤ totals.1

  assess_margin-Survives :
      Ensures (assess_margin positions markets (before ++ s ∷ after) collateral) Survives
  unfolding assess_margin
  assess_margin-Survives =
      Ensures-skip (require (leb (length (before ++ s ∷ after)) max_stress_scenarios) _) _ Survives
        λ u.
          Ensures->>= (equity_totals markets positions (pos 0) (pos 0)) _ _ Survives
            (Ensures-self (equity_totals markets positions (pos 0) (pos 0)))
            λ totals known.
              Ensures-skip (ok_or (checked i128 (pos collateral +ℤ totals.0)) arithmetic_overflow) _
                Survives
                λ with_pnl.
                  Ensures-skip (ok_or (checked i128 (with_pnl -ℤ totals.1)) arithmetic_underflow) _
                    Survives
                    λ equity.
                      Ensures->>= (worst_over markets positions 0 (before ++ s ∷ after) no_worst) _
                        _ Survives worst-covers
                        λ worst covers.
                          Ensures->>=
                            (ok_or (checked i128 (pos collateral -ℤ totals.1)) arithmetic_underflow)
                            _ _ Survives
                            (checked-value (pos collateral -ℤ totals.1) arithmetic_underflow)
                            λ available e room healthy. rw known (
                              Ensures-map (scenario_losses markets s positions [])
                                (λ ls h. ground (arith, e, h, healthy)) (covers room))

-- A healthy trader survives every scenario: where no market nets against another, an assessment
-- with a margin below the largest u64 that calls the positions healthy leaves the collateral
-- less the funding owed at least at what the positions lose in any scenario of the lattice with
-- their maintenance margin, gains in other markets counted against the losses.
pub healthy_survives :
    (positions : List PositionSnapshot) (markets : List MarketSnapshot) (before : List Scenario)
    (s : Scenario) (after : List Scenario) (collateral : ℕ) (a : MarginAssessment)
    → AreUngrouped markets
    → assess_margin positions markets (before ++ s ∷ after) collateral ≡ ok a
    → a.required_quote_lots + 1 < u64
    → a.is_healthy ≡ true
    → Ensures (equity_totals markets positions (pos 0) (pos 0)) λ totals.
      Ensures (scenario_losses markets s positions []) λ ls. total ls ≤ℤ pos collateral -ℤ totals.1
healthy_survives positions markets before s after collateral a ungrouped e =
    Ensures-ok (assess_margin positions markets (before ++ s ∷ after) collateral)
      (Survives positions markets before s after collateral ungrouped)
      (assess_margin-Survives positions markets before s after collateral ungrouped) e
