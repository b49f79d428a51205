-- ===== src/Risk/Assess.antt =====
-- `assess_margin` and its isolated forms, programs/clober/src/matcher/risk.rs.
use flash_book.Common.{
  ℕ, ◌-◌, Bool, List, [], ◌∷◌, ◌++◌, Option, none, some, ltb, leb, ◌==◌, if◌then◌else◌, ◌&&◌,
  Result, ok, ok_or, ◌>>=◌, require, u64, length, map, saturating_add,
}
use flash_book.Common.Int.{ℤ, pos, negsuc, ◌+ℤ◌, ◌-ℤ◌, checked, saturated, i128, leb_ℤ, ltb_ℤ}
use flash_book.Errors.{
  CloberError, arithmetic_overflow, arithmetic_underflow, too_many_stress_scenarios,
}
use flash_book.Risk.{PositionSnapshot, MarketSnapshot, StressShock, Scenario}
use flash_book.Risk.Scenarios.{equity_totals, Worst, worst_over, decorrelate, total_relief}

-- 5 + 8 * MAX_POSITIONS_PER_TRADER
abbrev pub max_stress_scenarios : ℕ
max_stress_scenarios = 133

pub record MarginAssessment : Type 0 where
  pub required_quote_lots : ℕ
  pub equity_quote_lots_signed : ℤ
  pub is_healthy : Bool
  pub worst_scenario_idx : ℕ

abbrev pub no_worst : Worst
no_worst = record { market_worst = []; worst_single = negsuc (i128 - 1); worst_idx = 0 }

-- The worst losses, less the relief of the correlation groups.
unfoldable pub required_margin : List MarketSnapshot → List PositionSnapshot → List (ℕ × ℤ) → ℕ
required_margin markets positions market_worst =
    let (decorr, groups) = decorrelate markets positions market_worst 0 [] in
    decorr - total_relief groups 0

unfoldable pub assess_margin :
    List PositionSnapshot
    → List MarketSnapshot
    → List Scenario
    → ℕ
    → Result CloberError MarginAssessment
assess_margin positions markets scenarios collateral_quote_lots = do
  _ ← require (leb (length scenarios) max_stress_scenarios) too_many_stress_scenarios
  (unrealized_total, funding_total) ← equity_totals markets positions (pos 0) (pos 0)
  with_pnl ←
      ok_or (checked i128 (pos collateral_quote_lots +ℤ unrealized_total)) arithmetic_overflow
  equity_signed ← ok_or (checked i128 (with_pnl -ℤ funding_total)) arithmetic_underflow
  worst ← worst_over markets positions 0 scenarios no_worst
  available_signed ←
      ok_or (checked i128 (pos collateral_quote_lots -ℤ funding_total)) arithmetic_underflow
  let worst_loss = required_margin markets positions worst.market_worst in
      ok (record {
        required_quote_lots = worst_loss;
        equity_quote_lots_signed = equity_signed;
        is_healthy = leb_ℤ (pos worst_loss) available_signed;
        worst_scenario_idx = worst.worst_idx;
      })

-- `find_isolated`
unfoldable pub find_isolated : List (ℕ × ℕ) → ℕ → Option ℕ
find_isolated [] market = none
find_isolated ((m, c) ∷ rest) market = if m == market then some c else find_isolated rest market

-- The cross positions, and the isolated ones with their collateral, in order.
unfoldable pub partition :
    List (ℕ × ℕ) → List PositionSnapshot → List PositionSnapshot × List (PositionSnapshot × ℕ)
partition isolated [] = ([], [])
partition isolated (p ∷ ps) =
    let (cross, iso) = partition isolated ps in
    elim (find_isolated isolated p.market) [
      | some c ↦ (cross, (p, c) ∷ iso)
      | none ↦ (p ∷ cross, iso)
    ]

-- `required.checked_sub(equity).unwrap_or(0)`
abbrev pub tightness : MarginAssessment → ℤ
tightness a = elim (checked i128 (pos a.required_quote_lots -ℤ a.equity_quote_lots_signed)) [
  | some t ↦ t
  | none ↦ pos 0
]

-- The running totals, with the greatest tightness so far.
abbrev pub merge_bucket : MarginAssessment → ℤ → MarginAssessment → MarginAssessment
merge_bucket total worst a = record {
  required_quote_lots = saturating_add u64 total.required_quote_lots a.required_quote_lots;
  equity_quote_lots_signed =
      saturated i128 (total.equity_quote_lots_signed +ℤ a.equity_quote_lots_signed);
  is_healthy = total.is_healthy && a.is_healthy;
  worst_scenario_idx =
      if ltb_ℤ worst (tightness a) then a.worst_scenario_idx else total.worst_scenario_idx;
}

unfoldable pub assess_isolated :
    List MarketSnapshot
    → List Scenario
    → List (PositionSnapshot × ℕ)
    → MarginAssessment
    → ℤ
    → Result CloberError MarginAssessment
unfolding assess_margin
assess_isolated markets scenarios [] total worst = ok total
assess_isolated markets scenarios ((p, c) ∷ rest) total worst = do
  a ← assess_margin (p ∷ []) markets scenarios c
  assess_isolated markets scenarios rest (merge_bucket total worst a)
      (if ltb_ℤ worst (tightness a) then tightness a else worst)

unfoldable pub assess_margin_split :
    List PositionSnapshot
    → List MarketSnapshot
    → List Scenario
    → ℕ
    → List (ℕ × ℕ)
    → Result CloberError MarginAssessment
assess_margin_split positions markets scenarios cross_collateral isolated =
    let (cross_positions, isolated_positions) = partition isolated positions in
    do
      cross ← assess_margin cross_positions markets scenarios cross_collateral
      assess_isolated markets scenarios isolated_positions cross (tightness cross)

-- The markets and collaterals of the isolated positions.
unfoldable pub isolated_of : List PositionSnapshot → List (ℕ × ℕ)
isolated_of [] = []
isolated_of (p ∷ ps) =
    let rest = isolated_of ps in
    if ltb 0 p.collateral_quote_lots then (p.market, p.collateral_quote_lots) ∷ rest else rest

unfoldable pub assess_margin_unified :
    List PositionSnapshot
    → List MarketSnapshot
    → List Scenario
    → ℕ
    → Result CloberError MarginAssessment
assess_margin_unified positions markets scenarios cross_collateral =
    let isolated = isolated_of positions in
    if length isolated == 0
    then assess_margin positions markets scenarios cross_collateral
    else assess_margin_split positions markets scenarios cross_collateral isolated

-- The lattice: no shock, single shocks, and all markets down or up together.
abbrev pub single_shocks : List ℤ
single_shocks =
    negsuc 1999
    ∷ negsuc 999
    ∷ negsuc 499
    ∷ negsuc 199
    ∷ pos 200
    ∷ pos 500
    ∷ pos 1000
    ∷ pos 2000
    ∷ []

abbrev pub shock_one : ℕ → ℤ → StressShock
shock_one market shock_bps = record { market = market; shock_bps = shock_bps }

unfoldable pub per_market_scenarios : List ℕ → List Scenario
per_market_scenarios [] = []
per_market_scenarios (m ∷ ms) =
    map (λ s. shock_one m s ∷ []) single_shocks ++ per_market_scenarios ms

abbrev pub uniform : List ℕ → ℤ → Scenario
uniform markets s = map (λ m. shock_one m s) markets

unfoldable pub default_scenarios : List ℕ → List Scenario
default_scenarios markets =
    ([] ∷ per_market_scenarios markets)
    ++ (uniform markets (negsuc 999)
        ∷ uniform markets (pos 1000)
        ∷ uniform markets (negsuc 2999)
        ∷ uniform markets (pos 3000)
        ∷ [])
