-- ===== src/Risk/Tests.antt =====
-- Runs of the margin assessment of risk.rs, with the theorems on it at concrete portfolios.
use flash_book.Common.{ℕ, ◌+◌, ◌-◌, ◌≤◌, ◌≡◌, refl, true, ◌&&◌, List, [], ◌∷◌, arith, ok, Ensures}
use flash_book.Common.Int.{ℤ, pos, negsuc, ◌-ℤ◌, ◌≤ℤ◌, ◌+ℤ◌, ◌*ℤ◌, neg, div_trunc, div_floor}
use flash_book.Orders.{long, short}
use flash_book.Position.Account.{funding_owed}
use flash_book.Risk.{
  PositionSnapshot, MarketSnapshot, Scenario, haircut_positive_pnl, effective_mmr_bps,
  oi_scaled_mmr_extra_bps, unrealized_pnl_quote_lots, shocked_price, scale_shock, lookup_market,
  shock_for_market, offset_relief_le_cap,
}
use flash_book.Risk.Scenarios.{
  equity_totals, contribution, add_loss, scenario_losses, raise_worst, fold_worst, worst_over,
  group_of, decorrelate, total_relief, net_lots, add_to_group, relief_of,
}
use flash_book.Risk.Losses.{total}
use flash_book.Risk.Relief.{group_losses, netted_losses, required_margin_bounds}
use flash_book.Risk.Cover.{AreUngrouped, healthy_survives}
use flash_book.Risk.Isolated.{healthy, all_healthy, split_healthy}
use flash_book.Risk.Assess.{
  MarginAssessment, assess_margin, assess_margin_split, partition, required_margin, uniform,
}

-- A market at a price of 100, with a maintenance ratio of 5%.
abbrev market : MarketSnapshot
market = record {
  market = 1;
  mark_price = 100;
  cum_funding_index = pos 0;
  maintenance_margin_bps = 500;
  tick_size = 1;
  concentration_threshold_lots = 0;
  concentration_extra_mmr_bps = 0;
  side_oi_lots = 0;
  oi_mmr_slope_bps_per_million_lots = 0;
  oi_mmr_max_extra_bps = 0;
  paper_profit_haircut_bps = 0;
  stress_shock_bps = 0;
  corr_group_id = 0;
  corr_rho_bps = 0;
}

-- Ten lots bought at 110.
abbrev position : PositionSnapshot
position = record {
  market = 1;
  side = long;
  size_lots = 10;
  entry_price = 110;
  cum_funding_index_at_entry = pos 0;
  collateral_quote_lots = 0;
}

abbrev crash : Scenario
crash = uniform (1 ∷ []) (negsuc 999)

-- A flat scenario costs 150, the loss and the margin, and a fall by a tenth costs 245.
abbrev sound : MarginAssessment
sound = record {
  required_quote_lots = 245;
  equity_quote_lots_signed = pos 400;
  is_healthy = true;
  worst_scenario_idx = 1;
}

assessed : assess_margin (position ∷ []) (market ∷ []) ([] ∷ crash ∷ []) 500 ≡ ok sound
unfolding assess_margin equity_totals worst_over scenario_losses contribution add_loss raise_worst
    fold_worst required_margin decorrelate total_relief group_of lookup_market shock_for_market
    scale_shock shocked_price unrealized_pnl_quote_lots haircut_positive_pnl effective_mmr_bps
    oi_scaled_mmr_extra_bps funding_owed div_trunc div_floor neg ◌+ℤ◌ ◌-ℤ◌ ◌*ℤ◌
assessed = refl

ungrouped : AreUngrouped (market ∷ [])
unfolding group_of lookup_market
ungrouped k = ground arith

healthy_survives_example :
    Ensures (equity_totals (market ∷ []) (position ∷ []) (pos 0) (pos 0)) λ totals.
      Ensures
        (scenario_losses (market ∷ []) crash (position ∷ []) [])
        λ ls. total ls ≤ℤ pos 500 -ℤ totals.1
healthy_survives_example =
    healthy_survives (position ∷ []) (market ∷ []) ([] ∷ []) crash [] 500 sound ungrouped assessed
      (omega arith) refl

-- A second market that moves with the first.
abbrev pair : List MarketSnapshot
pair =
    record market { corr_group_id = 7; corr_rho_bps = 8000 }
    ∷ record market { market = 2; corr_group_id = 7; corr_rho_bps = 9000 }
    ∷ []

abbrev hedged : List PositionSnapshot
hedged = position ∷ record position { market = 2; side = short } ∷ []

abbrev worst_of_pair : List (ℕ × ℤ)
worst_of_pair = (1, pos 300) ∷ (2, pos 200) ∷ []

netted : required_margin pair hedged worst_of_pair ≡ 340
unfolding required_margin decorrelate total_relief group_of lookup_market net_lots add_to_group
    relief_of offset_relief_le_cap neg ◌+ℤ◌
netted = refl

pair_losses : (decorrelate pair hedged worst_of_pair 0 []).0 ≡ 500
unfolding decorrelate group_of lookup_market
pair_losses = refl

required_margin_bounds_example :
    let r = decorrelate pair hedged worst_of_pair 0 [] in
    (required_margin pair hedged worst_of_pair ≤ r.0)
    × (netted_losses r.1 + (r.0 - group_losses r.1) ≤ required_margin pair hedged worst_of_pair)
required_margin_bounds_example =
    required_margin_bounds pair hedged worst_of_pair (omega (arith, pair_losses))

split_healthy_example :
    let (cross, iso) = partition ((2, 90) ∷ []) hedged in
    Ensures (assess_margin_split hedged pair ([] ∷ crash ∷ []) 500 ((2, 90) ∷ [])) λ a.
      a.is_healthy ≡ (
        healthy (assess_margin cross pair ([] ∷ crash ∷ []) 500)
        && all_healthy pair ([] ∷ crash ∷ []) iso)
split_healthy_example = split_healthy hedged pair ([] ∷ crash ∷ []) 500 ((2, 90) ∷ [])

abbrev tiers : List (ℕ × ℤ × ℕ)
tiers = (0, negsuc 1, 5) ∷ (1000, pos 0, 4) ∷ (5000, pos 1, 3) ∷ []
