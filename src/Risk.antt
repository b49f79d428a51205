-- ===== src/Risk.antt =====
-- Margin requirements: programs/clober/src/matcher/risk.rs. The keys of markets are numbers.
pub mod Stress
pub mod Scenarios
pub mod Losses
pub mod Worst
pub mod Relief
pub mod Cover
pub mod Isolated
mod Tests
pub mod Assess
use flash_book.Common.{
  ℕ, ◌+◌, ◌-◌, ◌*◌, ◌/◌, ◌%◌, ◌^◌, min, Bool, true, false, List, [], ◌∷◌, Option, none, some, ltb,
  leb, ◌==◌, if◌then◌else◌, ◌&&◌, ◌||◌, Result, ok, err, ok_or, ◌>>=◌, u32, u64, u128,
  saturating_add, saturating_mul,
}
use flash_book.Common.Int.{
  ℤ, pos, negsuc, neg, ◌+ℤ◌, ◌-ℤ◌, ◌*ℤ◌, checked, saturated, div_trunc, i128, is_pos, is_neg,
  magnitude, leb_ℤ,
}
use flash_book.Errors.{CloberError, arithmetic_overflow, arithmetic_underflow}
use flash_book.Orders.{Side, long, short, is_long}

abbrev pub bps_denom : ℕ
bps_denom = 10000

abbrev pub baseline_stress_shock_bps : ℕ
baseline_stress_shock_bps = 3000

-- The half of the range of an `i32`.
abbrev pub i32 : ℕ
i32 = 2 ^ 31

pub record StressShock : Type 0 where
  pub market : ℕ
  pub shock_bps : ℤ

abbrev pub Scenario : Type 0
Scenario = List StressShock

pub record PositionSnapshot : Type 0 where
  pub market : ℕ
  pub side : Side
  pub size_lots : ℕ
  pub entry_price : ℕ
  pub cum_funding_index_at_entry : ℤ
  pub collateral_quote_lots : ℕ

pub record MarketSnapshot : Type 0 where
  pub market : ℕ
  pub mark_price : ℕ
  pub cum_funding_index : ℤ
  pub maintenance_margin_bps : ℕ
  pub tick_size : ℕ
  pub concentration_threshold_lots : ℕ
  pub concentration_extra_mmr_bps : ℕ
  pub side_oi_lots : ℕ
  pub oi_mmr_slope_bps_per_million_lots : ℕ
  pub oi_mmr_max_extra_bps : ℕ
  pub paper_profit_haircut_bps : ℕ
  pub stress_shock_bps : ℕ
  pub corr_group_id : ℕ
  pub corr_rho_bps : ℕ

unfoldable pub haircut_positive_pnl : ℤ → ℕ → ℤ
haircut_positive_pnl pnl haircut_bps =
    let keep = bps_denom - min haircut_bps bps_denom in
    if leb_ℤ pnl (pos 0) || haircut_bps == 0
    then pnl
    else div_trunc (saturated i128 (pnl *ℤ pos keep)) bps_denom

unfoldable pub oi_scaled_mmr_extra_bps : ℕ → ℕ → ℕ → ℕ
oi_scaled_mmr_extra_bps side_oi_lots slope_bps_per_million_lots max_extra_bps =
    let scaled = saturating_mul u128 side_oi_lots slope_bps_per_million_lots in
    let extra = scaled / 1000000 in
    if slope_bps_per_million_lots == 0 then 0 else min (min extra max_extra_bps % u32) max_extra_bps

unfoldable pub effective_mmr_bps : MarketSnapshot → ℕ → ℕ
effective_mmr_bps m size_lots =
    let base_with_conc =
      if ltb 0 m.concentration_threshold_lots && leb m.concentration_threshold_lots size_lots
      then saturating_add u32 m.maintenance_margin_bps m.concentration_extra_mmr_bps
      else m.maintenance_margin_bps in
    let max_extra = if m.oi_mmr_max_extra_bps == 0 then u32 - 1 else m.oi_mmr_max_extra_bps in
    saturating_add u32 base_with_conc
      (oi_scaled_mmr_extra_bps m.side_oi_lots m.oi_mmr_slope_bps_per_million_lots max_extra)

abbrev pub equity_meets_target : ℤ → ℤ → Bool
equity_meets_target equity_signed scaled_required = leb_ℤ scaled_required equity_signed

unfoldable pub equity_meets_scaled_required : ℤ → ℕ → ℕ → Bool
equity_meets_scaled_required equity_signed required_quote_lots buffer_bps =
    let extra = saturating_mul u128 required_quote_lots buffer_bps / bps_denom in
    let scaled = saturating_add u128 required_quote_lots extra in
    equity_meets_target equity_signed (if ltb (i128 - 1) scaled then pos (i128 - 1) else pos scaled)

-- The negation of a product that is the least i128 panics, since the build checks overflow.
unfoldable pub unrealized_pnl_quote_lots : PositionSnapshot → ℕ → ℕ → Result CloberError ℤ
unrealized_pnl_quote_lots p at_price tick_size = do
  lots ←
      ok_or (checked i128 (pos p.size_lots *ℤ (pos at_price -ℤ pos p.entry_price)))
        arithmetic_overflow
  prod ← ok_or (checked i128 (lots *ℤ pos tick_size)) arithmetic_overflow
  ok_or (checked i128 (if is_long p.side then prod else neg prod)) arithmetic_overflow

-- `div_ceil`
abbrev pub div_ceil : ℕ → ℕ → ℕ
div_ceil a b = if a % b == 0 then a / b else a / b + 1

-- `u64::try_from(..)`
abbrev pub to_u64 : ℕ → Result CloberError ℕ
to_u64 n = if ltb n u64 then ok n else err arithmetic_overflow

-- The price moved by a shock, rounded away from it.
unfoldable pub shocked_price : ℕ → ℤ → Result CloberError ℕ
shocked_price price shock_bps =
    let delta = div_ceil (price * magnitude shock_bps) bps_denom in
    if magnitude shock_bps == 0 || price == 0
    then ok price
    else if is_neg shock_bps
    then (if leb price delta then ok 0 else to_u64 (price - delta))
    else to_u64 (price + delta)

abbrev pub scale_shock_num : ℤ → ℕ → ℤ
scale_shock_num base_bps eff_shock_bps = base_bps *ℤ pos eff_shock_bps

unfoldable pub scale_shock : ℤ → ℕ → ℤ
scale_shock base_bps eff_shock_bps =
    let eff = if eff_shock_bps == 0 then baseline_stress_shock_bps else eff_shock_bps in
    saturated i32 (div_trunc (scale_shock_num base_bps eff) baseline_stress_shock_bps)

unfoldable pub lookup_market : List MarketSnapshot → ℕ → Option MarketSnapshot
lookup_market [] k = none
lookup_market (m ∷ ms) k = if m.market == k then some m else lookup_market ms k

unfoldable pub offset_relief_le_cap : ℕ → ℕ → ℕ
offset_relief_le_cap rho_bps min_du = min (saturating_mul u128 min_du rho_bps / bps_denom) min_du

unfoldable pub shock_for_market : Scenario → ℕ → ℤ
shock_for_market [] k = pos 0
shock_for_market (s ∷ ss) k = if s.market == k then s.shock_bps else shock_for_market ss k

-- The best tier that the volume reaches, in a table sorted by volume.
unfoldable pub resolve_fee_tier : ℤ → ℕ → List (ℕ × ℤ × ℕ) → ℕ → ℤ × ℕ
resolve_fee_tier maker taker [] volume = (maker, taker)
resolve_fee_tier maker taker ((min_vol, m, t) ∷ tiers) volume =
    if leb min_vol volume then resolve_fee_tier m t tiers volume else (maker, taker)
