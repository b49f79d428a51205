-- ===== src/Liquidation.antt =====
-- Prices and shortfalls of liquidation: programs/clober/src/matcher/liquidation.rs, and the
-- reduce-only check of programs/clober/src/matcher/reduce_only.rs.
pub mod Health
pub mod Shortfall
mod Tests
use flash_book.Common.{
  ℕ, ◌-◌, min, Bool, true, false, not, ◌&&◌, ◌||◌, Option, none, some, ltb, leb, ◌==◌,
  if◌then◌else◌, Result, ok, err, ok_or, ◌>>=◌, u64,
}
use flash_book.Common.Int.{
  ℤ, pos, neg, sub_ℕ, ◌+ℤ◌, ◌-ℤ◌, ◌*ℤ◌, checked, div_trunc, i128, pos_part, neg_part, is_neg,
}
use flash_book.Errors.{CloberError, arithmetic_overflow, arithmetic_underflow}

-- The price, and its source: 0 for the mark, 1 for the oracle, 2 where they are equal.
unfoldable pub worse_of_health_price : ℕ → ℕ → Bool → ℕ × ℕ
worse_of_health_price mark_t oracle_t is_long =
    if is_long
    then (if ltb 0 oracle_t && ltb oracle_t mark_t
        then (oracle_t, 1)
        else if ltb 0 oracle_t && oracle_t == mark_t
        then (mark_t, 2)
        else (mark_t, 0))
    else if ltb mark_t oracle_t
    then (oracle_t, 1)
    else if oracle_t == mark_t
    then (mark_t, 2)
    else (mark_t, 0)

abbrev pub hp_source_oracle_only : ℕ
hp_source_oracle_only = 3

unfoldable pub health_price_with_staleness : ℕ → ℕ → Bool → Bool → Option (ℕ × ℕ)
health_price_with_staleness mark_t oracle_t mark_stale is_long =
    if not mark_stale
    then some (worse_of_health_price mark_t oracle_t is_long)
    else if ltb 0 oracle_t
    then some (oracle_t, hp_source_oracle_only)
    else none

pub record ShortfallResult : Type 0 where
  pub liquidation_penalty_quote_lots : ℕ
  pub shortfall_quote_lots : ℕ
  pub collateral_recovered_quote_lots : ℕ

-- The profit of the whole position at the fill's price.
unfoldable pub liquidation_pnl : Bool → ℕ → ℕ → ℕ → ℕ → Result CloberError ℤ
liquidation_pnl is_long size_lots entry_price fill_price tick_size = do
  price_diff ← ok_or (checked i128 (sub_ℕ fill_price entry_price)) arithmetic_underflow
  per_tick ← ok_or (checked i128 (pos size_lots *ℤ price_diff)) arithmetic_overflow
  unsigned ← ok_or (checked i128 (per_tick *ℤ pos tick_size)) arithmetic_overflow
  ok_or (checked i128 (unsigned *ℤ (if is_long then pos 1 else neg (pos 1)))) arithmetic_overflow

unfoldable pub liquidation_penalty : ℕ → ℕ → ℕ → ℕ → Result CloberError ℤ
liquidation_penalty size_lots fill_price tick_size liq_penalty_bps = do
  value ← ok_or (checked i128 (pos size_lots *ℤ pos fill_price)) arithmetic_overflow
  notional ← ok_or (checked i128 (value *ℤ pos tick_size)) arithmetic_overflow
  scaled ← ok_or (checked i128 (notional *ℤ pos liq_penalty_bps)) arithmetic_overflow
  ok (div_trunc scaled 10000)

-- An `i128` amount in `u64`, with the largest one for those past it.
abbrev pub clamp_u64 : ℕ → ℕ
clamp_u64 amount = min amount (u64 - 1)

unfoldable pub compute_shortfall : Bool → ℕ → ℕ → ℕ → ℕ → ℕ → ℕ → Result CloberError ShortfallResult
compute_shortfall is_long size_lots entry_price fill_price collateral tick_size liq_penalty_bps = do
  pnl ← liquidation_pnl is_long size_lots entry_price fill_price tick_size
  penalty ← liquidation_penalty size_lots fill_price tick_size liq_penalty_bps
  with_pnl ← ok_or (checked i128 (pos collateral +ℤ pnl)) arithmetic_overflow
  remaining ← ok_or (checked i128 (with_pnl -ℤ penalty)) arithmetic_underflow
  ok (
      if not (is_neg remaining)
      then record {
        liquidation_penalty_quote_lots = clamp_u64 (pos_part penalty);
        shortfall_quote_lots = 0;
        collateral_recovered_quote_lots = clamp_u64 (pos_part remaining);
      }
      else record {
        liquidation_penalty_quote_lots = clamp_u64 (pos_part penalty);
        shortfall_quote_lots = clamp_u64 (neg_part remaining);
        collateral_recovered_quote_lots = 0;
      })

pub data ReduceOnlyOutcome : Type 0 where
  admit reject : ReduceOnlyOutcome
  partial_admit : ℕ → ReduceOnlyOutcome

-- Sides are 0 for long, 1 for short, and 2 for flat.
unfoldable pub check_reduce_only : ℕ → ℕ → ℕ → ℕ → ReduceOnlyOutcome
check_reduce_only position_side position_size_lots order_side order_size_lots =
    if position_size_lots == 0 || position_side == 2
    then reject
    else if not (position_side == 0 && order_side == 1 || position_side == 1 && order_side == 0)
    then reject
    else if leb order_size_lots position_size_lots
    then admit
    else partial_admit position_size_lots
