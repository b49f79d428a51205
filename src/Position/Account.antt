-- ===== src/Position/Account.antt =====
-- Positions and funding in programs/clober/src/lib.rs, over the arithmetic of
-- programs/clober/src/matcher/position_math.rs and `funding_owed` of matcher/funding.rs.
use flash_book.Common.{
  ℕ, ◌-◌, ◌%◌, ◌^◌, min, Bool, ltb, ◌==◌, if◌then◌else◌, Result, ok, ok_or, ◌>>=◌, map_err, u64,
  u128, checked_add,
}
use flash_book.Common.Int.{
  ℤ, pos, neg, ◌+ℤ◌, ◌-ℤ◌, ◌*ℤ◌, checked, saturated, div_floor, i64, i128, is_pos, is_neg, pos_part,
  neg_part,
}
use flash_book.Errors.{CloberError, arithmetic_overflow, arithmetic_underflow, division_by_zero}
use flash_book.Position.{PosMathError, apply_fill}

-- The fields that fills and funding touch.
pub record PositionAccount : Type 0 where
  pub side : ℕ
  pub size_lots : ℕ
  pub entry_price_ticks : ℕ
  pub realized_pnl_quote_lots : ℤ
  pub collateral_quote_lots : ℕ
  pub cum_funding_index : ℤ
  pub funding_paid_quote_lots : ℤ

abbrev pub map_pos_error : PosMathError → CloberError
map_pos_error PosMathError.overflow = arithmetic_overflow
map_pos_error PosMathError.underflow = arithmetic_underflow
map_pos_error PosMathError.div_by_zero = division_by_zero

unfoldable pub apply_fill_to_position :
    PositionAccount → ℕ → ℕ → ℕ → ℤ → ℕ → Result CloberError PositionAccount
apply_fill_to_position p fill_side fill_size_lots fill_price_ticks funding_index_now tick_size = do
  outcome ← map_err map_pos_error (
      apply_fill
        (record { side = p.side; size_lots = p.size_lots; entry_ticks = p.entry_price_ticks })
        fill_side fill_size_lots fill_price_ticks tick_size)
  realized ←
      ok_or (checked i64 (p.realized_pnl_quote_lots +ℤ outcome.realized_pnl_quote_lots))
        arithmetic_overflow
  ok (record p {
    side = outcome.pos.side;
    size_lots = outcome.pos.size_lots;
    entry_price_ticks = outcome.pos.entry_ticks;
    realized_pnl_quote_lots = realized;
    cum_funding_index = if outcome.reset_funding then funding_index_now else p.cum_funding_index;
  })

-- `1 << FUNDING_INDEX_FRACTIONAL_BITS`
abbrev pub funding_index_one : ℕ
funding_index_one = 2 ^ 16

-- What a position owes, or receives where negative.
unfoldable pub funding_owed : Bool → ℕ → ℤ → ℤ → Result CloberError ℤ
funding_owed is_long size_lots cum_index_now cum_index_at_entry = do
  delta ← ok_or (checked i128 (cum_index_now -ℤ cum_index_at_entry)) arithmetic_underflow
  prod ← ok_or (checked i128 (pos size_lots *ℤ delta)) arithmetic_overflow
  ok (if is_long then div_floor prod funding_index_one else neg (div_floor prod funding_index_one))

pub data FundingRouteErr : Type 0 where
  overflow : FundingRouteErr

-- The new collateral and Residual.
unfoldable pub route_funding : ℤ → ℕ → ℕ → Result FundingRouteErr (ℕ × ℕ)
route_funding owed collateral residual =
    if is_pos owed
    then (let paid = min (pos_part owed) collateral in
        do
          new_residual ← ok_or (checked_add u128 residual paid) overflow
          ok (collateral - paid, new_residual))
    else if is_neg owed
    then (let applied = min (neg_part owed) residual in
        do
          new_collateral ← ok_or (checked_add u64 collateral (applied % u64)) overflow
          ok (new_collateral, residual - applied))
    else ok (collateral, residual)

-- The position, the trader's pooled collateral, the market's Residual and the amount owed.
pub record FundingState : Type 0 where
  pub position : PositionAccount
  pub cross_collateral : ℕ
  pub residual : ℕ

abbrev pub map_route_error : FundingRouteErr → CloberError
map_route_error overflow = arithmetic_overflow

unfoldable pub settle_position_funding : ℤ → FundingState → Result CloberError (ℤ × FundingState)
settle_position_funding market_cum_funding_index s =
    let p = s.position in
    if p.size_lots == 0
    then ok
        (pos 0, record s { position = record p { cum_funding_index = market_cum_funding_index } })
    else (do
      owed_i128 ←
          funding_owed (p.side == 0) p.size_lots market_cum_funding_index p.cum_funding_index
      let owed = saturated i64 owed_i128
      let isolated = ltb 0 p.collateral_quote_lots
      (new_bucket, new_residual) ← map_err map_route_error (
          route_funding owed (if isolated then p.collateral_quote_lots else s.cross_collateral)
            s.residual)
      funding_paid ← ok_or (checked i64 (p.funding_paid_quote_lots +ℤ owed)) arithmetic_overflow
      ok (
        owed,
        record {
          position = record p {
            collateral_quote_lots = if isolated then new_bucket else p.collateral_quote_lots;
            cum_funding_index = market_cum_funding_index;
            funding_paid_quote_lots = funding_paid;
          };
          cross_collateral = if isolated then s.cross_collateral else new_bucket;
          residual = new_residual;
        },
      ))
