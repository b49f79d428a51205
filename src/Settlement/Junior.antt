-- ===== src/Settlement/Junior.antt =====
-- The haircut instructions of programs/clober/src/lib.rs over the accounts that they touch:
-- `release_gain_to_haircut`, `mature_position`, `convert_position`, `flush_haircut_dust`. An error
-- reverts the transaction, so an error result carries no state.
pub mod Laws
pub mod Report
pub mod System
mod Tests
use flash_book.Common.{
  ℕ, ◌-◌, ◌<◌, min, Bool, true, false, ltb, ◌==◌, not, if◌then◌else◌, Result, ok, err, ok_or, ◌>>=◌,
  ◌>>◌, map_err, require, u64, u128, checked_add, checked_sub,
}
use flash_book.Common.Int.{pos}
use flash_book.Errors.{
  CloberError, arithmetic_overflow, arithmetic_underflow, unauthorized, insufficient_collateral,
  haircut_zero_gain, haircut_residual_underflow, haircut_nothing_to_mature,
  haircut_nothing_to_convert,
}
use flash_book.Haircut.{
  PositionHaircutSnapshot, MarketHaircutSnapshot, InvariantReport, compute_h, apply_release,
  apply_mature, apply_convert, verify_invariants,
}
use flash_book.Settlement.Pnl.{
  Collateral, InsuranceFundAccount, map_haircut_error, apply_realized_pnl_direct,
}

-- `MarketHaircutStateAccount`: the snapshot's fields and the cached ratio.
pub record MarketHaircutStateAccount : Type 0 where
  pub snapshot : MarketHaircutSnapshot
  pub open snapshot use *
  pub h_scaled_cached : ℕ
  pub h_cached_at_slot : ℕ

-- The accounts of a haircut instruction on one position.
pub record Accounts : Type 0 where
  pub position : PositionHaircutSnapshot
  pub market : MarketHaircutStateAccount
  pub collateral : Collateral

-- The cached ratio after the totals have changed.
abbrev pub recache : MarketHaircutSnapshot → ℕ → MarketHaircutStateAccount
recache m now_slot = record {
  snapshot = m;
  h_scaled_cached = min (compute_h m.residual_quote_lots m.matured_pos_total_quote_lots) (u64 - 1);
  h_cached_at_slot = now_slot;
}

-- `xmargin::apply_collateral_debit_checked`
unfoldable pub apply_collateral_debit_checked : ℕ → ℕ → Result CloberError ℕ
apply_collateral_debit_checked balance amount =
    ok_or (checked_sub balance amount) insufficient_collateral

-- The bucket that holds the position's collateral is debited.
abbrev pub debit_bucket : Collateral → ℕ → Result CloberError Collateral
debit_bucket c amount =
    if ltb 0 c.iso
    then (do v ← apply_collateral_debit_checked c.iso amount; ok (record c { iso = v }))
    else (do v ← apply_collateral_debit_checked c.cross amount; ok (record c { cross = v }))

-- `authorized`: the signer is the market's authority.
unfoldable pub release_gain_to_haircut : Bool → ℕ → ℕ → Accounts → Result CloberError Accounts
unfolding apply_collateral_debit_checked
release_gain_to_haircut authorized gain now_slot a = do
  require (ltb 0 gain) haircut_zero_gain
  require authorized unauthorized
  c ← debit_bucket a.collateral gain
  post ← map_err map_haircut_error (apply_release a.position gain now_slot a.market.h_min_slots)
  ok (record a { position = post; collateral = c })

unfoldable pub mature_position : ℕ → Accounts → Result CloberError Accounts
mature_position now_slot a = do
  let m = a.market.snapshot
  (post, delta) ←
      map_err map_haircut_error (apply_mature a.position now_slot m.h_min_slots m.h_max_slots)
  require (ltb 0 delta) haircut_nothing_to_mature
  total ← ok_or (checked_add u128 m.matured_pos_total_quote_lots delta) arithmetic_overflow
  ok (record a {
    position = post;
    market = recache (record m { matured_pos_total_quote_lots = total }) now_slot;
  })

-- `authorized`: the signer is the trader or their delegate.
unfoldable pub convert_position : Bool → ℕ → Accounts → Result CloberError Accounts
convert_position authorized now_slot a = do
  require authorized unauthorized
  require (ltb 0 a.position.matured_pos_quote_lots) haircut_nothing_to_convert
  let m = a.market.snapshot
  let h_scaled = compute_h m.residual_quote_lots m.matured_pos_total_quote_lots
  let (post, credit, dust) = apply_convert a.position h_scaled
  total ←
      ok_or (checked_sub m.matured_pos_total_quote_lots a.position.matured_pos_quote_lots)
        haircut_residual_underflow
  dust_total ← ok_or (checked_add u128 m.dust_accrued_quote_lots dust) arithmetic_overflow
  residual ← ok_or (checked_sub m.residual_quote_lots credit) haircut_residual_underflow
  (shortfall, removed, c) ←
      apply_realized_pnl_direct (pos credit) (ltb 0 a.collateral.iso) a.collateral
  ok (record {
    position = record a.position { matured_pos_quote_lots = post.matured_pos_quote_lots };
    market =
        recache
          (record m {
            matured_pos_total_quote_lots = total;
            dust_accrued_quote_lots = dust_total;
            residual_quote_lots = residual;
          })
          now_slot;
    collateral = c;
  })

-- The cached ratio is left as it was.
unfoldable pub flush_haircut_dust :
    MarketHaircutStateAccount
    → InsuranceFundAccount
    → Result CloberError (MarketHaircutStateAccount × InsuranceFundAccount)
flush_haircut_dust market insurance = do
  let m = market.snapshot
  require (ltb 0 m.dust_accrued_quote_lots) haircut_nothing_to_convert
  let dust = if ltb (u64 - 1) m.dust_accrued_quote_lots then u64 - 1 else m.dust_accrued_quote_lots
  balance ← ok_or (checked_add u64 insurance.balance_quote_lots dust) arithmetic_overflow
  contributions ← ok_or (checked_add u64 insurance.total_contributions dust) arithmetic_overflow
  left ← ok_or (checked_sub m.dust_accrued_quote_lots dust) arithmetic_underflow
  residual ← ok_or (checked_sub m.residual_quote_lots dust) haircut_residual_underflow
  ok (
    record market {
      snapshot = record m { dust_accrued_quote_lots = left; residual_quote_lots = residual };
    },
    record insurance { balance_quote_lots = balance; total_contributions = contributions },
  )

-- What `verify_haircut_invariants` reports.
unfoldable pub verify_haircut_invariants : MarketHaircutStateAccount → InvariantReport
verify_haircut_invariants market =
    verify_invariants market.snapshot market.h_scaled_cached market.h_cached_at_slot
