-- ===== src/Collateral.antt =====
-- Collateral between a trader's accounts, a liquidator and the insurance fund: the cores of
-- programs/clober/src/xmargin.rs, and those of programs/clober/src/lib.rs that deleveraging and the
-- forced close by the oracle go through.
pub mod Laws
pub mod Ledger
mod Tests
use flash_book.Common.{
  ℕ, ◌+◌, ◌-◌, ◌*◌, ◌/◌, min, Bool, true, false, Option, none, some, ltb, leb, ◌==◌, if◌then◌else◌,
  Result, ok, err, ok_or, require, ◌>>=◌, ◌>>◌, u64, u128, checked_add, checked_sub, saturating_mul,
  saturating_sub,
}
use flash_book.Common.Int.{ℤ, pos_part, neg_part, is_pos, is_neg}
use flash_book.Errors.{
  CloberError, arithmetic_overflow, arithmetic_underflow, insufficient_collateral, er_epoch_replay,
  er_margin_reserved, er_margin_account_mismatch, use_x_domain_withdraw,
}

unfoldable pub advance_epoch : ℕ → ℕ → Result CloberError ℕ
advance_epoch current proposed = do require (ltb current proposed) er_epoch_replay; ok proposed

unfoldable pub check_simple_withdraw : ℕ → ℕ → ℕ → Result CloberError (Unit {0})
check_simple_withdraw collateral amount er_reserved = do
  require (leb amount collateral) insufficient_collateral
  require (leb er_reserved (collateral - amount)) er_margin_reserved

-- The source, which keeps the reservation, and the destination.
unfoldable pub apply_collateral_transfer : ℕ → ℕ → ℕ → ℕ → Result CloberError (ℕ × ℕ)
apply_collateral_transfer src dst amount er_reserved = do
  check_simple_withdraw src amount er_reserved
  dst_after ← ok_or (checked_add u64 dst amount) arithmetic_overflow
  ok (src - amount, dst_after)

unfoldable pub split_to_isolated : ℕ → ℕ → Result CloberError (ℕ × ℕ)
split_to_isolated cross amount = do
  cross_after ← ok_or (checked_sub cross amount) arithmetic_underflow
  ok (cross_after, amount)

unfoldable pub merge_to_cross : ℕ → ℕ → Result CloberError ℕ
merge_to_cross cross isolated = ok_or (checked_add u64 cross isolated) arithmetic_overflow

-- The source, the liquidator, and what was paid.
unfoldable pub apply_liquidation_reward : ℕ → ℕ → ℕ → Result CloberError (ℕ × ℕ × ℕ)
apply_liquidation_reward src caller reward =
    let paid = min reward src in
    do
      caller_after ← ok_or (checked_add u64 caller paid) arithmetic_overflow
      ok (src - paid, caller_after, paid)

unfoldable pub apply_capped_debit : ℕ → ℕ → ℕ × ℕ
apply_capped_debit balance amount = let debited = min amount balance in (balance - debited, debited)

-- The initial margin that an order commits, rounded up and saturating.
unfoldable pub incremental_im : ℕ → ℕ → ℕ → ℕ → ℕ
incremental_im size_lots price_ticks tick_size im_bps =
    if im_bps == 0
    then 0
    else (let notional =
          saturating_mul u128 (saturating_mul u128 size_lots price_ticks) tick_size in
        min ((saturating_mul u128 notional im_bps + 9999) / 10000) (u64 - 1))

unfoldable pub reserve_add : ℕ → ℕ → Result CloberError ℕ
reserve_add reserved add = ok_or (checked_add u64 reserved add) arithmetic_overflow

unfoldable pub reserve_release : ℕ → ℕ → ℕ
reserve_release reserved sub = saturating_sub reserved sub

-- An attestation of the rollup: the account that it is bound to, and the margin that it reserves.
pub record ErMarginAttestation : Type 0 where
  pub trader_state : ℕ
  pub reserved_margin_quote_lots : ℕ

unfoldable pub resolve_er_reserved : ℕ → ℕ → Option ErMarginAttestation → Result CloberError ℕ
resolve_er_reserved source_state source_er_active none = do
  require (source_er_active == 0) use_x_domain_withdraw
  ok 0
resolve_er_reserved source_state source_er_active (some a) = do
  require (a.trader_state == source_state) er_margin_account_mismatch
  ok a.reserved_margin_quote_lots

-- The position's bucket and the trader's pool after a loss, and after a gain.
unfoldable pub route_adl_loss : Bool → ℕ → ℕ → ℕ → ℕ × ℕ
route_adl_loss isolated loss pos_collateral trader_state_collateral =
    if isolated
    then (saturating_sub pos_collateral loss, trader_state_collateral)
    else (pos_collateral, saturating_sub trader_state_collateral loss)

unfoldable pub route_adl_gain : Bool → ℕ → ℕ → ℕ → Result CloberError (ℕ × ℕ)
route_adl_gain isolated gain pos_collateral trader_state_collateral =
    if isolated
    then (do
      p ← ok_or (checked_add u64 pos_collateral gain) arithmetic_overflow
      ok (p, trader_state_collateral))
    else (do
      t ← ok_or (checked_add u64 trader_state_collateral gain) arithmetic_overflow
      ok (pos_collateral, t))

-- The bucket and the fund after a close at a profit or loss.
unfoldable pub force_close_against_insurance : ℤ → ℕ → ℕ → ℕ × ℕ
force_close_against_insurance pnl bucket insurance =
    if is_pos pnl
    then (let paid = min (min (min (pos_part pnl) (u64 - 1)) insurance) (u64 - 1 - bucket) in
        (bucket + paid, insurance - paid))
    else if is_neg pnl
    then (let paid = min (min (min (neg_part pnl) (u64 - 1)) bucket) (u64 - 1 - insurance) in
        (bucket - paid, insurance + paid))
    else (bucket, insurance)

unfoldable pub adl_bankruptcy_reached : ℕ → ℕ → ℕ → Bool
adl_bankruptcy_reached side health_mark bp_ticks =
    if side == 0 then leb health_mark bp_ticks else leb bp_ticks health_mark

-- The money of a forced close by the oracle: the position's bucket, the trader's pool and the fund.
unfoldable pub force_reduce_settle : ℤ → ℕ → ℕ → ℕ → Result CloberError (ℕ × ℕ × ℕ)
force_reduce_settle pnl iso_collateral cross insurance =
    let is_isolated = ltb 0 iso_collateral in
    let (new_bucket, new_insurance) =
      force_close_against_insurance pnl (if is_isolated then iso_collateral else cross) insurance in
    if is_isolated
    then (do merged ← merge_to_cross cross new_bucket; ok (0, merged, new_insurance))
    else ok (0, new_bucket, new_insurance)
