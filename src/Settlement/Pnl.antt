-- ===== src/Settlement/Pnl.antt =====
-- Realised profit and loss into collateral: the helpers of programs/clober/src/lib.rs that every
-- settlement calls. An account's fields that a helper touches are an argument and come back with
-- the result.
pub mod Laws
mod Tests
use flash_book.Common.{
  ℕ, ◌+◌, ◌-◌, min, Bool, true, false, not, ◌&&◌, ◌||◌, Option, none, some, ltb, leb, ◌==◌,
  if◌then◌else◌, Result, ok, err, ok_or, ◌>>=◌, map_err, map_ok, u64, u128, checked_add,
  checked_sub, saturating_add, saturating_sub,
}
use flash_book.Common.Int.{ℤ, pos_part, neg_part, is_pos, is_neg}
use flash_book.Errors.{
  CloberError, arithmetic_overflow, arithmetic_underflow, insufficient_collateral,
  haircut_inverted_window, haircut_window_too_large, haircut_zero_gain,
}
use flash_book.Haircut.{
  HaircutError, overflow, underflow, inverted_window, window_too_large, zero_gain,
  PositionHaircutSnapshot, MarketHaircutSnapshot, apply_release,
}

-- `position.collateral_quote_lots` and `trader_state.collateral_quote_lots`: the isolated bucket of
-- a position, and the trader's cross pool.
pub record Collateral : Type 0 where
  pub iso : ℕ
  pub cross : ℕ

-- The fields of `InsuranceFundAccount` that settlement moves.
pub record InsuranceFundAccount : Type 0 where
  pub balance_quote_lots : ℕ
  pub total_contributions : ℕ
  pub total_payouts : ℕ

unfoldable pub map_haircut_error : HaircutError → CloberError
map_haircut_error overflow = arithmetic_overflow
map_haircut_error underflow = arithmetic_underflow
map_haircut_error inverted_window = haircut_inverted_window
map_haircut_error window_too_large = haircut_window_too_large
map_haircut_error zero_gain = haircut_zero_gain

-- The new balance and the shortfall.
unfoldable pub cross_loss_shortfall : ℕ → ℕ → ℕ × ℕ
cross_loss_shortfall debit cross_collateral =
    let covered = min debit cross_collateral in (cross_collateral - covered, debit - covered)

-- An `i128` amount in `u64`, saturated as the source does in both directions.
abbrev pub credit_of : ℤ → ℕ
credit_of delta = if ltb (u64 - 1) (pos_part delta) then u64 - 1 else pos_part delta

abbrev pub debit_of : ℤ → ℕ
debit_of delta = if ltb (u64 - 1) (neg_part delta) then u64 - 1 else neg_part delta

unfoldable pub compute_realized_pnl_routing : ℤ → Bool → Collateral → Result CloberError Collateral
compute_realized_pnl_routing delta isolated c =
    if is_pos delta
    then (if isolated
        then map_ok (λ v. record c { iso = v })
            (ok_or (checked_add u64 c.iso (credit_of delta)) arithmetic_overflow)
        else map_ok (λ v. record c { cross = v })
            (ok_or (checked_add u64 c.cross (credit_of delta)) arithmetic_overflow))
    else if is_neg delta
    then (if isolated
        then ok (record c { iso = saturating_sub c.iso (debit_of delta) })
        else map_ok (λ v. record c { cross = v })
            (ok_or (checked_sub c.cross (debit_of delta)) insufficient_collateral))
    else ok c

-- What a loss took from the bucket that it debits.
abbrev removed_by : ℤ → Bool → Collateral → Collateral → ℕ
removed_by delta isolated c c' =
    if is_neg delta
    then (if isolated then saturating_sub c.iso c'.iso else saturating_sub c.cross c'.cross)
    else 0

-- The shortfall, the collateral removed, and the buckets.
unfoldable pub apply_realized_pnl_direct :
    ℤ → Bool → Collateral → Result CloberError (ℕ × ℕ × Collateral)
unfolding compute_realized_pnl_routing cross_loss_shortfall
apply_realized_pnl_direct delta isolated c =
    if is_neg delta && not isolated && ltb c.cross (debit_of delta)
    then (let (new_cross, shortfall) = cross_loss_shortfall (debit_of delta) c.cross in
        ok (shortfall, c.cross, record c { cross = new_cross }))
    else if is_neg delta && isolated && ltb c.iso (debit_of delta)
    then (let (new_iso, shortfall) = cross_loss_shortfall (debit_of delta) c.iso in
        ok (shortfall, c.iso, record c { iso = new_iso }))
    else (do
      c' ← compute_realized_pnl_routing delta isolated c
      ok (0, removed_by delta isolated c c', c'))

-- With a haircut state a gain goes to the reserve.
unfoldable pub apply_realized_pnl_delta :
    ℤ
    → Bool
    → Collateral
    → Option PositionHaircutSnapshot
    → ℕ
    → ℕ
    → Result CloberError (ℕ × ℕ × Collateral × Option PositionHaircutSnapshot)
apply_realized_pnl_delta delta isolated c none now_slot h_min = do
  (shortfall, removed, c') ← apply_realized_pnl_direct delta isolated c
  ok (shortfall, removed, c', none)
apply_realized_pnl_delta delta isolated c (some ph) now_slot h_min =
    if is_pos delta
    then (do
      post ← map_err map_haircut_error (apply_release ph (credit_of delta) now_slot h_min)
      ok (0, 0, c, some post))
    else (do
      (shortfall, removed, c') ← apply_realized_pnl_direct delta isolated c
      ok (shortfall, removed, c', some ph))

-- What the fund covers of a shortfall; a permissionless market draws nothing.
unfoldable pub cover_bad_debt : InsuranceFundAccount → ℕ → Bool → InsuranceFundAccount
cover_bad_debt fund shortfall market_is_permissionless =
    if shortfall == 0
    then fund
    else (let covered =
          if market_is_permissionless then 0 else min shortfall fund.balance_quote_lots in
        record fund {
          balance_quote_lots = fund.balance_quote_lots - covered;
          total_payouts = saturating_add u64 fund.total_payouts covered;
        })

unfoldable pub accrue_haircut_loss :
    Option MarketHaircutSnapshot → Bool → ℕ → Result CloberError (Option MarketHaircutSnapshot)
accrue_haircut_loss none position_opted collateral_removed = ok none
accrue_haircut_loss (some mh) position_opted collateral_removed =
    if collateral_removed == 0 || not position_opted then ok (some mh) else (do
      residual ←
          ok_or (checked_add u128 mh.residual_quote_lots collateral_removed) arithmetic_overflow
      loss ←
          ok_or (checked_add u128 mh.realized_loss_total_quote_lots collateral_removed)
            arithmetic_overflow
      ok (
          some
            (record mh { residual_quote_lots = residual; realized_loss_total_quote_lots = loss })))

-- What one leg of a fill touches: the trader's buckets, the position's and the market's haircut
-- state where they are given, and the fund.
pub record LegState : Type 0 where
  pub collateral : Collateral
  pub position_haircut : Option PositionHaircutSnapshot
  pub market_haircut : Option MarketHaircutSnapshot
  pub insurance_fund : InsuranceFundAccount

abbrev pub is_some {ℓ} : {A : Type ℓ} → Option A → Bool
is_some none = false
is_some (some a) = true

abbrev pub h_min_of : Option MarketHaircutSnapshot → ℕ
h_min_of none = 0
h_min_of (some mh) = mh.h_min_slots

-- The realised leg of a fill in `apply_fill`, of the taker and of the maker alike.
unfoldable pub settle_realized_leg : ℤ → Bool → Bool → ℕ → LegState → Result CloberError LegState
settle_realized_leg delta isolated is_permissionless now_slot s =
    if is_neg delta || is_pos delta
    then (do
      (shortfall, removed, c', ph') ←
          apply_realized_pnl_delta delta isolated s.collateral s.position_haircut now_slot
            (h_min_of s.market_haircut)
      mh' ← accrue_haircut_loss s.market_haircut (is_some s.position_haircut) removed
      ok (record {
        collateral = c';
        position_haircut = ph';
        market_haircut = mh';
        insurance_fund = cover_bad_debt s.insurance_fund shortfall is_permissionless;
      }))
    else ok s
