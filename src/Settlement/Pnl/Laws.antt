-- ===== src/Settlement/Pnl/Laws.antt =====
-- Conservation of value on the realised profit and loss path of programs/clober/src/lib.rs.
use flash_book.Common.{
  ℕ, ◌+◌, ◌-◌, ◌≤◌, ◌<◌, ◌≡◌, Bool, true, false, Option, none, some, arith, ok, err, Returns,
  Ensures, u64, if◌then◌else◌,
}
use flash_book.Common.Int.{ℤ, pos, negsuc, pos_part, neg_part, is_pos}
use flash_book.Errors.{CloberError}
use flash_book.Haircut.{PositionHaircutSnapshot, MarketHaircutSnapshot}
use flash_book.Haircut.Pipeline.{apply_release_moves}
use flash_book.Settlement.Pnl.{
  Collateral, InsuranceFundAccount, credit_of, debit_of, compute_realized_pnl_routing,
  apply_realized_pnl_direct, apply_realized_pnl_delta, cover_bad_debt, accrue_haircut_loss,
  LegState, settle_realized_leg,
}

-- All the collateral of a trader that a settlement can reach.
abbrev pub total : Collateral → ℕ
total c = c.iso + c.cross

-- A loss never fails. The collateral removed leaves the trader's buckets, removed and shortfall
-- add up to the loss (saturated to u64), a positive shortfall is reported only for a bucket that
-- is now empty, and the other bucket stays as it was.
pub apply_realized_pnl_direct_loss :
    (delta : ℤ) (isolated : Bool) (c : Collateral)
    → 0 < neg_part delta
    → Returns (apply_realized_pnl_direct delta isolated c) λ out.
      let (shortfall, removed, c') = out in
      (total c' + removed ≡ total c)
      × (removed + shortfall ≡ debit_of delta)
      × (0 < shortfall → (if isolated then c'.iso else c'.cross) ≡ 0)
      × ((if isolated then c'.cross else c'.iso) ≡ (if isolated then c.cross else c.iso))
unfolding apply_realized_pnl_direct
apply_realized_pnl_direct_loss delta true c h = ground arith
apply_realized_pnl_direct_loss delta false c h = ground arith

-- A gain that fits in its bucket is credited to that bucket in full, and reports neither a
-- shortfall nor a removal.
pub apply_realized_pnl_direct_gain :
    (delta : ℤ) (isolated : Bool) (c : Collateral)
    → 0 < pos_part delta
    → (if isolated then c.iso else c.cross) + credit_of delta < u64
    → apply_realized_pnl_direct delta isolated c
      ≡ ok (
        0,
        0,
        (if isolated
            then record c { iso = c.iso + credit_of delta }
            else record c { cross = c.cross + credit_of delta }),
      )
unfolding apply_realized_pnl_direct
apply_realized_pnl_direct_gain delta true c h fits = ground arith
apply_realized_pnl_direct_gain delta false c h fits = ground arith

-- The helper that routes alone refuses a loss past the cross pool; the settlement path, which asks
-- it only for losses that are covered, saturates instead.
pub routing_refuses_uncovered :
    (delta : ℤ) (c : Collateral)
    → c.cross < debit_of delta
    → (compute_realized_pnl_routing delta false c ≡ err CloberError.insufficient_collateral)
      × (apply_realized_pnl_direct delta false c
          ≡ ok (debit_of delta - c.cross, c.cross, record c { cross = 0 }))
unfolding apply_realized_pnl_direct compute_realized_pnl_routing
routing_refuses_uncovered delta c h = ground arith

-- If the payout tally has room for the shortfall, balance and payouts of the fund keep their
-- sum, the fund loses at most the shortfall, a permissionless market's bad debt draws nothing,
-- and otherwise the balance falls by the shortfall or to zero.
pub cover_bad_debt_bounds :
    (fund : InsuranceFundAccount) (shortfall : ℕ) (permissionless : Bool)
    → fund.total_payouts + shortfall < u64
    → let fund' = cover_bad_debt fund shortfall permissionless in
      (fund'.balance_quote_lots + fund'.total_payouts
        ≡ fund.balance_quote_lots + fund.total_payouts)
      × (fund.balance_quote_lots ≤ fund'.balance_quote_lots + shortfall)
      × (permissionless ≡ true → fund'.balance_quote_lots ≡ fund.balance_quote_lots)
      × (permissionless ≡ false → fund'.balance_quote_lots ≡ fund.balance_quote_lots - shortfall)
unfolding cover_bad_debt
cover_bad_debt_bounds fund shortfall permissionless h =
    (ground arith, ground arith, λ e. ground arith, λ e. ground arith)

abbrev pub reserve_of : Option PositionHaircutSnapshot → ℕ
reserve_of none = 0
reserve_of (some p) = p.released_reserve_quote_lots

abbrev pub matured_of : Option PositionHaircutSnapshot → ℕ
matured_of none = 0
matured_of (some p) = p.matured_pos_quote_lots

abbrev pub residual_of : Option MarketHaircutSnapshot → ℕ
residual_of none = 0
residual_of (some m) = m.residual_quote_lots

-- What a settlement credits: a gain, saturated to `u64`.
abbrev pub gain_of : ℤ → ℕ
gain_of delta = if is_pos delta then credit_of delta else 0

-- Junior gains, senior losses: where a settlement on an opted position succeeds, its reserve has
-- grown by exactly the gain and its matured profit is untouched, the collateral has fallen by
-- exactly what is reported as removed, removed and shortfall add up to the loss, a gain or zero
-- leaves the collateral alone, and a loss or zero leaves the reserve and its warmup alone.
pub apply_realized_pnl_delta_seniority :
    (delta : ℤ) (isolated : Bool) (c : Collateral) (ph : PositionHaircutSnapshot) (now h_min : ℕ)
    → Ensures (apply_realized_pnl_delta delta isolated c (some ph) now h_min) λ out.
      let (shortfall, removed, c', ph') = out in
      (reserve_of ph' ≡ ph.released_reserve_quote_lots + gain_of delta)
      × (matured_of ph' ≡ ph.matured_pos_quote_lots)
      × (total c' + removed ≡ total c)
      × (removed + shortfall ≡ debit_of delta)
      × (neg_part delta ≡ 0 → c' ≡ c)
      × (pos_part delta ≡ 0 → ph' ≡ some ph)
unfolding apply_realized_pnl_delta apply_realized_pnl_direct
apply_realized_pnl_delta_seniority (pos d) isolated c ph now h_min =
    ground (arith, apply_release_moves ph (credit_of (pos d)) now h_min)
apply_realized_pnl_delta_seniority (negsuc d) true c ph now h_min = ground arith
apply_realized_pnl_delta_seniority (negsuc d) false c ph now h_min = ground arith

-- Where the realised leg of a fill on an opted position succeeds, collateral, reserve and
-- Residual together have grown by exactly the gain (a loss moves from collateral to the
-- Residual, as far as the collateral goes), the growth of the Residual and the payment of the
-- fund together are at most the loss, and the fund has not grown.
pub settle_realized_leg_conserves :
    (delta : ℤ) (isolated permissionless : Bool) (now : ℕ) (c : Collateral)
    (ph : PositionHaircutSnapshot) (mh : MarketHaircutSnapshot) (fund : InsuranceFundAccount)
    → let s : LegState = record {
      collateral = c;
      position_haircut = some ph;
      market_haircut = some mh;
      insurance_fund = fund;
    } in
      Ensures (settle_realized_leg delta isolated permissionless now s) λ t.
        (total t.collateral + reserve_of t.position_haircut + residual_of t.market_haircut
          ≡ total c + ph.released_reserve_quote_lots + mh.residual_quote_lots + gain_of delta)
        × (fund.balance_quote_lots + residual_of t.market_haircut
            ≤ t.insurance_fund.balance_quote_lots + mh.residual_quote_lots + debit_of delta)
        × (t.insurance_fund.balance_quote_lots ≤ fund.balance_quote_lots)
unfolding settle_realized_leg accrue_haircut_loss cover_bad_debt
settle_realized_leg_conserves delta isolated permissionless now c ph mh fund =
    ground (arith, apply_realized_pnl_delta_seniority delta isolated c ph now mh.h_min_slots)
