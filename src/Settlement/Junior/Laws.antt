-- ===== src/Settlement/Junior/Laws.antt =====
-- What the haircut instructions keep: collateral and Residual, the market's matured total, the
-- cached ratio.
use flash_book.Common.{
  ℕ, ◌+◌, ◌≤◌, ◌<◌, ◌≡◌, Bool, true, arith, [], ◌∷◌, Returns, Ensures, u64, u128,
}
use flash_book.Haircut.{compute_h, apply_convert}
use flash_book.Haircut.Ratio.{IsExact, compute_h-le}
use flash_book.Haircut.Payout.{apply_convert_exact, total_credit-le-residual}
use flash_book.Haircut.Pipeline.{apply_release_moves, apply_mature_moves}
use flash_book.Settlement.Pnl.{InsuranceFundAccount, apply_realized_pnl_direct}
use flash_book.Settlement.Pnl.Laws.{total}
use flash_book.Settlement.Junior.{
  MarketHaircutStateAccount, Accounts, release_gain_to_haircut, mature_position, convert_position,
  flush_haircut_dust,
}

-- The fields are within their widths, the position's matured profit is part of the market's total,
-- and the ratio's numerator fits.
pub record IsBooked (a : Accounts) : Type 0 where
  pub stored : a.position.matured_pos_quote_lots < u64
  pub counted : a.position.matured_pos_quote_lots ≤ a.market.matured_pos_total_quote_lots
  pub exact : IsExact a.market.residual_quote_lots a.market.matured_pos_total_quote_lots
  pub iso_room : a.collateral.iso + a.position.matured_pos_quote_lots < u64
  pub cross_room : a.collateral.cross + a.position.matured_pos_quote_lots < u64
  pub dust_room : a.market.dust_accrued_quote_lots + a.position.matured_pos_quote_lots < u128

credit_backed :
    (a : Accounts)
    → IsBooked a
    → let h = compute_h a.market.residual_quote_lots a.market.matured_pos_total_quote_lots in
      (apply_convert a.position h).1 ≤ a.market.residual_quote_lots
credit_backed a b = omega (
  arith,
  total_credit-le-residual (a.position ∷ []) a.market.residual_quote_lots
      a.market.matured_pos_total_quote_lots (b.stored, tt) (omega (arith, b.counted)) b.exact,
)

-- An authorised conversion of a positive matured profit always goes through, if that profit is
-- part of the market's total, the ratio's numerator fits in a u128 and the u64 buckets and the
-- dust have room: the credit moves from the Residual to the trader's collateral, the rest of the
-- matured profit becomes dust, the whole of it leaves the market's total, and the position's
-- reserve and warmup stay.
pub convert_position_conserves :
    (a : Accounts) (now : ℕ)
    → IsBooked a
    → 0 < a.position.matured_pos_quote_lots
    → Returns (convert_position true now a) λ b.
      (total b.collateral + b.market.residual_quote_lots
        ≡ total a.collateral + a.market.residual_quote_lots)
      × (b.market.matured_pos_total_quote_lots + a.position.matured_pos_quote_lots
          ≡ a.market.matured_pos_total_quote_lots)
      × (b.market.dust_accrued_quote_lots + total b.collateral
          ≡ a.market.dust_accrued_quote_lots
            + total a.collateral
            + a.position.matured_pos_quote_lots)
      × (b.position ≡ record a.position { matured_pos_quote_lots = 0 })
unfolding convert_position apply_realized_pnl_direct
convert_position_conserves a now b pos = ground (
  arith,
  credit_backed a b,
  apply_convert_exact a.position
      (compute_h a.market.residual_quote_lots a.market.matured_pos_total_quote_lots) b.stored
      (compute_h-le a.market.residual_quote_lots a.market.matured_pos_total_quote_lots),
)

-- Flushing moves the dust from the Residual to the fund, one for one, and books it as a
-- contribution.
pub flush_haircut_dust_conserves :
    (m : MarketHaircutStateAccount) (fund : InsuranceFundAccount)
    → Ensures (flush_haircut_dust m fund) λ out.
      let (m', fund') = out in
      (m'.residual_quote_lots + fund'.balance_quote_lots
        ≡ m.residual_quote_lots + fund.balance_quote_lots)
      × (m'.dust_accrued_quote_lots + fund'.balance_quote_lots
          ≡ m.dust_accrued_quote_lots + fund.balance_quote_lots)
      × (fund'.total_contributions + fund.balance_quote_lots
          ≡ fund.total_contributions + fund'.balance_quote_lots)
      × (m'.matured_pos_total_quote_lots ≡ m.matured_pos_total_quote_lots)
unfolding flush_haircut_dust
flush_haircut_dust_conserves m fund = ground arith

-- A release needs the market's authority and enough collateral in the position's bucket; it moves
-- the gain from that bucket to the reserve and changes nothing of the market, its Residual
-- included.
pub release_gain_moves :
    (authorized : Bool) (gain now : ℕ) (a : Accounts)
    → Ensures (release_gain_to_haircut authorized gain now a) λ b.
      (authorized ≡ true)
      × (total b.collateral + gain ≡ total a.collateral)
      × (b.position.released_reserve_quote_lots ≡ a.position.released_reserve_quote_lots + gain)
      × (b.position.matured_pos_quote_lots ≡ a.position.matured_pos_quote_lots)
      × (b.market ≡ a.market)
unfolding release_gain_to_haircut
release_gain_moves authorized gain now a =
    ground (arith, apply_release_moves a.position gain now a.market.h_min_slots)

-- Maturing moves an amount from the position's reserve to its matured profit and adds the same
-- amount to the market's total; collateral, Residual and dust stay.
pub mature_position_moves :
    (now : ℕ) (a : Accounts)
    → a.position.matured_pos_quote_lots < u64
    → Ensures (mature_position now a) λ b.
      (b.position.released_reserve_quote_lots + b.position.matured_pos_quote_lots
        ≡ a.position.released_reserve_quote_lots + a.position.matured_pos_quote_lots)
      × (b.market.matured_pos_total_quote_lots + a.position.matured_pos_quote_lots
          ≡ a.market.matured_pos_total_quote_lots + b.position.matured_pos_quote_lots)
      × (a.position.matured_pos_quote_lots < b.position.matured_pos_quote_lots)
      × (b.position.matured_pos_quote_lots < u64)
      × (b.collateral ≡ a.collateral)
      × (b.market.residual_quote_lots ≡ a.market.residual_quote_lots)
      × (b.market.dust_accrued_quote_lots ≡ a.market.dust_accrued_quote_lots)
unfolding mature_position
mature_position_moves now a h =
    ground (arith, apply_mature_moves a.position now a.market.h_min_slots a.market.h_max_slots h)

-- Any conversion that succeeds moves its credit from the Residual to the collateral and the rest of
-- the matured profit into the dust.
pub convert_position_moves :
    (authorized : Bool) (now : ℕ) (a : Accounts)
    → a.position.matured_pos_quote_lots < u64
    → Ensures (convert_position authorized now a) λ b.
      (authorized ≡ true)
      × (total b.collateral + b.market.residual_quote_lots
          ≡ total a.collateral + a.market.residual_quote_lots)
      × (b.market.matured_pos_total_quote_lots + a.position.matured_pos_quote_lots
          ≡ a.market.matured_pos_total_quote_lots)
      × (b.market.dust_accrued_quote_lots + total b.collateral
          ≡ a.market.dust_accrued_quote_lots
            + total a.collateral
            + a.position.matured_pos_quote_lots)
      × (b.position ≡ record a.position { matured_pos_quote_lots = 0 })
unfolding convert_position apply_realized_pnl_direct
convert_position_moves authorized now a stored = ground (
  arith,
  apply_convert_exact a.position
      (compute_h a.market.residual_quote_lots a.market.matured_pos_total_quote_lots) stored
      (compute_h-le a.market.residual_quote_lots a.market.matured_pos_total_quote_lots),
)
