-- ===== src/Settlement/Pnl/Tests.antt =====
-- Runs of the realised-PnL helpers, and the theorems at concrete inputs.
use flash_book.Common.{◌+◌, ◌≡◌, ◌≤◌, refl, ok, Ensures, some, false}
use flash_book.Common.Int.{pos, negsuc, neg_part, pos_part}
use flash_book.Haircut.{PositionHaircutSnapshot, MarketHaircutSnapshot}
use flash_book.Settlement.Pnl.{
  Collateral, InsuranceFundAccount, LegState, apply_realized_pnl_direct, apply_realized_pnl_delta,
  settle_realized_leg,
}
use flash_book.Settlement.Pnl.Laws.{
  total, reserve_of, matured_of, residual_of, apply_realized_pnl_delta_seniority,
  settle_realized_leg_conserves,
}

abbrev wallet : Collateral
wallet = record { iso = 40; cross = 100 }

abbrev fund : InsuranceFundAccount
fund = record { balance_quote_lots = 30; total_contributions = 30; total_payouts = 0 }

-- -150 against a cross pool of 100.
bankrupt-run :
    apply_realized_pnl_direct (negsuc 149) false wallet ≡ ok (50, 100, record wallet { cross = 0 })
unfolding apply_realized_pnl_direct
bankrupt-run = refl

abbrev reserve : PositionHaircutSnapshot
reserve = record {
  released_reserve_quote_lots = 5;
  released_attached_at_slot = 3;
  matured_pos_quote_lots = 9;
  original_reserve_at_attach = 5;
}

abbrev books : MarketHaircutSnapshot
books = record {
  residual_quote_lots = 60;
  matured_pos_total_quote_lots = 20;
  realized_loss_total_quote_lots = 0;
  dust_accrued_quote_lots = 0;
  h_min_slots = 10;
  h_max_slots = 200;
}

abbrev leg : LegState
leg = record {
  collateral = wallet;
  position_haircut = some reserve;
  market_haircut = some books;
  insurance_fund = fund;
}

apply_realized_pnl_delta_seniority_example :
    Ensures (apply_realized_pnl_delta (pos 8) false wallet (some reserve) 4 10) λ out.
      let (shortfall, removed, c', ph') = out in
      (reserve_of ph' ≡ 13)
      × (matured_of ph' ≡ 9)
      × (total c' + removed ≡ 140)
      × (removed + shortfall ≡ 0)
      × (neg_part (pos 8) ≡ 0 → c' ≡ wallet)
      × (pos_part (pos 8) ≡ 0 → ph' ≡ some reserve)
apply_realized_pnl_delta_seniority_example =
    apply_realized_pnl_delta_seniority (pos 8) false wallet reserve 4 10

settle_realized_leg_conserves_example :
    Ensures (settle_realized_leg (negsuc 149) false false 4 leg) λ t.
      (total t.collateral + reserve_of t.position_haircut + residual_of t.market_haircut ≡ 205)
      × (30 + residual_of t.market_haircut ≤ t.insurance_fund.balance_quote_lots + 60 + 150)
      × (t.insurance_fund.balance_quote_lots ≤ 30)
settle_realized_leg_conserves_example =
    settle_realized_leg_conserves (negsuc 149) false false 4 wallet reserve books fund
