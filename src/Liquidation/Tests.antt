-- ===== src/Liquidation/Tests.antt =====
-- The theorems on liquidation at concrete positions, and runs.
use flash_book.Common.{◌≡◌, refl, true, ok}
use flash_book.Common.Int.{◌+ℤ◌, ◌-ℤ◌, ◌*ℤ◌, neg, div_trunc}
use flash_book.Liquidation.{
  compute_shortfall, liquidation_pnl, liquidation_penalty, check_reduce_only, partial_admit,
}

shortfall_run :
    compute_shortfall true 10 100 90 60 1 100
    ≡ ok (record {
      liquidation_penalty_quote_lots = 9;
      shortfall_quote_lots = 49;
      collateral_recovered_quote_lots = 0;
    })
unfolding compute_shortfall liquidation_pnl liquidation_penalty ◌+ℤ◌ ◌-ℤ◌ ◌*ℤ◌ neg div_trunc
shortfall_run = refl

-- A reduce-only order is cut to the position.
cut_run : check_reduce_only 0 10 1 14 ≡ partial_admit 10
unfolding check_reduce_only
cut_run = refl
