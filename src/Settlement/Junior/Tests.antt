-- ===== src/Settlement/Junior/Tests.antt =====
-- Runs of the haircut instructions, and the theorems at concrete inputs.
use flash_book.Common.{◌+◌, ◌≡◌, refl, true, false, arith, ok, err, Returns, [], ◌∷◌}
use flash_book.Errors.{CloberError}
use flash_book.Haircut.{
  PositionHaircutSnapshot, MarketHaircutSnapshot, compute_h, apply_convert, convert_with_haircut,
}
use flash_book.Settlement.Pnl.{InsuranceFundAccount, apply_realized_pnl_direct}
use flash_book.Settlement.Pnl.Laws.{total}
use flash_book.Settlement.Junior.{
  MarketHaircutStateAccount, Accounts, convert_position, flush_haircut_dust,
  verify_haircut_invariants,
}
use flash_book.Settlement.Junior.Laws.{convert_position_conserves}
use flash_book.Settlement.Junior.Report.{flush_stales_cache, convert_trips_dust_check}
use flash_book.Settlement.Junior.System.{System, here, next, convert, Kept}
use flash_book.Settlement.Junior.System.Invariant.{Reach-Kept}

abbrev books : MarketHaircutSnapshot
books = record {
  residual_quote_lots = 50;
  matured_pos_total_quote_lots = 100;
  realized_loss_total_quote_lots = 0;
  dust_accrued_quote_lots = 0;
  h_min_slots = 10;
  h_max_slots = 200;
}

abbrev ripe : PositionHaircutSnapshot
ripe = record {
  released_reserve_quote_lots = 30;
  released_attached_at_slot = 5;
  matured_pos_quote_lots = 100;
  original_reserve_at_attach = 30;
}

abbrev accounts : Accounts
accounts = record {
  position = ripe;
  market = record { snapshot = books; h_scaled_cached = 500_000_000; h_cached_at_slot = 9 };
  collateral = record { iso = 0; cross = 7 };
}

-- Half of the matured profit is backed.
abbrev converted : Accounts
converted = record {
  position = record ripe { matured_pos_quote_lots = 0 };
  market = record {
    snapshot = record books {
      residual_quote_lots = 0;
      matured_pos_total_quote_lots = 0;
      dust_accrued_quote_lots = 50;
    };
    h_scaled_cached = 1_000_000_000;
    h_cached_at_slot = 20;
  };
  collateral = record { iso = 0; cross = 57 };
}

convert_position-run : convert_position true 20 accounts ≡ ok converted
unfolding convert_position apply_convert convert_with_haircut compute_h apply_realized_pnl_direct
convert_position-run = refl

-- The dust of that conversion has no Residual left to be flushed from.
flush-run :
    flush_haircut_dust converted.market
      (record { balance_quote_lots = 0; total_contributions = 0; total_payouts = 0 })
    ≡ err CloberError.haircut_residual_underflow
unfolding flush_haircut_dust
flush-run = refl

convert_position_conserves_example : Returns (convert_position true 20 accounts) λ b.
    (total b.collateral + b.market.residual_quote_lots ≡ 57)
    × (b.market.matured_pos_total_quote_lots + 100 ≡ 100)
    × (b.market.dust_accrued_quote_lots + total b.collateral ≡ 107)
    × (b.position ≡ record ripe { matured_pos_quote_lots = 0 })
convert_position_conserves_example =
    convert_position_conserves accounts 20 (omega arith) (omega arith)

abbrev fund : InsuranceFundAccount
fund = record { balance_quote_lots = 3; total_contributions = 3; total_payouts = 0 }

abbrev dusty : MarketHaircutStateAccount
dusty = record {
  snapshot = record books { dust_accrued_quote_lots = 20 };
  h_scaled_cached = 500_000_000;
  h_cached_at_slot = 9;
}

abbrev flushed : MarketHaircutStateAccount
flushed = record dusty {
  snapshot = record books { dust_accrued_quote_lots = 0; residual_quote_lots = 30 };
}

flush_stales_cache_example : (verify_haircut_invariants flushed).cached_h_consistent ≡ false
unfolding compute_h flush_haircut_dust
flush_stales_cache_example =
    flush_stales_cache dusty flushed fund
      (record { balance_quote_lots = 23; total_contributions = 23; total_payouts = 0 })
      (omega arith) refl refl (omega arith)

abbrev unbacked : Accounts
unbacked = record accounts {
  market = record {
    snapshot = record books { residual_quote_lots = 0 };
    h_scaled_cached = 0;
    h_cached_at_slot = 9;
  };
}

abbrev unbacked_after : Accounts
unbacked_after = record {
  position = record ripe { matured_pos_quote_lots = 0 };
  market = record {
    snapshot = record books {
      residual_quote_lots = 0;
      matured_pos_total_quote_lots = 0;
      dust_accrued_quote_lots = 100;
    };
    h_scaled_cached = 1_000_000_000;
    h_cached_at_slot = 20;
  };
  collateral = record { iso = 0; cross = 7 };
}

convert_trips_dust_check_example :
    (verify_haircut_invariants unbacked_after.market).dust_within_pipeline_flow ≡ false
unfolding convert_position apply_convert convert_with_haircut compute_h apply_realized_pnl_direct
convert_trips_dust_check_example =
    convert_trips_dust_check 20 unbacked unbacked_after (omega arith) refl refl refl refl

abbrev start : System
start = record {
  market = accounts.market;
  entries = record { position = ripe; collateral = accounts.collateral } ∷ [];
  fund = fund;
}

abbrev finish : System
finish = record {
  market = converted.market;
  entries = record { position = converted.position; collateral = converted.collateral } ∷ [];
  fund = fund;
}

Reach-Kept_example : Kept start finish
unfolding convert_position apply_convert convert_with_haircut compute_h apply_realized_pnl_direct
Reach-Kept_example =
    Reach-Kept {s = start} {t = finish} (record { stored = (omega arith, tt); counted = refl })
      (next {t = start} {u = finish} here (
        convert 0 20 true (record { position = ripe; collateral = accounts.collateral }) converted
          refl refl refl))
