-- ===== src/Settlement/Junior/Report.antt =====
-- The invariants that `verify_haircut_invariants` reports, and the haircut instructions that keep
-- or break them.
use flash_book.Common.{ℕ, ◌<◌, ◌≡◌, ◌≢◌, Bool, true, false, arith, ok, Ensures, u64}
use flash_book.Haircut.{compute_h, verify_invariants}
use flash_book.Haircut.Ratio.{compute_h-le, compute_h-none}
use flash_book.Haircut.Payout.{apply_convert_exact, apply_convert_credit}
use flash_book.Settlement.Pnl.{InsuranceFundAccount}
use flash_book.Settlement.Junior.{
  MarketHaircutStateAccount, Accounts, mature_position, convert_position, flush_haircut_dust,
  verify_haircut_invariants,
}

-- The report finds the cached ratio consistent and in range.
abbrev pub IsFresh : Accounts → Type 0
IsFresh b =
    ((verify_haircut_invariants b.market).cached_h_consistent ≡ true)
    × ((verify_haircut_invariants b.market).cached_h_in_range ≡ true)

-- After a successful maturing or conversion the invariant report finds the cached ratio
-- consistent with the market's totals and in range.
pub recached_report :
    (authorized : Bool) (now : ℕ) (a : Accounts)
    → Ensures (mature_position now a) IsFresh × Ensures (convert_position authorized now a) IsFresh
unfolding mature_position convert_position verify_haircut_invariants verify_invariants
recached_report authorized now a = (grind (arith, compute_h-le), grind (arith, compute_h-le))

-- Where a successful flush changes the ratio that the totals give, and the cache was set and
-- consistent before, the report finds the cached ratio inconsistent afterwards.
pub flush_stales_cache :
    (m m' : MarketHaircutStateAccount) (fund fund' : InsuranceFundAccount)
    → 0 < m.h_cached_at_slot
    → m.h_scaled_cached ≡ compute_h m.residual_quote_lots m.matured_pos_total_quote_lots
    → flush_haircut_dust m fund ≡ ok (m', fund')
    → compute_h m'.residual_quote_lots m'.matured_pos_total_quote_lots
      ≢ compute_h m.residual_quote_lots m.matured_pos_total_quote_lots
    → (verify_haircut_invariants m').cached_h_consistent ≡ false
unfolding flush_haircut_dust verify_haircut_invariants verify_invariants
flush_stales_cache m m' fund fund' slot cached e changed =
    ground (arith, compute_h-le m'.residual_quote_lots m'.matured_pos_total_quote_lots)

-- With no Residual and no recorded loss, a successful conversion of the only matured profit of a
-- market (a u64) makes the report's dust check fail, since the profit leaves the matured total
-- as it becomes dust.
pub convert_trips_dust_check :
    (now : ℕ) (a b : Accounts)
    → a.position.matured_pos_quote_lots < u64
    → a.market.residual_quote_lots ≡ 0
    → a.market.realized_loss_total_quote_lots ≡ 0
    → a.market.matured_pos_total_quote_lots ≡ a.position.matured_pos_quote_lots
    → convert_position true now a ≡ ok b
    → (verify_haircut_invariants b.market).dust_within_pipeline_flow ≡ false
unfolding convert_position verify_haircut_invariants verify_invariants
convert_trips_dust_check now a b stored none_left no_loss alone e = ground (
  arith,
  compute_h-none a.market.matured_pos_total_quote_lots,
  apply_convert_exact a.position
      (compute_h a.market.residual_quote_lots a.market.matured_pos_total_quote_lots) stored
      (compute_h-le a.market.residual_quote_lots a.market.matured_pos_total_quote_lots),
  apply_convert_credit a.position
      (compute_h a.market.residual_quote_lots a.market.matured_pos_total_quote_lots) stored
      (compute_h-le a.market.residual_quote_lots a.market.matured_pos_total_quote_lots),
)
