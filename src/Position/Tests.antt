-- ===== src/Position/Tests.antt =====
-- The theorems on positions at concrete ones, and runs.
use flash_book.Common.{
  ◌+◌, ◌*◌, ◌≤◌, ◌≡◌, refl, arith, ok, Returns, Ensures, true, ltb, if◌then◌else◌,
}
use flash_book.Common.Int.{pos, negsuc, ◌*ℤ◌}
use flash_book.Position.{Pos, apply_fill, closed_pnl}
use flash_book.Position.Value.{apply_fill_value, value_before, value_after, fill_pos, stacks}
use flash_book.Position.Legs.{apply_fill_legs, legs_before, legs_after}
use flash_book.Position.Total.{apply_fill-Returns, distance}
use flash_book.Position.Account.{PositionAccount, FundingState, settle_position_funding}
use flash_book.Position.Funding.{settle_position_funding_conserves, total}

-- Ten lots long from 100, and four lots short from 103.
abbrev long_ten : Pos
long_ten = record { side = 0; size_lots = 10; entry_ticks = 100 }

abbrev short_four : Pos
short_four = record { side = 1; size_lots = 4; entry_ticks = 103 }

apply_fill_value_example : Ensures (apply_fill long_ten 1 14 90 5) λ o.
    let before = value_before long_ten (fill_pos 1 14 90) o 95 5 in
    let after = value_after long_ten (fill_pos 1 14 90) o 95 5 in
    (after ≤ before) × (before ≤ after + (if stacks long_ten 1 then o.pos.size_lots * 5 else 0))
apply_fill_value_example =
    apply_fill_value long_ten 1 14 90 95 5 (omega arith) (omega arith) (omega arith) (omega arith)

apply_fill_legs_example : Ensures (apply_fill long_ten 0 3 101 5) λ t.
    Ensures
      (apply_fill short_four 1 3 101 5)
      λ m. legs_after long_ten short_four t m 95 5 ≤ legs_before long_ten short_four t m 95 5
apply_fill_legs_example =
    apply_fill_legs long_ten short_four 0 3 101 95 5 (omega arith) (omega arith) (omega arith)
      (omega arith) (omega arith) (omega arith)

apply_fill-Returns_example : Returns (apply_fill long_ten 1 14 90 5) λ o. Unit
unfolding distance
apply_fill-Returns_example =
    apply_fill-Returns long_ten 1 14 90 5 (omega arith) (omega arith) (omega arith) (omega arith)
      (omega arith)

-- A flip realises the loss on the lots that it closes, and opens the rest.
flip :
    apply_fill long_ten 1 14 90 5
    ≡ ok (record {
      pos = record { side = 1; size_lots = 4; entry_ticks = 90 };
      realized_pnl_quote_lots = negsuc 499;
      reset_funding = true;
    })
unfolding apply_fill closed_pnl ◌*ℤ◌
flip = refl

abbrev long_account : PositionAccount
long_account = record {
  side = 0;
  size_lots = 10;
  entry_price_ticks = 100;
  realized_pnl_quote_lots = pos 0;
  collateral_quote_lots = 500;
  cum_funding_index = pos 0;
  funding_paid_quote_lots = pos 0;
}

abbrev funded : FundingState
funded = record { position = long_account; cross_collateral = 7; residual = 30 }

settle_position_funding_conserves_example :
    Ensures (settle_position_funding (pos 700000) funded) λ q.
      (total q.1 ≡ 537)
      × (q.1.position.cum_funding_index ≡ pos 700000)
      × (q.1.position.size_lots ≡ 10)
      × (if ltb 0 500 then q.1.cross_collateral ≡ 7 else q.1.position.collateral_quote_lots ≡ 500)
settle_position_funding_conserves_example = settle_position_funding_conserves (pos 700000) funded
