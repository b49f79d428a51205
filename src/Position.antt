-- ===== src/Position.antt =====
-- A position under a fill: programs/clober/src/matcher/position_math.rs.
pub mod Entry
pub mod Value
pub mod Total
pub mod Legs
pub mod Account
pub mod Funding
pub mod Crank
pub mod Rate
mod Tests
use flash_book.Common.{
  ℕ, ◌+◌, ◌-◌, ◌*◌, ◌/◌, ◌%◌, min, Bool, true, false, Option, ltb, leb, ◌==◌, if◌then◌else◌, Result,
  ok, err, ok_or, ◌>>=◌, u64, u128, checked_add, checked_sub, checked_mul,
}
use flash_book.Common.Int.{ℤ, pos, neg, sub_ℕ, ◌*ℤ◌, checked, i64, i128}

-- The sides of a position, `SIDE_LONG` and `SIDE_SHORT`.
abbrev pub side_long : ℕ
side_long = 0

abbrev pub side_short : ℕ
side_short = 1

-- `side` and `entry_ticks` of a flat position mean nothing.
pub record Pos : Type 0 where
  pub side : ℕ
  pub size_lots : ℕ
  pub entry_ticks : ℕ

pub record FillOutcome : Type 0 where
  pub pos : Pos
  pub realized_pnl_quote_lots : ℤ
  pub reset_funding : Bool

pub data PosMathError : Type 0 where
  overflow underflow div_by_zero : PosMathError

-- The numerator of the weighted entry.
unfoldable pub entry_numer : Pos → ℕ → ℕ → Result PosMathError ℕ
entry_numer p fill_size_lots fill_price_ticks = do
  held ← ok_or (checked_mul u128 p.entry_ticks p.size_lots) overflow
  added ← ok_or (checked_mul u128 fill_price_ticks fill_size_lots) overflow
  ok_or (checked_add u128 held added) overflow

-- The entry of a stacked position: rounded up for a long position, and down for a short one.
unfoldable pub weighted_entry : ℕ → ℕ → ℕ → ℕ
weighted_entry side numer new_size =
    if side == 0 then (numer + (new_size - 1)) / new_size else numer / new_size

-- The profit that closing lots realises, in quote lots.
unfoldable pub closed_pnl : Pos → ℕ → ℕ → ℕ → Result PosMathError ℤ
closed_pnl p close_size fill_price_ticks tick_size = do
  signed ←
      ok_or (checked i128 (if p.side == side_long then pos close_size else neg (pos close_size)))
        overflow
  per_tick ← ok_or (checked i128 (signed *ℤ sub_ℕ fill_price_ticks p.entry_ticks)) overflow
  pnl ← ok_or (checked i128 (per_tick *ℤ pos tick_size)) overflow
  ok_or (checked i64 pnl) overflow

unfoldable pub apply_fill : Pos → ℕ → ℕ → ℕ → ℕ → Result PosMathError FillOutcome
apply_fill p fill_side fill_size_lots fill_price_ticks tick_size =
    if p.size_lots == 0
    then ok (record {
      pos = record { side = fill_side; size_lots = fill_size_lots; entry_ticks = fill_price_ticks };
      realized_pnl_quote_lots = pos 0;
      reset_funding = true;
    })
    else if p.side == fill_side
    then (do
      new_size ← ok_or (checked_add u64 p.size_lots fill_size_lots) overflow
      numer ← entry_numer p fill_size_lots fill_price_ticks
      if new_size == 0
          then err div_by_zero
          else ok (record {
            pos = record {
              side = p.side;
              size_lots = new_size;
              entry_ticks = weighted_entry p.side numer new_size % u64;
            };
            realized_pnl_quote_lots = pos 0;
            reset_funding = false;
          }))
    else (do
      realized ← closed_pnl p (min fill_size_lots p.size_lots) fill_price_ticks tick_size
      if leb fill_size_lots p.size_lots
          then (do
            new_size ← ok_or (checked_sub p.size_lots fill_size_lots) underflow
            ok (record {
              pos = record {
                side = p.side;
                size_lots = new_size;
                entry_ticks = if new_size == 0 then 0 else p.entry_ticks;
              };
              realized_pnl_quote_lots = realized;
              reset_funding = new_size == 0;
            }))
          else (do
            remaining ← ok_or (checked_sub fill_size_lots p.size_lots) underflow
            ok (record {
              pos = record {
                side = fill_side;
                size_lots = remaining;
                entry_ticks = fill_price_ticks;
              };
              realized_pnl_quote_lots = realized;
              reset_funding = true;
            })))
