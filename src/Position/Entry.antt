-- ===== src/Position/Entry.antt =====
-- The entry price and the size of a position after `apply_fill` of
-- programs/clober/src/matcher/position_math.rs.
use native.Mathlib.Nat.{mul-le-mul_right, mod-eq_of_lt}
use flash_book.Common.{
  ℕ, ◌+◌, ◌-◌, ◌*◌, ◌/◌, ◌%◌, ◌≤◌, ◌<◌, ◌≡◌, ◌⊎◌, min, max, ◌==◌, if◌then◌else◌, u64, Ensures,
  arith,
}
use flash_book.Common.Arith.{div-mul-le, lt-suc_div-mul, le_div, div_le}
use flash_book.Common.Int.{pos}
use flash_book.Position.{Pos, FillOutcome, apply_fill, weighted_entry, entry_numer}

-- The lots that a position is long, and those that it is short.
abbrev pub long_lots : Pos → ℕ
long_lots p = if p.side == 0 then p.size_lots else 0

abbrev pub short_lots : Pos → ℕ
short_lots p = if p.side == 0 then 0 else p.size_lots

-- Where a fill succeeds, the position's net lots, long or short, are the old ones with the
-- fill's lots on its side, and the position is never long and short at once.
pub apply_fill_exposure :
    (p : Pos) (fill_side fill_size price tick : ℕ)
    → p.side ≤ 1
    → fill_side ≤ 1
    → Ensures (apply_fill p fill_side fill_size price tick) λ o.
      let fill : Pos = record { side = fill_side; size_lots = fill_size; entry_ticks = price } in
      (long_lots o.pos + short_lots p + short_lots fill
        ≡ short_lots o.pos + long_lots p + long_lots fill)
      × ((short_lots o.pos ≡ 0) ⊎ (long_lots o.pos ≡ 0))
unfolding apply_fill
apply_fill_exposure p fill_side fill_size price tick h k = ground arith

-- A weighted mean lies between the two prices.
weighted_entry-between :
    (side a b m n lo hi : ℕ)
    → 0 < m
    → lo ≤ a
    → lo ≤ b
    → a ≤ hi
    → b ≤ hi
    → (lo ≤ weighted_entry side (a * m + b * n) (m + n))
      × (weighted_entry side (a * m + b * n) (m + n) ≤ hi)
unfolding weighted_entry
weighted_entry-between side a b m n lo hi h la lb ah bh = ground (
  arith,
  le_div lo (a * m + b * n) (m + n) (omega arith) below,
  le_div lo (a * m + b * n + (m + n - 1)) (m + n) (omega arith) (omega (arith, below)),
  div_le hi (a * m + b * n) (m + n) (omega arith) above,
  above_ceil,
)
  where
    below : lo * (m + n) ≤ a * m + b * n
    below = grind (arith, mul-le-mul_right m la, mul-le-mul_right n lb)

    above : a * m + b * n ≤ hi * (m + n)
    above = grind (arith, mul-le-mul_right m ah, mul-le-mul_right n bh)

    above_ceil : (a * m + b * n + (m + n - 1)) / (m + n) ≤ hi
    above_ceil = grind (
      arith,
      above,
      lt-suc_div-mul (a * m + b * n + (m + n - 1)) (m + n),
      div-mul-le (a * m + b * n + (m + n - 1)) (m + n),
    )

-- The rounding of the weighted entry is against the position.
pub weighted_entry-adverse :
    (side numer size : ℕ)
    → 0 < size
    → let entry = weighted_entry side numer size in
      if side == 0
      then (numer ≤ entry * size) × (entry * size < numer + size)
      else (entry * size ≤ numer) × (numer < entry * size + size)
unfolding weighted_entry
weighted_entry-adverse side numer size h = ground (
  arith,
  div-mul-le numer size,
  lt-suc_div-mul numer size h,
  div-mul-le (numer + (size - 1)) size,
  lt-suc_div-mul (numer + (size - 1)) size h,
)

-- What stacking leaves: the lots together, at their mean entry, rounded against the trader.
pub record IsStacked (p : Pos) (n price : ℕ) (o : FillOutcome) : Type 0 where
  pub same_side : o.pos.side ≡ p.side
  pub sum : o.pos.size_lots ≡ p.size_lots + n
  pub nothing_realised : o.realized_pnl_quote_lots ≡ pos 0
  pub above : min p.entry_ticks price ≤ o.pos.entry_ticks
  pub below : o.pos.entry_ticks ≤ max p.entry_ticks price
  pub adverse :
      let cost = p.entry_ticks * p.size_lots + price * n in
      let marked = o.pos.entry_ticks * (p.size_lots + n) in
      if p.side == 0
      then (cost ≤ marked) × (marked < cost + (p.size_lots + n))
      else (marked ≤ cost) × (cost < marked + (p.size_lots + n))

-- Where a fill on the side of an open position succeeds, with u64 prices, the lots add up,
-- nothing is realised, the entry lies between the old entry and the fill's price, and it is the
-- weighted mean rounded against the trader by less than a tick.
pub stack_outcome :
    (p : Pos) (n price tick : ℕ)
    → 0 < p.size_lots
    → p.entry_ticks < u64
    → price < u64
    → Ensures (apply_fill p p.side n price tick) (IsStacked p n price)
unfolding apply_fill entry_numer
stack_outcome p n price tick h k j =
    let numer = p.entry_ticks * p.size_lots + price * n in
    let size = p.size_lots + n in
    ground (
      arith,
      weighted_entry-between p.side p.entry_ticks price p.size_lots n (min p.entry_ticks price)
          (max p.entry_ticks price),
      weighted_entry-adverse p.side numer size,
      fits,
    )
  where
    fits :
        weighted_entry p.side (p.entry_ticks * p.size_lots + price * n) (p.size_lots + n) % u64
        ≡ weighted_entry p.side (p.entry_ticks * p.size_lots + price * n) (p.size_lots + n)
    fits = mod-eq_of_lt (
        omega (
          arith,
          (weighted_entry-between p.side p.entry_ticks price p.size_lots n (min p.entry_ticks price)
              (max p.entry_ticks price) h (omega arith) (omega arith) (omega arith)
              (omega arith)).1,
        ))
