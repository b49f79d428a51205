-- ===== src/Position/Legs.antt =====
-- Both legs of a fill by `apply_fill` of programs/clober/src/matcher/position_math.rs.
use native.Mathlib.Decide.{dec_lt}
use flash_book.Common.{
  Ensures-map, ℕ, ◌+◌, ◌-◌, ◌*◌, ◌≤◌, ◌<◌, ◌≡◌, Result, ok, err, u64, Ensures, arith,
}
use flash_book.Common.Int.{pos_part, neg_part}
use flash_book.Position.{Pos, PosMathError, FillOutcome, apply_fill}
use flash_book.Position.Value.{gains, losses, fill_pos, value_after, value_before, apply_fill_value}

-- What both parties of a fill hold together, with each other's losses: in quote lots.
abbrev pub legs_after : Pos → Pos → FillOutcome → FillOutcome → ℕ → ℕ → ℕ
legs_after taker maker t m mark tick =
    (gains t.pos mark + gains m.pos mark + losses taker mark + losses maker mark) * tick
    + pos_part t.realized_pnl_quote_lots
    + pos_part m.realized_pnl_quote_lots

abbrev pub legs_before : Pos → Pos → FillOutcome → FillOutcome → ℕ → ℕ → ℕ
legs_before taker maker t m mark tick =
    (losses t.pos mark + losses m.pos mark + gains taker mark + gains maker mark) * tick
    + neg_part t.realized_pnl_quote_lots
    + neg_part m.realized_pnl_quote_lots

opposite_fills :
    (n price mark tick : ℕ)
    → (gains (fill_pos 0 n price) mark + gains (fill_pos 1 n price) mark) * tick
      ≡ (losses (fill_pos 0 n price) mark + losses (fill_pos 1 n price) mark) * tick
opposite_fills n price mark tick = omega arith

-- No value is minted by a trade: where the fill of a buyer and of a seller at one price both
-- succeed, on any two positions with u64 entries, what both are worth at any mark, with their
-- realised profits, is at most what they were worth before.
pub apply_fill_legs :
    (taker maker : Pos) (taker_side n price mark tick : ℕ)
    → taker.side ≤ 1
    → maker.side ≤ 1
    → taker_side ≤ 1
    → taker.entry_ticks < u64
    → maker.entry_ticks < u64
    → price < u64
    → Ensures (apply_fill taker taker_side n price tick) λ t.
      Ensures
        (apply_fill maker (1 - taker_side) n price tick)
        λ m. legs_after taker maker t m mark tick ≤ legs_before taker maker t m mark tick
apply_fill_legs taker maker side n price mark tick a b c d e f =
    both (apply_fill taker side n price tick) (apply_fill maker (1 - side) n price tick)
      (Ensures-map (apply_fill taker side n price tick) (λ o h. h.0)
        (apply_fill_value taker side n price mark tick a c d f))
      (Ensures-map (apply_fill maker (1 - side) n price tick) (λ o h. h.0)
        (apply_fill_value maker (1 - side) n price mark tick b (omega arith) e f))
  where
    both :
        (x y : Result PosMathError FillOutcome)
        → Ensures x (λ o.
          value_after taker (fill_pos side n price) o mark tick
          ≤ value_before taker (fill_pos side n price) o mark tick)
        → Ensures y (λ o.
          value_after maker (fill_pos (1 - side) n price) o mark tick
          ≤ value_before maker (fill_pos (1 - side) n price) o mark tick)
        → Ensures x λ t.
          Ensures y
            λ m. legs_after taker maker t m mark tick ≤ legs_before taker maker t m mark tick
    both (err i) y v w = tt
    both (ok t) (err i) v w = tt
    both (ok t) (ok m) v w = elim (dec_lt side 1) [ yes z ↦ ground arith | no z ↦ ground arith ]
