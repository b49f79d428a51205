-- ===== src/Position/Total.antt =====
-- When `apply_fill` of programs/clober/src/matcher/position_math.rs succeeds.
use native.Mathlib.Nat.{mul-le-mul_right, mul-le-mul_left, le_trans, mul-le-mul}
use flash_book.Common.{ℕ, ◌+◌, ◌-◌, ◌*◌, ◌≤◌, ◌<◌, min, ◌==◌, if◌then◌else◌, u64, Returns, arith}
use flash_book.Common.Int.{magnitude, magnitude-*ℤ, ℤ, pos, neg, sub_ℕ, ◌*ℤ◌, i64, neg_parts}
use flash_book.Position.{Pos, apply_fill, closed_pnl, entry_numer, side_long}

magnitude-neg : (k : ℕ) → magnitude (neg (pos k)) ≤ k
magnitude-neg k = omega (arith, neg_parts (pos k))

unfoldable pub distance : ℕ → ℕ → ℕ
distance a b = (a - b) + (b - a)

magnitude-sub_ℕ : (a b : ℕ) → magnitude (sub_ℕ a b) ≤ distance a b
unfolding distance
magnitude-sub_ℕ a b = ground arith

signed_size-bound : (side k : ℕ) → magnitude (if side == side_long then pos k else neg (pos k)) ≤ k
signed_size-bound side k = ground (arith, magnitude-neg k)

abbrev signed_size : ℕ → ℕ → ℤ
signed_size side k = if side == side_long then pos k else neg (pos k)

closed_pnl-Returns :
    (p : Pos) (k price tick : ℕ)
    → k < u64
    → 0 < tick
    → k * distance price p.entry_ticks * tick < i64
    → Returns (closed_pnl p k price tick) λ r. Unit
unfolding closed_pnl
closed_pnl-Returns p k price tick h t b =
    let s = signed_size p.side k in
    let q = s *ℤ sub_ℕ price p.entry_ticks in
    let d = distance price p.entry_ticks in
    let b1 : magnitude q ≤ k * d =
      le_trans (magnitude-*ℤ s (sub_ℕ price p.entry_ticks))
        (mul-le-mul (signed_size-bound p.side k) (magnitude-sub_ℕ price p.entry_ticks)) in
    let b2 : magnitude (q *ℤ pos tick) ≤ k * d * tick =
      le_trans (magnitude-*ℤ q (pos tick)) (omega (arith, mul-le-mul_right tick b1)) in
    let b3 : k * d * 1 ≤ k * d * tick = mul-le-mul_left (k * d) t in
    ground (arith, b1, b2, b3, signed_size-bound p.side k)

-- A fill succeeds if the entry and the price are u64s, the position with the fill fits in a u64,
-- the tick size is positive, and the lots that it closes, times the distance of the prices,
-- times the tick size fit in an i64.
pub apply_fill-Returns :
    (p : Pos) (fill_side n price tick : ℕ)
    → p.entry_ticks < u64
    → price < u64
    → p.size_lots + n < u64
    → 0 < tick
    → min n p.size_lots * distance price p.entry_ticks * tick < i64
    → Returns (apply_fill p fill_side n price tick) λ o. Unit
unfolding apply_fill entry_numer
apply_fill-Returns p fill_side n price tick e j s t b =
    let held : p.entry_ticks * p.size_lots ≤ (u64 - 1) * p.size_lots =
      mul-le-mul_right p.size_lots (omega arith) in
    let added : price * n ≤ (u64 - 1) * n = mul-le-mul_right n (omega arith) in
    ground
      (arith, closed_pnl-Returns p (min n p.size_lots) price tick (omega arith) t b, held, added)
