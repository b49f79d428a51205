-- ===== src/Position/Value.antt =====
-- What a position is worth before and after `apply_fill` of
-- programs/clober/src/matcher/position_math.rs.
use native.Mathlib.Nat.{mul-le-mul_right, add-mul}
use flash_book.Common.{
  sym, refl, not, ◌&&◌, ◌≢◌, ap, inl, inr, Bool-cases, ℕ, ◌+◌, ◌-◌, ◌*◌, ◌≤◌, ◌<◌, ◌≡◌, min, Bool,
  ◌==◌, if◌then◌else◌, Result, ok, err, u64, Ensures, arith,
}
use flash_book.Common.Arith.{split_product}
use flash_book.Common.Int.{
  *ℤ-pos, pos-*ℤ, neg-*ℤ, ℤ, pos, neg, sub_ℕ, ◌*ℤ◌, pos_part, neg_part, sub_ℕ_parts,
}
use flash_book.Position.{Pos, PosMathError, FillOutcome, apply_fill, closed_pnl}
use flash_book.Position.Entry.{stack_outcome, IsStacked}

-- A position at a mark is worth its gains less its losses, in ticks times lots.
abbrev pub gains : Pos → ℕ → ℕ
gains p mark = if p.side == 0 then p.size_lots * mark else p.size_lots * p.entry_ticks

abbrev pub losses : Pos → ℕ → ℕ
losses p mark = if p.side == 0 then p.size_lots * p.entry_ticks else p.size_lots * mark

closed_pnl_lem :
    (p : Pos) (k price tick : ℕ)
    → Ensures (closed_pnl p k price tick) λ r.
      if p.side == 0
      then pos_part r + k * p.entry_ticks * tick ≡ neg_part r + k * price * tick
      else pos_part r + k * price * tick ≡ neg_part r + k * p.entry_ticks * tick
unfolding closed_pnl
closed_pnl_lem p k price tick =
    let d = sub_ℕ price p.entry_ticks in
    let gap = sub_ℕ_parts price p.entry_ticks in
    elim (Bool-cases (p.side == 0)) [
      | inl e ↦ ground (arith, *ℤ-pos (pos k *ℤ d) tick _ _ (pos-*ℤ k d p.entry_ticks price gap))
      | inr e ↦
          ground (arith, *ℤ-pos (neg (pos k) *ℤ d) tick _ _ (neg-*ℤ k d p.entry_ticks price gap))
    ]

-- The fill as a position of its own.
abbrev pub fill_pos : ℕ → ℕ → ℕ → Pos
fill_pos side size price = record { side = side; size_lots = size; entry_ticks = price }

-- The value before a fill and after it, each with the other's losses: in quote lots.
abbrev pub value_after : Pos → Pos → FillOutcome → ℕ → ℕ → ℕ
value_after p fill o mark tick =
    (gains o.pos mark + losses p mark + losses fill mark) * tick
    + pos_part o.realized_pnl_quote_lots

abbrev pub value_before : Pos → Pos → FillOutcome → ℕ → ℕ → ℕ
value_before p fill o mark tick =
    (losses o.pos mark + gains p mark + gains fill mark) * tick + neg_part o.realized_pnl_quote_lots

abbrev pub stacks : Pos → ℕ → Bool
stacks p fill_side = not (p.size_lots == 0) && p.side == fill_side

open_value :
    (p : Pos) (fill_side n price mark tick : ℕ)
    → p.size_lots ≡ 0
    → Ensures (apply_fill p fill_side n price tick) λ o.
      value_after p (fill_pos fill_side n price) o mark tick
      ≡ value_before p (fill_pos fill_side n price) o mark tick
unfolding apply_fill
open_value p fill_side n price mark tick e = ground arith

-- Between two values that are at most `s` apart.
scale_between : (x y s t : ℕ) → x ≤ y → y ≤ x + s → (x * t ≤ y * t) × (y * t ≤ x * t + s * t)
scale_between x y s t h k =
    (mul-le-mul_right t h, omega (arith, mul-le-mul_right t k, add-mul x s t))

stack_bounds :
    (s a n e p q m : ℕ)
    → s ≡ a + n
    → ((e * a + p * n ≤ q * (a + n))
        → (q * (a + n) < e * a + p * n + (a + n))
        → (s * m + a * e + n * p ≤ s * q + a * m + n * m)
          × (s * q + a * m + n * m ≤ s * m + a * e + n * p + s))
      × ((q * (a + n) ≤ e * a + p * n)
          → (e * a + p * n < q * (a + n) + (a + n))
          → (s * q + a * m + n * m ≤ s * m + a * e + n * p)
            × (s * m + a * e + n * p ≤ s * q + a * m + n * m + s))
stack_bounds s a n e p q m h =
    let sm : s * m ≡ a * m + n * m = grind (arith, ap (λ z. z * m) h) in
    let sq : s * q ≡ q * (a + n) = grind (arith, ap (λ z. z * q) h) in
    (
      λ x y. (omega (arith, sm, sq), omega (arith, sm, sq)),
      λ x y. (omega (arith, sm, sq), omega (arith, sm, sq)),
    )

stack_value :
    (p : Pos) (n price mark tick : ℕ)
    → 0 < p.size_lots
    → p.side ≤ 1
    → p.entry_ticks < u64
    → price < u64
    → Ensures (apply_fill p p.side n price tick) λ o.
      let before = value_before p (fill_pos p.side n price) o mark tick in
      let after = value_after p (fill_pos p.side n price) o mark tick in
      (after ≤ before) × (before ≤ after + o.pos.size_lots * tick)
stack_value p n price mark tick h l k j =
    use_result (apply_fill p p.side n price tick) (stack_outcome p n price tick h k j)
  where
    use_result :
        (c : Result PosMathError FillOutcome)
        → Ensures c (λ o. IsStacked p n price o)
        → Ensures c λ o.
          let before = value_before p (fill_pos p.side n price) o mark tick in
          let after = value_after p (fill_pos p.side n price) o mark tick in
          (after ≤ before) × (before ≤ after + o.pos.size_lots * tick)
    use_result (err x) w = tt
    use_result (ok o) w = grind (
      arith,
      scale_between (gains o.pos mark + losses p mark + losses (fill_pos p.side n price) mark)
          (losses o.pos mark + gains p mark + gains (fill_pos p.side n price) mark) o.pos.size_lots
          tick,
      stack_bounds o.pos.size_lots p.size_lots n p.entry_ticks price o.pos.entry_ticks mark w.sum,
    )

-- The arithmetic of closing `k` lots, where the profit or loss `r - l` is what the price gives.
close_long :
    (a k e m p t r l : ℕ)
    → k ≤ a
    → r + k * e * t ≡ l + k * p * t
    → ((a - k) * m + a * e + k * m) * t + r ≡ ((a - k) * e + a * m + k * p) * t + l
close_long a k e m p t r l h g =
    grind (arith, ap (λ z. z * t) (split_product a k m h), ap (λ z. z * t) (split_product a k e h))

close_short :
    (a k e m p t r l : ℕ)
    → k ≤ a
    → r + k * p * t ≡ l + k * e * t
    → ((a - k) * e + a * m + k * p) * t + r ≡ ((a - k) * m + a * e + k * m) * t + l
close_short a k e m p t r l h g = sym (close_long a k e m p t l r h (sym g))

flip_long :
    (a n e m p t r l : ℕ)
    → a ≤ n
    → r + a * e * t ≡ l + a * p * t
    → ((n - a) * p + a * e + n * m) * t + r ≡ ((n - a) * m + a * m + n * p) * t + l
flip_long a n e m p t r l h g =
    grind (arith, ap (λ z. z * t) (split_product n a m h), ap (λ z. z * t) (split_product n a p h))

flip_short :
    (a n e m p t r l : ℕ)
    → a ≤ n
    → r + a * p * t ≡ l + a * e * t
    → ((n - a) * m + a * m + n * p) * t + r ≡ ((n - a) * p + a * e + n * m) * t + l
flip_short a n e m p t r l h g = sym (flip_long a n e m p t l r h (sym g))

reduce_value :
    (p : Pos) (fill_side n price mark tick : ℕ)
    → 0 < p.size_lots
    → p.side ≤ 1
    → fill_side ≤ 1
    → p.side ≢ fill_side
    → Ensures (apply_fill p fill_side n price tick) λ o.
      value_after p (fill_pos fill_side n price) o mark tick
      ≡ value_before p (fill_pos fill_side n price) o mark tick
unfolding apply_fill
reduce_value p fill_side n price mark tick h l k ne =
    use_result (closed_pnl p (min n p.size_lots) price tick) refl
      (closed_pnl_lem p (min n p.size_lots) price tick)
  where
    use_result :
        (c : Result PosMathError ℤ)
        → closed_pnl p (min n p.size_lots) price tick ≡ c
        → Ensures c (λ r.
          if p.side == 0
          then pos_part r + min n p.size_lots * p.entry_ticks * tick
            ≡ neg_part r + min n p.size_lots * price * tick
          else pos_part r + min n p.size_lots * price * tick
            ≡ neg_part r + min n p.size_lots * p.entry_ticks * tick)
        → Ensures (apply_fill p fill_side n price tick) λ o.
          value_after p (fill_pos fill_side n price) o mark tick
          ≡ value_before p (fill_pos fill_side n price) o mark tick
    use_result (err x) e w = ground arith
    use_result (ok r) e w = ground (
      arith,
      close_long p.size_lots n p.entry_ticks mark price tick (pos_part r) (neg_part r),
      close_short p.size_lots n p.entry_ticks mark price tick (pos_part r) (neg_part r),
      flip_long p.size_lots n p.entry_ticks mark price tick (pos_part r) (neg_part r),
      flip_short p.size_lots n p.entry_ticks mark price tick (pos_part r) (neg_part r),
    )

-- Where a fill at a u64 price on a position with a u64 entry succeeds, the new position with the
-- realised profit is worth at most the old position with the fill, at any mark. It is worth
-- exactly that unless the fill stacks, and then at most a tick for each lot less.
pub apply_fill_value :
    (p : Pos) (fill_side n price mark tick : ℕ)
    → p.side ≤ 1
    → fill_side ≤ 1
    → p.entry_ticks < u64
    → price < u64
    → Ensures (apply_fill p fill_side n price tick) λ o.
      let before = value_before p (fill_pos fill_side n price) o mark tick in
      let after = value_after p (fill_pos fill_side n price) o mark tick in
      (after ≤ before)
      × (before ≤ after + (if stacks p fill_side then o.pos.size_lots * tick else 0))
apply_fill_value p fill_side n price mark tick l k e j = ground (
  arith,
  open_value p fill_side n price mark tick,
  stack_value p n price mark tick,
  reduce_value p fill_side n price mark tick,
)
