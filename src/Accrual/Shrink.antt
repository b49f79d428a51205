-- ===== src/Accrual/Shrink.antt =====
-- What `reduce_a_pro_rata` of programs/clober/src/matcher/side_accrual.rs does to positions.
use native.Mathlib.Nat.{mul-le-mul_right, mul-le-mul_left}
use flash_book.Common.{ℕ, ◌-◌, ◌*◌, ◌/◌, ◌≤◌, ◌<◌, min, u64, u128, saturating_mul, arith}
use flash_book.Common.Arith.{div-mul-le, div_le, div_mono}
use flash_book.Accrual.{SideAccrual, effective_lots, reduce_a_pro_rata}

-- A reduction is at most pro rata.
pub reduce_a_pro_rata-le :
    (side : SideAccrual) (num den : ℕ)
    → side.a < u128
    → num < u128
    → den < u128
    → let a = (reduce_a_pro_rata side num den).a in
      (a ≤ side.a) × (num < den → a * den ≤ side.a * num)
unfolding reduce_a_pro_rata
reduce_a_pro_rata-le side num den h k l =
    let product = saturating_mul u128 side.a num in
    ground (arith, div-mul-le product den, div_le side.a product den, below)
  where
    below : num ≤ den → side.a * num ≤ side.a * den
    below g = mul-le-mul_left side.a g

effective_lots_mono :
    (basis a b snap : ℕ) → a ≤ b → effective_lots basis a snap ≤ effective_lots basis b snap
unfolding effective_lots
effective_lots_mono basis a b snap h = ground (
  arith,
  mul-le-mul_left basis h,
  div_mono (saturating_mul u128 basis a) (saturating_mul u128 basis b) snap,
)

-- A position never has more than it attached with, while the multiplier is at most its snapshot.
effective_lots-le-basis : (basis a snap : ℕ) → a ≤ snap → effective_lots basis a snap ≤ basis
unfolding effective_lots
effective_lots-le-basis basis a snap h =
    ground (arith, mul-le-mul_left basis h, div_le basis (saturating_mul u128 basis a) snap)

min_le : (a b : ℕ) → min a b ≤ a
min_le a b = omega arith

effective_lots-scaled : (basis a snap : ℕ) → effective_lots basis a snap * snap ≤ basis * a
unfolding effective_lots
effective_lots-scaled basis a snap =
    let q = saturating_mul u128 basis a / snap in
    ground (
      arith,
      div-mul-le (saturating_mul u128 basis a) snap,
      mul-le-mul_right snap (min_le q (u64 - 1)),
    )

-- A reduction of the multiplier, with u128 arguments, takes no position on the side above what
-- it had, nor that above its basis, and leaves it no more than the fraction of its scaled basis,
-- if the multiplier is at most the position's snapshot and basis times multiplier fits in a
-- u128.
pub reduce_a_pro_rata-shrinks :
    (side : SideAccrual) (num den basis snap : ℕ)
    → side.a < u128
    → num < u128
    → den < u128
    → side.a ≤ snap
    → basis < u64
    → basis * side.a < u128
    → let after = effective_lots basis (reduce_a_pro_rata side num den).a snap in
      let before = effective_lots basis side.a snap in
      (after ≤ before) × (before ≤ basis) × (num < den → after * snap * den ≤ basis * side.a * num)
reduce_a_pro_rata-shrinks side num den basis snap h k l s b f =
    let a = (reduce_a_pro_rata side num den).a in
    let r = reduce_a_pro_rata-le side num den h k l in
    (
      effective_lots_mono basis a side.a snap r.0,
      effective_lots-le-basis basis side.a snap s,
      λ lt. scaled lt,
    )
  where
    scaled :
        num < den
        → effective_lots basis (reduce_a_pro_rata side num den).a snap * snap * den
          ≤ basis * side.a * num
    scaled lt = omega (
      arith,
      mul-le-mul_right den (effective_lots-scaled basis (reduce_a_pro_rata side num den).a snap),
      mul-le-mul_left basis ((reduce_a_pro_rata-le side num den h k l).1 lt),
    )
