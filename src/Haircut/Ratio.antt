-- ===== src/Haircut/Ratio.antt =====
-- The haircut ratio `compute_h`, and what one matured amount is paid at a ratio.

use flash_book.Common.{ℕ, ◌*◌, ◌/◌, ◌≤◌, ◌<◌, ◌≡◌, min, arith, u64, u128}
use flash_book.Common.Arith.{div-mul-le, div_le, div_mono}
use flash_book.Haircut.{h_denom, compute_h, convert_with_haircut}

-- The product of the ratio's numerator does not leave `u128`.
abbrev pub IsExact : ℕ → ℕ → Type 0
IsExact residual matured = min residual matured * h_denom < u128

-- The ratio never exceeds one, the fallback included.
pub compute_h-le : (residual matured : ℕ) → compute_h residual matured ≤ h_denom
unfolding compute_h
compute_h-le residual matured =
    ground (arith, div_le h_denom (min residual matured * h_denom) matured)

-- With no Residual nothing is paid.
pub compute_h-none : (matured : ℕ) → 0 < matured → compute_h 0 matured ≡ 0
unfolding compute_h
compute_h-none matured h = ground arith

-- Where the numerator fits, the ratio is the floor of its definition.
pub compute_h-mul :
    (residual matured : ℕ)
    → IsExact residual matured
    → compute_h residual matured * matured ≤ min residual matured * h_denom
unfolding compute_h
compute_h-mul residual matured h =
    ground (arith, div-mul-le (min residual matured * h_denom) matured)

-- The fallback: a numerator past 2 ^ 128 pays in full, whatever the residual.
pub compute_h-overflow :
    (residual matured : ℕ)
    → residual < matured
    → u128 ≤ residual * h_denom
    → compute_h residual matured ≡ h_denom
unfolding compute_h
compute_h-overflow residual matured h k = ground arith

-- A larger residual never lowers the ratio.
pub compute_h_mono : (r s matured : ℕ) → r ≤ s → compute_h r matured ≤ compute_h s matured
unfolding compute_h
compute_h_mono r s matured h = ground (
  arith,
  div_le h_denom (min r matured * h_denom) matured,
  div_mono (min r matured * h_denom) (min s matured * h_denom) matured,
)

-- A matured amount of a position, in `u64`, is paid the floor of its share, and the dust is the
-- rest.
pub convert_with_haircut_lem :
    (m h : ℕ) → m < u64 → h ≤ h_denom → (convert_with_haircut m h).0 ≡ m * h / h_denom
unfolding convert_with_haircut
convert_with_haircut_lem m h hm hh = ground (arith, product)
  where
    product : m * h < u128
    product = grind arith

pub credit-le : (m h : ℕ) → m < u64 → h ≤ h_denom → m * h / h_denom ≤ m
credit-le m h hm hh = div_le m (m * h) h_denom (omega arith) (grind arith)
