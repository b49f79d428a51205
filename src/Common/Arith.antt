-- ===== src/Common/Arith.antt =====
-- Division with rounding: the facts that the fixed-point arithmetic rests on.
use flash_book.Common.{ℕ, ◌+◌, ◌-◌, ◌≡◌, ◌*◌, ◌/◌, ◌≤◌, ◌<◌, arith}

-- `q` times the divisor stays below the dividend.
pub div-mul-le : (a b : ℕ) → (a / b) * b ≤ a
div-mul-le a b = grind arith

pub lt-suc_div-mul : (a b : ℕ) → 0 < b → a < (a / b + 1) * b
lt-suc_div-mul a b h = grind arith

pub le_div : (q a b : ℕ) → 0 < b → q * b ≤ a → q ≤ a / b
le_div q a b hb h = grind arith

pub div_le : (q a b : ℕ) → 0 < b → a ≤ q * b → a / b ≤ q
div_le q a b hb h = grind arith

pub div_mono : (a b c : ℕ) → 0 < c → a ≤ b → a / c ≤ b / c
div_mono a b c hc h = grind arith

pub split_product : (a k x : ℕ) → k ≤ a → (a - k) * x + k * x ≡ a * x
split_product a k x h = grind arith
