-- ===== src/Common/Int.antt =====
-- Signed integers over the native numbers, under the library's names. Sums and orders go through
-- the two parts of an integer.
use flash_book.Common.{
  ℕ, suc, ◌+◌, ◌-◌, ◌*◌, ◌/◌, ◌^◌, ◌≤◌, ◌<◌, ◌≡◌, ap, ◌⊎◌, Bool, ◌&&◌, Option, none, some, arith,
  ltb, leb, if◌then◌else◌,
}

-- `negsuc n` is -(n + 1).
pub data ℤ : Type 0 where
  pos : ℕ → ℤ
  negsuc : ℕ → ℤ

abbrev pub pos_part : ℤ → ℕ
pos_part (pos n) = n
pos_part (negsuc n) = 0

abbrev pub neg_part : ℤ → ℕ
neg_part (pos n) = 0
neg_part (negsuc n) = suc n

-- a - b, as an integer.
abbrev pub sub_ℕ : ℕ → ℕ → ℤ
sub_ℕ a b = if leb b a then pos (a - b) else negsuc (b - a - 1)

infixl 65 ◌+ℤ◌ ◌-ℤ◌
infixl 70 ◌*ℤ◌
infix 50 ◌≤ℤ◌
unfoldable pub ◌+ℤ◌ : ℤ → ℤ → ℤ
a +ℤ b = sub_ℕ (pos_part a + pos_part b) (neg_part a + neg_part b)

unfoldable pub ◌-ℤ◌ : ℤ → ℤ → ℤ
a -ℤ b = sub_ℕ (pos_part a + neg_part b) (neg_part a + pos_part b)

unfoldable pub ◌*ℤ◌ : ℤ → ℤ → ℤ
a *ℤ b =
    sub_ℕ (pos_part a * pos_part b + neg_part a * neg_part b)
      (pos_part a * neg_part b + neg_part a * pos_part b)

unfoldable pub neg : ℤ → ℤ
neg a = sub_ℕ (neg_part a) (pos_part a)

-- Rust's `/` on signed integers, by a positive number: rounds towards zero.
unfoldable pub div_trunc : ℤ → ℕ → ℤ
div_trunc a d = sub_ℕ (pos_part a / d) (neg_part a / d)

-- An arithmetic right shift, as a division by a power of two: rounds towards -∞.
unfoldable pub div_floor : ℤ → ℕ → ℤ
div_floor (pos n) d = pos (n / d)
div_floor (negsuc n) d = negsuc (n / d)

abbrev pub ◌≤ℤ◌ : ℤ → ℤ → Type 0
a ≤ℤ b = pos_part a + neg_part b ≤ pos_part b + neg_part a

abbrev pub ltb_ℤ : ℤ → ℤ → Bool
ltb_ℤ a b = ltb (pos_part a + neg_part b) (pos_part b + neg_part a)

abbrev pub leb_ℤ : ℤ → ℤ → Bool
leb_ℤ a b = leb (pos_part a + neg_part b) (pos_part b + neg_part a)

abbrev pub is_pos : ℤ → Bool
is_pos a = ltb 0 (pos_part a)

abbrev pub is_neg : ℤ → Bool
is_neg a = ltb 0 (neg_part a)

-- The values of a signed machine integer, `h` being the half of its range (2 ^ 127 for `i128`).
abbrev pub i64 : ℕ
i64 = 2 ^ 63

abbrev pub i128 : ℕ
i128 = 2 ^ 127

abbrev pub fits : ℕ → ℤ → Bool
fits h a = ltb (pos_part a) h && leb (neg_part a) h

-- A checked operation's result.
abbrev pub checked : ℕ → ℤ → Option ℤ
checked h a = if fits h a then some a else none

-- A saturating operation's result.
abbrev pub saturated : ℕ → ℤ → ℤ
saturated h a =
    if leb h (pos_part a) then pos (h - 1) else if ltb h (neg_part a) then negsuc (h - 1) else a

-- One lemma for each operation lets `omega` work with the operations shut.
pub +ℤ_parts :
    (a b : ℤ)
    → pos_part (a +ℤ b) + neg_part a + neg_part b ≡ neg_part (a +ℤ b) + pos_part a + pos_part b
unfolding ◌+ℤ◌
+ℤ_parts a b = ground arith

pub -ℤ_parts :
    (a b : ℤ)
    → pos_part (a -ℤ b) + neg_part a + pos_part b ≡ neg_part (a -ℤ b) + pos_part a + neg_part b
unfolding ◌-ℤ◌
-ℤ_parts a b = ground arith

pub *ℤ_parts :
    (a b : ℤ)
    → pos_part (a *ℤ b) + (pos_part a * neg_part b + neg_part a * pos_part b)
      ≡ neg_part (a *ℤ b) + (pos_part a * pos_part b + neg_part a * neg_part b)
unfolding ◌*ℤ◌
*ℤ_parts a b = ground arith

pub neg_parts : (a : ℤ) → (pos_part (neg a) ≡ neg_part a) × (neg_part (neg a) ≡ pos_part a)
unfolding neg
neg_parts a = ground arith

pub sub_ℕ_parts : (a b : ℕ) → pos_part (sub_ℕ a b) + b ≡ neg_part (sub_ℕ a b) + a
sub_ℕ_parts a b = ground arith

pub *ℤ-pos :
    (q : ℤ) (t a b : ℕ)
    → pos_part q + a ≡ neg_part q + b
    → pos_part (q *ℤ pos t) + a * t ≡ neg_part (q *ℤ pos t) + b * t
*ℤ-pos q t a b h = grind (arith, *ℤ_parts q (pos t), ap (λ z. z * t) h)

pub pos-*ℤ :
    (k : ℕ) (d : ℤ) (e p : ℕ)
    → pos_part d + e ≡ neg_part d + p
    → pos_part (pos k *ℤ d) + k * e ≡ neg_part (pos k *ℤ d) + k * p
pos-*ℤ k d e p h = grind (arith, *ℤ_parts (pos k) d, ap (λ z. k * z) h)

pub neg-*ℤ :
    (k : ℕ) (d : ℤ) (e p : ℕ)
    → pos_part d + e ≡ neg_part d + p
    → pos_part (neg (pos k) *ℤ d) + k * p ≡ neg_part (neg (pos k) *ℤ d) + k * e
neg-*ℤ k d e p h = grind (arith, *ℤ_parts (neg (pos k)) d, neg_parts (pos k), ap (λ z. k * z) h)

pub -ℤ-self : (a : ℤ) → a -ℤ a ≡ pos 0
unfolding ◌-ℤ◌
-ℤ-self a = ground arith

pub *ℤ-zero : (n : ℕ) → pos n *ℤ pos 0 ≡ pos 0
unfolding ◌*ℤ◌
*ℤ-zero n = ground arith

pub zero-*ℤ : (a : ℤ) → pos 0 *ℤ a ≡ pos 0
unfolding ◌*ℤ◌
zero-*ℤ a = ground arith

pub *ℤ-one : (a : ℤ) → a *ℤ pos 1 ≡ a
unfolding ◌*ℤ◌
*ℤ-one a = ground arith

pub *ℤ-minus_one :
    (a : ℤ) → (pos_part (a *ℤ negsuc 0) ≡ neg_part a) × (neg_part (a *ℤ negsuc 0) ≡ pos_part a)
unfolding ◌*ℤ◌
*ℤ-minus_one a = ground arith

pub +ℤ-zero : (a : ℤ) → a +ℤ pos 0 ≡ a
unfolding ◌+ℤ◌
+ℤ-zero a = ground arith

-- The magnitude of an integer, and of a product.
abbrev pub magnitude : ℤ → ℕ
magnitude a = pos_part a + neg_part a

pub magnitude-*ℤ : (a b : ℤ) → magnitude (a *ℤ b) ≤ magnitude a * magnitude b
unfolding ◌*ℤ◌
magnitude-*ℤ a b = ground arith

pub eq_of_parts : (a b : ℤ) → pos_part a + neg_part b ≡ pos_part b + neg_part a → a ≡ b
eq_of_parts a b h = ground arith

pub ruleset int_laws = (arith, +ℤ_parts, -ℤ_parts, eq_of_parts)
