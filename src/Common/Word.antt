-- ===== src/Common/Word.antt =====
-- Unsigned machine integers: a value is a number, and each operation is given the modulus of its
-- width.
use Prim.Native.Nat.{ℕ, ◌+◌, ◌-◌, ◌*◌, ◌^◌}
use mathlib.Core.Option.{Option, none, some}
use flash_book.Common.Tests.{ltb, leb, if◌then◌else◌}

abbrev pub u8 : ℕ
u8 = 2 ^ 8

abbrev pub u32 : ℕ
u32 = 2 ^ 32

abbrev pub u64 : ℕ
u64 = 2 ^ 64

abbrev pub u128 : ℕ
u128 = 2 ^ 128

abbrev pub checked_add : ℕ → ℕ → ℕ → Option ℕ
checked_add m a b = if ltb (a + b) m then some (a + b) else none

abbrev pub checked_mul : ℕ → ℕ → ℕ → Option ℕ
checked_mul m a b = if ltb (a * b) m then some (a * b) else none

abbrev pub checked_sub : ℕ → ℕ → Option ℕ
checked_sub a b = if leb b a then some (a - b) else none

abbrev pub saturating_add : ℕ → ℕ → ℕ → ℕ
saturating_add m a b = if ltb (a + b) m then a + b else m - 1

abbrev pub saturating_mul : ℕ → ℕ → ℕ → ℕ
saturating_mul m a b = if ltb (a * b) m then a * b else m - 1

-- The truncated subtraction of ℕ is `saturating_sub`.
abbrev pub saturating_sub : ℕ → ℕ → ℕ
saturating_sub a b = a - b

abbrev pub abs_diff : ℕ → ℕ → ℕ
abs_diff a b = a - b + (b - a)
