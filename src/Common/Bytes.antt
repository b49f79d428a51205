-- ===== src/Common/Bytes.antt =====
-- Byte arrays as lists of numbers: equality, windows into an array, and little-endian integers.

use flash_book.Common.{
  ℕ, zero, suc, ◌+◌, ◌*◌, ◌/◌, ◌%◌, ◌≤◌, ◌<◌, ◌≡◌, refl, ap, ◌∙◌, Bool, true, false, ◌&&◌, List, [],
  ◌∷◌, arith, ◌==◌, length, take, drop, ◌↔◌, length-take, length-drop,
}

-- `==` on byte arrays.
abbrev pub bytes_eq : List ℕ → List ℕ → Bool
bytes_eq [] [] = true
bytes_eq [] (y ∷ ys) = false
bytes_eq (x ∷ xs) [] = false
bytes_eq (x ∷ xs) (y ∷ ys) = x == y && bytes_eq xs ys

pub bytes_eq→≡ : (xs ys : List ℕ) → bytes_eq xs ys ≡ true → xs ≡ ys
bytes_eq→≡ [] [] h = refl
bytes_eq→≡ [] (y ∷ ys) h = cc
bytes_eq→≡ (x ∷ xs) [] h = cc
bytes_eq→≡ (x ∷ xs) (y ∷ ys) h = ground (arith, bytes_eq→≡ xs ys)

pub bytes_eq_self : (xs : List ℕ) → bytes_eq xs xs ≡ true
bytes_eq_self [] = refl
bytes_eq_self (x ∷ xs) = ground (arith, bytes_eq_self xs)

pub bytes_eq_iff : (xs ys : List ℕ) → (bytes_eq xs ys ≡ true) ↔ (xs ≡ ys)
bytes_eq_iff xs ys = (bytes_eq→≡ xs ys, λ e. rw e (bytes_eq_self ys))

module _ {ℓ} {A : Type ℓ} where
  -- `data[off .. off + n]`
  abbrev pub slice : List A → ℕ → ℕ → List A
  slice xs off n = take n (drop off xs)

  -- `data[off .. off + vs.len()].copy_from_slice(vs)`
  abbrev pub splice : List A → ℕ → List A → List A
  splice [] off vs = []
  splice (x ∷ xs) zero [] = x ∷ xs
  splice (x ∷ xs) zero (v ∷ vs) = v ∷ splice xs zero vs
  splice (x ∷ xs) (suc off) vs = x ∷ splice xs off vs

  pub length-slice : (xs : List A) (off n : ℕ) → off + n ≤ length xs → length (slice xs off n) ≡ n
  length-slice xs off n h = omega (arith, length-take n (drop off xs), length-drop off xs)

  pub length-splice : (xs : List A) (off : ℕ) (vs : List A) → length (splice xs off vs) ≡ length xs
  length-splice [] off vs = refl
  length-splice (x ∷ xs) zero [] = refl
  length-splice (x ∷ xs) zero (v ∷ vs) = ap suc (length-splice xs zero vs)
  length-splice (x ∷ xs) (suc off) vs = ap suc (length-splice xs off vs)

  -- A window that was written reads back.
  pub slice-splice :
      (xs : List A) (off : ℕ) (vs : List A)
      → off + length vs ≤ length xs
      → slice (splice xs off vs) off (length vs) ≡ vs
  slice-splice [] zero [] h = refl
  slice-splice [] zero (v ∷ vs) h = absurd (omega arith)
  slice-splice [] (suc off) [] h = refl
  slice-splice [] (suc off) (v ∷ vs) h = absurd (omega arith)
  slice-splice (x ∷ xs) zero [] h = refl
  slice-splice (x ∷ xs) zero (v ∷ vs) h = ap (λ l. v ∷ l) (slice-splice xs zero vs (omega arith))
  slice-splice (x ∷ xs) (suc off) vs h = slice-splice xs off vs (omega arith)

  -- Windows that end before a write, or begin behind it, read as before.
  pub slice-splice_before :
      (xs : List A) (off : ℕ) (vs : List A) (j n : ℕ)
      → j + n ≤ off
      → slice (splice xs off vs) j n ≡ slice xs j n
  slice-splice_before xs off vs zero zero h = refl
  slice-splice_before [] off vs zero (suc n) h = refl
  slice-splice_before (x ∷ xs) zero vs zero (suc n) h = absurd (omega arith)
  slice-splice_before (x ∷ xs) (suc off) vs zero (suc n) h =
      ap (λ l. x ∷ l) (slice-splice_before xs off vs zero n (omega arith))
  slice-splice_before [] off vs (suc j) n h = refl
  slice-splice_before (x ∷ xs) zero vs (suc j) n h = absurd (omega arith)
  slice-splice_before (x ∷ xs) (suc off) vs (suc j) n h =
      slice-splice_before xs off vs j n (omega arith)

  pub drop-splice_after :
      (xs : List A) (off : ℕ) (vs : List A) (j : ℕ)
      → off + length vs ≤ j
      → drop j (splice xs off vs) ≡ drop j xs
  drop-splice_after [] off vs j h = refl
  drop-splice_after (x ∷ xs) zero [] j h = refl
  drop-splice_after (x ∷ xs) zero (v ∷ vs) zero h = absurd (omega arith)
  drop-splice_after (x ∷ xs) zero (v ∷ vs) (suc j) h = drop-splice_after xs zero vs j (omega arith)
  drop-splice_after (x ∷ xs) (suc off) vs zero h = absurd (omega arith)
  drop-splice_after (x ∷ xs) (suc off) vs (suc j) h = drop-splice_after xs off vs j (omega arith)

  pub slice-splice_after :
      (xs : List A) (off : ℕ) (vs : List A) (j n : ℕ)
      → off + length vs ≤ j
      → slice (splice xs off vs) j n ≡ slice xs j n
  slice-splice_after xs off vs j n h = ap (take n) (drop-splice_after xs off vs j h)

module _ {ℓ} {A : Type ℓ} where
  -- A window of a window.
  take-take : (k n : ℕ) (xs : List A) → k ≤ n → take k (take n xs) ≡ take k xs
  take-take zero n xs h = refl
  take-take (suc k) zero xs h = absurd (omega arith)
  take-take (suc k) (suc n) [] h = refl
  take-take (suc k) (suc n) (x ∷ xs) h = ap (λ l. x ∷ l) (take-take k n xs (omega arith))

  slice-take : (xs : List A) (a k n : ℕ) → a + k ≤ n → slice (take n xs) a k ≡ slice xs a k
  slice-take xs zero k n h = take-take k n xs (omega arith)
  slice-take xs (suc a) k zero h = absurd (omega arith)
  slice-take [] (suc a) k (suc n) h = refl
  slice-take (x ∷ xs) (suc a) k (suc n) h = slice-take xs a k n (omega arith)

  take-nil : (n : ℕ) → take {A = A} n [] ≡ []
  take-nil zero = refl
  take-nil (suc n) = refl

  slice-nil : (a k : ℕ) → slice {A = A} [] a k ≡ []
  slice-nil zero k = take-nil k
  slice-nil (suc a) k = take-nil k

  pub slice-slice :
      (xs : List A) (off a k n : ℕ) → a + k ≤ n → slice (slice xs off n) a k ≡ slice xs (off + a) k
  slice-slice xs zero a k n h = slice-take xs a k n h ∙ ap (λ i. slice xs i k) (omega arith)
  slice-slice [] (suc off) a k n h = rw (take-nil n, slice-nil a k, slice-nil (suc off + a) k) refl
  slice-slice (x ∷ xs) (suc off) a k n h =
      slice-slice xs off a k n h ∙ ap (λ i. slice (x ∷ xs) i k) {x = suc (off + a)} (omega arith)

-- `v.to_le_bytes()` in `k` bytes, and `from_le_bytes`.
abbrev pub to_le_bytes : ℕ → ℕ → List ℕ
to_le_bytes zero v = []
to_le_bytes (suc k) v = (v % 256) ∷ to_le_bytes k (v / 256)

abbrev pub from_le_bytes : List ℕ → ℕ
from_le_bytes [] = 0
from_le_bytes (b ∷ bs) = b + 256 * from_le_bytes bs

pub length-to_le_bytes : (k v : ℕ) → length (to_le_bytes k v) ≡ k
length-to_le_bytes zero v = refl
length-to_le_bytes (suc k) v = ap suc (length-to_le_bytes k (v / 256))

-- The first value that `k` bytes do not hold.
abbrev pub width : ℕ → ℕ
width zero = 1
width (suc k) = 256 * width k

pub from_le-to_le : (k v : ℕ) → v < width k → from_le_bytes (to_le_bytes k v) ≡ v
from_le-to_le zero v h = omega arith
from_le-to_le (suc k) v h = omega (arith, from_le-to_le k (v / 256) (omega arith))
