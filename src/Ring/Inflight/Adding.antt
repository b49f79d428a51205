-- ===== src/Ring/Inflight/Adding.antt =====
-- The loops over the map of reductions in flight, fill_commitment.rs: which slot an addition or a
-- subtraction writes, and with what.
use mathlib.Core.Path.{subst}
use flash_book.Common.{
  ℕ, zero, suc, ◌+◌, ◌≤◌, ◌<◌, ◌≡◌, refl, Bool, true, false, List, arith, length, Option, none,
  some, Bool-cases, inl, inr, Ensures, ltb-false, u64, saturating_add,
}
use flash_book.Common.Bytes.{bytes_eq, bytes_eq→≡, bytes_eq_self}
use flash_book.Common.Fields.{wr_u64}
use flash_book.Ring.Inflight.{slot_at, all_zero, first_free, place_new, add_from}
use flash_book.Ring.Inflight.Slots.{
  key_at, lots_at, WrittenAt, Unmatched, Unmatched-suc, wr-WrittenAt, new-WrittenAt,
}

module _ (base : ℕ) (p : List ℕ) (delta : ℕ) (buf : List ℕ) where
  -- What an addition does: it raises the first slot with the position, or there is none and it
  -- takes a free slot for it.
  pub data Added (new : List ℕ) : Type 0 where
    raised :
        (t : ℕ)
        → t < 32
        → Unmatched buf base p t
        → key_at buf base t ≡ p
        → WrittenAt base t p (saturating_add u64 (lots_at buf base t) delta) buf new
        → Added new
    placed :
        (t : ℕ)
        → t < 32
        → Unmatched buf base p 32
        → all_zero (key_at buf base t) ≡ true
        → WrittenAt base t p delta buf new
        → Added new

  -- The offset that the loop remembers is that of a free slot before `s`.
  abbrev IsFree : ℕ → Option ℕ → Type 0
  IsFree s none = Unit
  IsFree s (some off) =
      (f : ℕ) × (f < s) × (off ≡ slot_at base f) × (all_zero (key_at buf base f) ≡ true)

  first_free-IsFree :
      (s : ℕ) (free : Option ℕ) (b : Bool)
      → all_zero (key_at buf base s) ≡ b
      → IsFree s free
      → IsFree (s + 1) (first_free free b (slot_at base s))
  first_free-IsFree s none true e h = (s, omega arith, refl, e)
  first_free-IsFree s none false e h = tt
  first_free-IsFree s (some off) b e (f, lt, at, z) = (f, omega arith, at, z)

  place_new-Added :
      (free : Option ℕ)
      → slot_at base 32 ≤ length buf
      → length p ≡ 32
      → delta < u64
      → Unmatched buf base p 32
      → IsFree 32 free
      → Ensures (place_new buf p delta free) Added
  unfolding place_new
  place_new-Added none room l fits u h = tt
  place_new-Added (some off) room l fits u (f, lt, at, z) =
      rw at (placed f lt u z (new-WrittenAt buf base f p delta (omega arith) l fits))

  pub add_from-Added :
      (free : Option ℕ) (n s : ℕ)
      → s + n ≡ 32
      → slot_at base 32 ≤ length buf
      → length p ≡ 32
      → delta < u64
      → Unmatched buf base p s
      → IsFree s free
      → Ensures (add_from buf base p delta free n s) Added
  unfolding add_from
  add_from-Added free zero s e room l fits u h =
      place_new-Added free room l fits (subst (Unmatched buf base p) (omega arith) u)
        (subst (λ k. IsFree k free) (omega arith) h)
  add_from-Added free (suc n) s e room l fits u h =
      rw (ltb-false (length buf) (slot_at base s + 40) (omega arith))
        (elim (Bool-cases (bytes_eq (key_at buf base s) p)) [
          | inl hit ↦
              let same = bytes_eq→≡ (key_at buf base s) p hit in
              rw hit (
                raised s (omega arith) u same (
                  subst
                    (λ k. WrittenAt base s k (saturating_add u64 (lots_at buf base s) delta) buf (
                      wr_u64 buf (slot_at base s + 32)
                        (saturating_add u64 (lots_at buf base s) delta)))
                    same
                    (wr-WrittenAt buf base s (saturating_add u64 (lots_at buf base s) delta)
                      (omega arith) (ground arith))))
          | inr miss ↦ rw miss (
              add_from-Added (first_free free (all_zero (key_at buf base s)) (slot_at base s)) n
                (s + 1) (omega arith) room l fits
                (Unmatched-suc buf base p s u (λ e. ground (arith, bytes_eq_self p)))
                (first_free-IsFree s free (all_zero (key_at buf base s)) refl h))
        ])
