-- ===== src/Ring/Inflight/Subtracting.antt =====
-- The loop that lowers a reduction in flight, fill_commitment.rs: which slot it writes, and with
-- what.
use mathlib.Core.Path.{subst}
use flash_book.Common.{
  ℕ, zero, suc, ◌+◌, ◌-◌, ◌≤◌, ◌<◌, ◌≡◌, refl, sym, ap, ◌∙◌, List, arith, length, Bool-cases, inl,
  inr, ltb-false, u64, replicate, ◌==◌,
}
use flash_book.Common.Bytes.{
  bytes_eq, bytes_eq→≡, bytes_eq_self, from_le_bytes, slice, splice, length-splice, slice-splice,
  slice-slice,
}
use flash_book.Common.Fields.{wr_u64}
use flash_book.Ring.Inflight.{slot_at, lower, sub_from}
use flash_book.Ring.Inflight.Slots.{
  key_at, lots_at, WrittenAt, Unmatched, Unmatched-suc, wr-WrittenAt, splice-others,
}

-- The bytes of a freed slot.
freed-WrittenAt :
    (buf : List ℕ) (base t : ℕ)
    → slot_at base t + 40 ≤ length buf
    → WrittenAt base t (replicate 32 0) 0 buf (splice buf (slot_at base t) (replicate 40 0))
freed-WrittenAt buf base t room =
    let cleared : slice (splice buf (slot_at base t) (replicate 40 0)) (slot_at base t) 40
        ≡ replicate 40 0 =
      slice-splice buf (slot_at base t) (replicate 40 0) (omega arith) in
    let new = splice buf (slot_at base t) (replicate 40 0) in
    record {
      same_len = length-splice buf (slot_at base t) (replicate 40 0);
      key_new =
          subst (λ o. slice new o 32 ≡ replicate 32 0) {x = slot_at base t + 0} (omega arith)
            (sym (slice-slice new (slot_at base t) 0 32 40 (omega arith))
              ∙ ap (λ w. slice w 0 32) cleared);
      lots_new = ap from_le_bytes (
          sym (slice-slice new (slot_at base t) 32 8 40 (omega arith))
          ∙ ap (λ w. slice w 32 8) cleared);
      others =
          splice-others buf base t (slot_at base t) (replicate 40 0) (omega arith) (omega arith);
    }

module _ (base : ℕ) (p : List ℕ) (delta : ℕ) (buf : List ℕ) where
  -- What a subtraction does: nothing where no slot has the position, and otherwise it lowers the
  -- first slot that has it, or frees it where nothing is left.
  pub data Subtracted (new : List ℕ) : Type 0 where
    absent : Unmatched buf base p 32 → new ≡ buf → Subtracted new
    lowered :
        (t : ℕ)
        → t < 32
        → Unmatched buf base p t
        → key_at buf base t ≡ p
        → WrittenAt base t p (lots_at buf base t - delta) buf new
        → Subtracted new
    freed :
        (t : ℕ)
        → t < 32
        → Unmatched buf base p t
        → key_at buf base t ≡ p
        → lots_at buf base t ≤ delta
        → WrittenAt base t (replicate 32 0) 0 buf new
        → Subtracted new

  lower-Subtracted :
      (t : ℕ)
      → t < 32
      → slot_at base t + 40 ≤ length buf
      → lots_at buf base t < u64
      → Unmatched buf base p t
      → key_at buf base t ≡ p
      → Subtracted (lower buf (slot_at base t) (lots_at buf base t - delta))
  unfolding lower
  lower-Subtracted t lt room fits u e = elim (Bool-cases (lots_at buf base t - delta == 0)) [
    | inl none_left ↦ rw none_left (freed t lt u e (ground arith) (freed-WrittenAt buf base t room))
    | inr left ↦ rw left (
        lowered t lt u e (
          subst
            (λ k.
              WrittenAt base t k (lots_at buf base t - delta) buf
                (wr_u64 buf (slot_at base t + 32) (lots_at buf base t - delta)))
            e (wr-WrittenAt buf base t (lots_at buf base t - delta) room (omega arith))))
  ]

  pub sub_from-Subtracted :
      (n s : ℕ)
      → s + n ≡ 32
      → slot_at base 32 ≤ length buf
      → ((i : ℕ) → i < 32 → lots_at buf base i < u64)
      → Unmatched buf base p s
      → Subtracted (sub_from buf base p delta n s)
  unfolding sub_from
  sub_from-Subtracted zero s e room fits u =
      absent (subst (Unmatched buf base p) (omega arith) u) refl
  sub_from-Subtracted (suc n) s e room fits u =
      rw (ltb-false (length buf) (slot_at base s + 40) (omega arith))
        (elim (Bool-cases (bytes_eq (key_at buf base s) p)) [
          | inl hit ↦ rw hit (
              lower-Subtracted s (omega arith) (omega arith) (fits s (omega arith)) u
                (bytes_eq→≡ (key_at buf base s) p hit))
          | inr miss ↦ rw miss (
              sub_from-Subtracted n (s + 1) (omega arith) room fits
                (Unmatched-suc buf base p s u (λ e. ground (arith, bytes_eq_self p))))
        ])
