-- ===== src/Outbox/Slots.antt =====
-- Slots of the outbox, fill_outbox.rs: a fill that is written reads back, and no other slot and no
-- header byte changes.
use mathlib.Core.Path.{subst}
use flash_book.Common.{
  ℕ, ◌+◌, ◌≤◌, ◌<◌, ◌≡◌, refl, List, arith, ok, u64, length, ltb-false, leb-false, Returns, ◌∙◌,
  ◌⊎◌, inl, inr,
}
use flash_book.Common.Bytes.{
  slice, splice, length-slice, length-splice, slice-splice, slice-splice_before, slice-splice_after,
}
use flash_book.Common.Fields.{
  InOrder, AreRead, length-write_fields, write_fields-read, get_or-slice, rd_u64-field,
}
use flash_book.Outbox.{
  OutboxSlot, slot_fields, slot_base, fill_outbox_slot_len, outbox_write_slot, outbox_read_slot,
  decode_slot, filled,
}

-- The fields of a fill are in the ranges of their types.
pub record IsTyped (fill : OutboxSlot) : Type 0 where
  pub taker_len : length fill.taker ≡ 32
  pub maker_len : length fill.maker ≡ 32
  pub size_lots_fits : fill.size_lots < u64
  pub price_ticks_fits : fill.price_ticks < u64
  pub maker_id_fits : fill.maker_id < u64

slot_fields-InOrder : (fill : OutboxSlot) → IsTyped fill → InOrder 0 96 (slot_fields fill)
slot_fields-InOrder fill t = ground arith

-- A window that was filled decodes to its fill.
decode-read :
    (w : List ℕ) (fill : OutboxSlot)
    → IsTyped fill
    → AreRead w (slot_fields fill)
    → decode_slot w ≡ fill
unfolding decode_slot
decode-read w fill t (r0, (r1, (r2, (r3, (r4, (r5, (r6, (r7, (r8, r9))))))))) = rw (
  r0 32 t.taker_len,
  r1 32 t.maker_len,
  rd_u64-field w 64 fill.size_lots r2 t.size_lots_fits,
  rd_u64-field w 72 fill.price_ticks r3 t.price_ticks_fits,
  rd_u64-field w 80 fill.maker_id r4 t.maker_id_fits,
  get_or-slice w 88 fill.taker_side (r5 1 refl),
  get_or-slice w 89 fill.taker_sub_index (r6 1 refl),
  get_or-slice w 90 fill.maker_sub_index (r7 1 refl),
  get_or-slice w 91 fill.taker_was_jit (r8 1 refl),
)

length-filled :
    (buf : List ℕ) (i : ℕ) (fill : OutboxSlot)
    → slot_base i + 96 ≤ length buf
    → length (filled buf i fill) ≡ 96
unfolding filled
length-filled buf i fill h =
    length-write_fields (slice buf (slot_base i) 96) (slot_fields fill)
    ∙ length-slice buf (slot_base i) 96 h

decode-filled :
    (buf : List ℕ) (i : ℕ) (fill : OutboxSlot)
    → IsTyped fill
    → slot_base i + 96 ≤ length buf
    → decode_slot (filled buf i fill) ≡ fill
unfolding filled
decode-filled buf i fill t h = decode-read (filled buf i fill) fill t (
    write_fields-read (slice buf (slot_base i) 96) 0 96 (slot_fields fill)
      (slot_fields-InOrder fill t) (omega (arith, length-slice buf (slot_base i) 96 h)))

slice-filled :
    (buf : List ℕ) (i : ℕ) (fill : OutboxSlot)
    → slot_base i + 96 ≤ length buf
    → slice (splice buf (slot_base i) (filled buf i fill)) (slot_base i) 96 ≡ filled buf i fill
slice-filled buf i fill h =
    subst
      (λ n.
        slice (splice buf (slot_base i) (filled buf i fill)) (slot_base i) n ≡ filled buf i fill)
      (length-filled buf i fill h)
      (slice-splice buf (slot_base i) (filled buf i fill)
        (omega (arith, length-filled buf i fill h)))

-- The bytes from `j` on, for `n`, do not meet slot `i`.
abbrev pub Misses : ℕ → ℕ → ℕ → Type 0
Misses i j n = (j + n ≤ slot_base i) ⊎ (slot_base i + 96 ≤ j)

slice-splice-Misses :
    (buf : List ℕ) (i : ℕ) (v : List ℕ) (j n : ℕ)
    → length v ≡ 96
    → Misses i j n
    → slice (splice buf (slot_base i) v) j n ≡ slice buf j n
slice-splice-Misses buf i v j n e (inl before) = slice-splice_before buf (slot_base i) v j n before
slice-splice-Misses buf i v j n e (inr after) =
    slice-splice_after buf (slot_base i) v j n (omega (arith, e))

-- Whatever stands in the slot, in an account with room for it: a write of a fill whose fields
-- are in the ranges of their types returns an account of the same length, from which the slot
-- reads that fill back, and every stretch of bytes that does not meet the slot is as it was.
pub read-write_slot :
    (buf : List ℕ) (capacity i : ℕ) (fill : OutboxSlot)
    → IsTyped fill
    → i < capacity
    → slot_base i + fill_outbox_slot_len ≤ length buf
    → Returns (outbox_write_slot buf capacity i fill) λ written.
      (length written ≡ length buf)
      × (outbox_read_slot written capacity i ≡ ok fill)
      × ((j n : ℕ) → Misses i j n → slice written j n ≡ slice buf j n)
unfolding outbox_write_slot outbox_read_slot
read-write_slot buf capacity i fill t lt fits =
    rw (leb-false capacity i lt, ltb-false (length buf) (slot_base i + 96) fits)
      (
        length-splice buf (slot_base i) (filled buf i fill),
        rw (
          length-splice buf (slot_base i) (filled buf i fill),
          ltb-false (length buf) (slot_base i + 96) fits,
          slice-filled buf i fill fits,
          decode-filled buf i fill t fits,
        ),
        λ j n m.
            slice-splice-Misses buf i (filled buf i fill) j n (length-filled buf i fill fits) m,
      )
