-- ===== src/Matching/Delivery/Header.antt =====
-- The block of `place_taker_order`, programs/clober/src/lib.rs, that records the fills leaves what
-- the outbox's check reads.

use flash_book.Common.{
  ℕ, ◌+◌, ◌%◌, ◌≡◌, refl, ◌∙◌, List, [], ◌∷◌, Option, none, some, arith, ok, true, false, ltb, leb,
  Bool-cases, inl, inr, map_err, length, Ensures, Ensures->>=, Ensures-skip, Ensures-map_err,
}
use flash_book.Common.Bytes.{length-splice, slice-splice_after, slice-splice_before, to_le_bytes}
use flash_book.Common.Fields.{wr_u64}
use flash_book.Errors.{fill_ring_corrupt}
use flash_book.Ring.Buffer.{buffer_check, buffer_next_index, buffer_settle_index, buffer_push}
use flash_book.Outbox.{
  OutboxSlot, slot_base, filled, outbox_check, outbox_write_slot, outbox_set_cursors,
}
use flash_book.Matching.{Match}
use flash_book.Matching.Delivery.{
  Batch, slot_of_match, commitment, push_error, reserve, write_outbox, push_fill, push_fills,
  check_outbox, require_covered, set_cursors, deliver,
}
use flash_book.Matching.Delivery.Region.{IsKept, IsKept-refl, IsKept-trans, splice-IsKept}
use flash_book.Matching.Delivery.Mirror.{OnBytes}

outbox_write_slot-IsKept :
    (buf : List ℕ) (fo_cap i : ℕ) (fill : OutboxSlot)
    → Ensures (outbox_write_slot buf fo_cap i fill) (IsKept 64 buf)
unfolding outbox_write_slot
outbox_write_slot-IsKept buf fo_cap i fill = elim (Bool-cases (leb fo_cap i)) [
  | inl out ↦ rw out tt
  | inr inside ↦ elim (Bool-cases (ltb (length buf) (slot_base i + 96))) [
    | inl short ↦ rw (inside, short) tt
    | inr long ↦
        rw (inside, long) (splice-IsKept 64 buf (slot_base i) (filled buf i fill) (omega arith))
  ]
]

push_fill-IsKept :
    (b : Batch) (capacity fo_cap : ℕ) (fc buf : List ℕ) (m : Match)
    → Ensures
        (push_fill b capacity fo_cap (record { fc_data = fc; fo_data = some buf }) m)
        λ next. OnBytes (IsKept 64 buf) next.fo_data
unfolding push_fill write_outbox
push_fill-IsKept b capacity fo_cap fc buf m =
    let idx = buffer_next_index fc in
    let written = outbox_write_slot buf fo_cap (idx % fo_cap) (slot_of_match b m) in
    Ensures-skip (map_err push_error (buffer_push fc b.market (commitment b idx m))) _ _ λ p.
      Ensures-skip (elim m.reduce_only [ true ↦ reserve b capacity idx p m | false ↦ ok p ]) _ _
        λ q.
          Ensures->>= (write_outbox b fo_cap idx (some buf) m) _ (OnBytes (IsKept 64 buf)) _
            (Ensures->>= (map_err (λ e. fill_ring_corrupt) written) _ (IsKept 64 buf) _
              (Ensures-map_err _ written _
                (outbox_write_slot-IsKept buf fo_cap (idx % fo_cap) (slot_of_match b m)))
              λ w k. k)
            λ w k. k

push_fills-IsKept :
    (b : Batch) (capacity fo_cap : ℕ) (ms : List Match) (fc : List ℕ) (fo : Option (List ℕ))
    (buf : List ℕ)
    → OnBytes (IsKept 64 buf) fo
    → Ensures
        (push_fills b capacity fo_cap (record { fc_data = fc; fo_data = fo }) ms)
        λ after. OnBytes (IsKept 64 buf) after.fo_data
unfolding push_fills
push_fills-IsKept b capacity fo_cap [] fc fo buf h = h
push_fills-IsKept b capacity fo_cap (m ∷ ms) fc none buf h = absurd h
push_fills-IsKept b capacity fo_cap (m ∷ ms) fc (some w) buf h =
    Ensures->>= (push_fill b capacity fo_cap (record { fc_data = fc; fo_data = some w }) m) _ _ _
      (push_fill-IsKept b capacity fo_cap fc w m)
      λ next k.
        push_fills-IsKept b capacity fo_cap ms next.fc_data next.fo_data buf (joined next.fo_data k)
  where
    joined : (fo : Option (List ℕ)) → OnBytes (IsKept 64 w) fo → OnBytes (IsKept 64 buf) fo
    joined none k = k
    joined (some new) k = IsKept-trans 64 buf w new h k

outbox_check-IsKept :
    (old new market : List ℕ)
    → IsKept 64 old new
    → outbox_check new market ≡ outbox_check old market
unfolding outbox_check
outbox_check-IsKept old new market k =
    rw
      (
        k.same_len,
        k.before 0 8 (omega arith),
        k.before 24 4 (omega arith),
        k.before 32 32 (omega arith),
      )
      refl

outbox_check-set_cursors :
    (buf market : List ℕ) (produced settled : ℕ)
    → outbox_check (outbox_set_cursors buf produced settled) market ≡ outbox_check buf market
unfolding outbox_check outbox_set_cursors
outbox_check-set_cursors buf market produced settled =
    let one = to_le_bytes 8 produced in
    let two = to_le_bytes 8 settled in
    let old = wr_u64 buf 8 produced in
    rw
      (
        length-splice old 16 two ∙ length-splice buf 8 one,
        slice-splice_before old 16 two 0 8 (omega arith)
            ∙ slice-splice_before buf 8 one 0 8 (omega arith),
        slice-splice_after old 16 two 24 4 (omega arith)
            ∙ slice-splice_after buf 8 one 24 4 (omega arith),
        slice-splice_after old 16 two 32 32 (omega arith)
            ∙ slice-splice_after buf 8 one 32 32 (omega arith),
      )
      refl

-- The outbox passes its check as before.
pub deliver-outbox_check :
    (b : Batch) (fc buf : List ℕ) (ms : List Match)
    → Ensures (deliver b (some fc) (some buf) ms) λ (after, volume).
      OnBytes (λ new. outbox_check new b.market ≡ outbox_check buf b.market) after.fo_data
unfolding deliver
deliver-outbox_check b fc buf ms = Ensures-skip (check_outbox b (some buf)) _ _ λ fo_cap.
    Ensures-skip (require_covered b fc (some buf) fo_cap) _ _ λ w.
      Ensures-skip (map_err (λ e. fill_ring_corrupt) (buffer_check fc b.market)) _ _ λ ring_cap.
        Ensures->>= (push_fills b ring_cap fo_cap (record { fc_data = fc; fo_data = some buf }) ms)
          _ _ _ (push_fills-IsKept b ring_cap fo_cap ms fc (some buf) buf (IsKept-refl 64 buf))
          λ after k. cursors after.fc_data after.fo_data k
  where
    cursors :
        (data_after : List ℕ) (fo : Option (List ℕ))
        → OnBytes (IsKept 64 buf) fo
        → OnBytes
            (λ new. outbox_check new b.market ≡ outbox_check buf b.market)
            (set_cursors data_after fo)
    cursors data_after none k = k
    cursors data_after (some new) k =
        outbox_check-set_cursors new b.market (buffer_next_index data_after)
          (buffer_settle_index data_after)
        ∙ outbox_check-IsKept buf new b.market k
