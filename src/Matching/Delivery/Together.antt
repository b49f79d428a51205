-- ===== src/Matching/Delivery/Together.antt =====
-- The block of `place_taker_order`, programs/clober/src/lib.rs, that records the fills, with its own
-- checks of the accounts.
use flash_book.Common.{
  ℕ, ◌+◌, ◌*◌, ◌%◌, ◌≤◌, ◌<◌, ◌≡◌, ◌≢◌, ◌∙◌, ◌||◌, List, [], ◌∷◌, Option, none, some, arith, ok,
  require, leb, length, Ensures, Ensures->>=, Ensures-skip, Bool-cases, inl, inr,
}
use flash_book.Common.Bytes.{length-splice, slice-splice_after, to_le_bytes}
use flash_book.Common.Fields.{wr_u64}
use flash_book.Errors.{fill_outbox_required}
use flash_book.Ring.Fifo.{IsValid}
use flash_book.Ring.Buffer.{buffer_check, buffer_next_index, buffer_settle_index}
use flash_book.Ring.Buffer.View.{ring_of}
use flash_book.Outbox.{outbox_check, outbox_set_cursors, outbox_read_slot, slot_base}
use flash_book.Outbox.Pending.{read_slot-congr}
use flash_book.Matching.{Match}
use flash_book.Matching.Delivery.{
  Batch, push_fills, check_outbox, require_covered, set_cursors, is_some, deliver,
}
use flash_book.Matching.Delivery.Commits.{IsStored, commitments, push_fills-IsStored}
use flash_book.Matching.Delivery.Mirror.{AreHeld, IsMirrored, AreTyped, push_fills-IsMirrored}

outbox_len :
    (buf market : List ℕ) (fo_cap : ℕ)
    → outbox_check buf market ≡ ok fo_cap
    → 64 + fo_cap * 96 ≤ length buf
unfolding outbox_check
outbox_len buf market fo_cap h = ground arith

outbox_open : (buf market : List ℕ) (fo_cap : ℕ) → outbox_check buf market ≡ ok fo_cap → fo_cap ≢ 0
unfolding outbox_check
outbox_open buf market fo_cap h = ground arith

pub outbox_room :
    (buf market : List ℕ) (fo_cap : ℕ)
    → outbox_check buf market ≡ ok fo_cap
    → (0 < fo_cap) × (64 + fo_cap * 96 ≤ length buf)
outbox_room buf market fo_cap h =
    (omega (arith, outbox_open buf market fo_cap h), outbox_len buf market fo_cap h)

-- The cursors stand in the header, in front of the slots.
set_cursors-read :
    (buf : List ℕ) (produced settled fo_cap i : ℕ)
    → outbox_read_slot (outbox_set_cursors buf produced settled) fo_cap i
      ≡ outbox_read_slot buf fo_cap i
unfolding outbox_set_cursors
set_cursors-read buf produced settled fo_cap i =
    read_slot-congr (wr_u64 (wr_u64 buf 8 produced) 16 settled) buf fo_cap i
      (length-splice (wr_u64 buf 8 produced) 16 (to_le_bytes 8 settled)
        ∙ length-splice buf 8 (to_le_bytes 8 produced))
      (slice-splice_after (wr_u64 buf 8 produced) 16 (to_le_bytes 8 settled) (slot_base i) 96
          (omega arith)
        ∙ slice-splice_after buf 8 (to_le_bytes 8 produced) (slot_base i) 96 (omega arith))

AreHeld-set_cursors :
    (b : Batch) (fo_cap i produced settled : ℕ) (buf : List ℕ) (ms : List Match)
    → AreHeld b fo_cap buf i ms
    → AreHeld b fo_cap (outbox_set_cursors buf produced settled) i ms
AreHeld-set_cursors b fo_cap i produced settled buf [] h = tt
AreHeld-set_cursors b fo_cap i produced settled buf (m ∷ ms) h = (
  set_cursors-read buf produced settled fo_cap (i % fo_cap) ∙ h.0,
  AreHeld-set_cursors b fo_cap (i + 1) produced settled buf ms h.1,
)

IsMirrored-set_cursors :
    (b : Batch) (fo_cap from to : ℕ) (ms : List Match) (old fc : List ℕ) (fo : Option (List ℕ))
    → IsMirrored b fo_cap from to ms old fo
    → IsMirrored b fo_cap from to ms old (set_cursors fc fo)
unfolding outbox_set_cursors
IsMirrored-set_cursors b fo_cap from to ms old fc none h = h
IsMirrored-set_cursors b fo_cap from to ms old fc (some buf) (f, held) = (
  record {
    same_len =
        length-splice (wr_u64 buf 8 (buffer_next_index fc)) 16
          (to_le_bytes 8 (buffer_settle_index fc))
        ∙ length-splice buf 8 (to_le_bytes 8 (buffer_next_index fc))
        ∙ f.same_len;
    kept = λ i h.
        set_cursors-read buf (buffer_next_index fc) (buffer_settle_index fc) fo_cap (i % fo_cap)
        ∙ f.kept i h;
  },
  AreHeld-set_cursors b fo_cap to (buffer_next_index fc) (buffer_settle_index fc) buf ms held,
)

-- On a ring's account that passes its check for the market and whose ring is valid, with a hash
-- of 32 bytes and with or without an outbox: when the fills of an order are recorded, the
-- commitments that wait for settlement are those that waited before, and behind them those to
-- the fills, in the order of the matches and each at the next index; the account passes its
-- check, the ring is valid, and its cursor has moved by the number of fills.
pub deliver-IsStored :
    (b : Batch) (capacity : ℕ) (fc : List ℕ) (fo : Option (List ℕ)) (ms : List Match)
    → ((bytes : List ℕ) → length (b.hash bytes) ≡ 32)
    → buffer_check fc b.market ≡ ok capacity
    → IsValid (ring_of capacity fc)
    → Ensures (deliver b (some fc) fo ms) λ (after, volume).
      IsStored b capacity (ring_of capacity fc) (commitments b (buffer_next_index fc) ms) after
unfolding deliver
deliver-IsStored b capacity fc fo ms digest checked v = rw checked (
    Ensures-skip (require (is_some fo || leb b.walk_limit 96) fill_outbox_required) _ _ λ u.
      Ensures-skip (check_outbox b fo) _ _ λ fo_cap.
        Ensures-skip (require_covered b fc fo fo_cap) _ _ λ w.
          Ensures->>= (push_fills b capacity fo_cap (record { fc_data = fc; fo_data = fo }) ms) _ _
            _
            (push_fills-IsStored b capacity digest fo_cap (record { fc_data = fc; fo_data = fo }) ms
              checked v)
            λ after s. record { checked = s.checked; pushed = s.pushed })

-- The step that demands an outbox as large as the ring.
covered :
    (b : Batch) (capacity fo_cap : ℕ) (fc buf : List ℕ)
    → buffer_check fc b.market ≡ ok capacity
    → Ensures (require_covered b fc (some buf) fo_cap) λ u. capacity ≤ fo_cap
unfolding require_covered
covered b capacity fo_cap fc buf checked = rw checked (elim (Bool-cases (leb capacity fo_cap)) [
  | inl fits ↦ rw fits (ground arith)
  | inr over ↦ rw over tt
])

-- On accounts that pass their checks for the market, where the ring is valid, with a hash of 32
-- bytes and fields in the ranges of their types: when the fills of an order are recorded, the
-- outbox's slot of each fill's index reads as that fill, and the slot of every index that waited
-- for settlement before reads as it did.
pub deliver-IsMirrored :
    (b : Batch) (capacity fo_cap : ℕ) (fc buf : List ℕ) (ms : List Match)
    → ((bytes : List ℕ) → length (b.hash bytes) ≡ 32)
    → buffer_check fc b.market ≡ ok capacity
    → outbox_check buf b.market ≡ ok fo_cap
    → IsValid (ring_of capacity fc)
    → AreTyped b ms
    → Ensures (deliver b (some fc) (some buf) ms) λ (after, volume).
      IsMirrored b fo_cap
        (ring_of capacity fc).settled
        (ring_of capacity fc).produced
        ms
        buf
        after.fo_data
unfolding deliver check_outbox
deliver-IsMirrored b capacity fo_cap fc buf ms digest checked outbox v t =
    rw (outbox, checked)
      (Ensures->>= (require_covered b fc (some buf) fo_cap) _ _ _
        (covered b capacity fo_cap fc buf checked)
        λ u fits.
          Ensures->>=
            (push_fills b capacity fo_cap (record { fc_data = fc; fo_data = some buf }) ms) _ _ _
            (push_fills-IsMirrored b capacity fo_cap digest fits ms fc buf checked v t
              (outbox_room buf b.market fo_cap outbox).1)
            λ after h.
              IsMirrored-set_cursors b fo_cap (ring_of capacity fc).settled
                (ring_of capacity fc).produced ms buf after.fc_data after.fo_data h)
