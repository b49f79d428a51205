-- ===== src/Outbox/Pending.antt =====
-- The slots of the outbox, fill_outbox.rs, under a ring that is not full.
use mathlib.Core.Path.{subst}
use native.Mathlib.Nat.{mod-lt}
use flash_book.Common.{
  ℕ, ◌+◌, ◌*◌, ◌-◌, ◌%◌, ◌≤◌, ◌<◌, ◌≡◌, ◌≢◌, refl, List, arith, ok, length, Returns, Returns-map,
}
use flash_book.Common.Bytes.{slice}
use flash_book.Ring.Fifo.{mod-ne}
use flash_book.Outbox.{OutboxSlot, slot_base, outbox_write_slot, outbox_read_slot}
use flash_book.Outbox.Slots.{IsTyped, Misses, read-write_slot}

slots-Misses : (i j : ℕ) → i ≢ j → Misses i (slot_base j) 96
slots-Misses i j h = ground arith

-- Reading a slot depends only on the account's length and on the slot's bytes.
pub read_slot-congr :
    (a b : List ℕ) (capacity i : ℕ)
    → length a ≡ length b
    → slice a (slot_base i) 96 ≡ slice b (slot_base i) 96
    → outbox_read_slot a capacity i ≡ outbox_read_slot b capacity i
unfolding outbox_read_slot
read_slot-congr a b capacity i l e = rw (l, e) refl

-- A fill that waits for settlement is not overwritten: where the ring of `ring_cap` slots is not
-- full, and the outbox has as many slots, a fill written at the produced cursor reads back, and the
-- slot of an index from the settled to the produced cursor reads as before.
pub pending-kept :
    (buf : List ℕ) (capacity ring_cap produced settled i : ℕ) (fill : OutboxSlot)
    → IsTyped fill
    → 64 + capacity * 96 ≤ length buf
    → ring_cap ≤ capacity
    → produced < settled + ring_cap
    → settled ≤ i
    → i < produced
    → Returns (outbox_write_slot buf capacity (produced % capacity) fill) λ written.
      (outbox_read_slot written capacity (produced % capacity) ≡ ok fill)
      × (outbox_read_slot written capacity (i % capacity)
          ≡ outbox_read_slot buf capacity (i % capacity))
pending-kept buf capacity ring_cap produced settled i fill t room covers depth old new =
    Returns-map (outbox_write_slot buf capacity (produced % capacity) fill)
      (read-write_slot buf capacity (produced % capacity) fill t inside (omega (arith, inside)))
      λ written (l, self, others). (
        self,
        read_slot-congr written buf capacity (i % capacity) l (
            others (slot_base (i % capacity)) 96
              (slots-Misses (produced % capacity) (i % capacity) apart)),
      )
  where
    inside : produced % capacity < capacity
    inside = mod-lt produced (omega arith)

    apart : produced % capacity ≢ i % capacity
    apart =
        subst (λ p. p % capacity ≢ i % capacity) {x = i + (produced - i)} (omega arith)
          (mod-ne i (produced - i) capacity (omega arith) (omega arith))
