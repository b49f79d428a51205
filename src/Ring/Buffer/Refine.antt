-- ===== src/Ring/Buffer/Refine.antt =====
-- The byte functions of the ring's account, fill_commitment.rs, against the ring: the bytes after a
-- push or a settlement decode to what the ring's own function returns.
use flash_book.Common.{
  ℕ, ◌+◌, ◌*◌, ◌%◌, ◌≤◌, ◌<◌, ◌≡◌, refl, ap, ◌∙◌, List, arith, Result, ok, err, ◌>>=◌, u64, length,
  length-set, map_ok, Ensures,
}
use flash_book.Common.Fields.{rd_u64, wr_u64, rd_u64-wr_self, rd_u64-wr_before, rd_u64-wr_after}
use flash_book.Ring.{FillCommit, FillRingError, zero_commit, ring_push, ring_settle}
use flash_book.Ring.Fifo.{Ring, push, settle}
use flash_book.Ring.Buffer.{buffer_check, buffer_push, buffer_settle, slot_view, put_slots}
use flash_book.Ring.Buffer.View.{
  AreSlots, ring_of, slot_view-AreSlots, set-AreSlots, slot_view-put, slot_view-wr, rd_u64-put,
  check-put, check-wr, check-room, length-slot_view, length-put,
}

-- What a ring operation returns: a cursor that is a u64 and slots that fill the region.
Stores : ℕ → ℕ × List FillCommit → Type 0
Stores capacity (cursor, cs) = (cursor < u64) × (length cs ≡ capacity) × AreSlots cs

ring_push-Stores :
    (capacity produced settled : ℕ) (cs : List FillCommit) (c : FillCommit)
    → length cs ≡ capacity
    → length c ≡ 32
    → AreSlots cs
    → Ensures (ring_push produced settled cs c) (Stores capacity)
unfolding ring_push Stores
ring_push-Stores capacity produced settled cs c e l a =
    ground
      (arith, length-set cs (produced % length cs) c, set-AreSlots cs (produced % length cs) c l a)

ring_settle-Stores :
    (capacity produced settled : ℕ) (cs : List FillCommit) (c : FillCommit)
    → length cs ≡ capacity
    → AreSlots cs
    → Ensures (ring_settle produced settled cs c) (Stores capacity)
unfolding ring_settle Stores
ring_settle-Stores capacity produced settled cs c e a = ground (
  arith,
  length-set cs (settled % length cs) zero_commit,
  set-AreSlots cs (settled % length cs) zero_commit refl a,
)

-- The bytes after the slots and the cursor at an offset were written, and the ring that they are.
stored-produced :
    (buf : List ℕ) (capacity produced : ℕ) (cs : List FillCommit)
    → 64 + capacity * 32 ≤ length buf
    → Stores capacity (produced, cs)
    → ring_of capacity (wr_u64 (put_slots buf cs) 8 produced)
      ≡ record (ring_of capacity buf) { produced = produced; slots = cs }
unfolding Stores
stored-produced buf capacity produced cs room (fits, l, a) =
    rw
      (
        slot_view-wr (put_slots buf cs) capacity 8 produced (omega arith),
        slot_view-put buf capacity cs room l a,
        rd_u64-wr_self (put_slots buf cs) 8 produced (omega (arith, length-put buf cs)) fits,
        rd_u64-wr_after (put_slots buf cs) 8 produced 16 (omega arith),
        rd_u64-put buf cs 16 (omega arith),
      )
      refl

stored-settled :
    (buf : List ℕ) (capacity settled : ℕ) (cs : List FillCommit)
    → 64 + capacity * 32 ≤ length buf
    → Stores capacity (settled, cs)
    → ring_of capacity (wr_u64 (put_slots buf cs) 16 settled)
      ≡ record (ring_of capacity buf) { settled = settled; slots = cs }
unfolding Stores
stored-settled buf capacity settled cs room (fits, l, a) =
    rw
      (
        slot_view-wr (put_slots buf cs) capacity 16 settled (omega arith),
        slot_view-put buf capacity cs room l a,
        rd_u64-wr_self (put_slots buf cs) 16 settled (omega (arith, length-put buf cs)) fits,
        rd_u64-wr_before (put_slots buf cs) 16 settled 8 (omega arith),
        rd_u64-put buf cs 8 (omega arith),
      )
      refl

-- What a ring operation returns, stored in the bytes, is its ring, if the store of whatever it may
-- return is.
stored-refines :
    (market : List ℕ) (capacity : ℕ) (store : ℕ → List FillCommit → List ℕ)
    (ring : ℕ → List FillCommit → Ring) (res : Result FillRingError (ℕ × List FillCommit))
    → Ensures res (Stores capacity)
    → ((cursor : ℕ) (cs : List FillCommit)
        → Stores capacity (cursor, cs)
        → (ring_of capacity (store cursor cs) ≡ ring cursor cs)
          × (buffer_check (store cursor cs) market ≡ ok capacity))
    → (map_ok (ring_of capacity) (res >>= λ (cursor, cs). ok (store cursor cs))
        ≡ (res >>= λ (cursor, cs). ok (ring cursor cs)))
      × Ensures
          (res >>= λ (cursor, cs). ok (store cursor cs))
          λ after. buffer_check after market ≡ ok capacity
stored-refines market capacity store ring (ok (cursor, cs)) s h =
    (ap ok (h cursor cs s).0, (h cursor cs s).1)
stored-refines market capacity store ring (err e) s h = (refl, tt)

-- On an account that passes its check for the market, a push of 32 bytes is the ring's push: an
-- error is the ring's error, and otherwise the bytes decode to the ring after its push, and
-- still pass the check with the same capacity.
pub buffer_push-refines :
    (buf market : List ℕ) (capacity : ℕ) (c : FillCommit)
    → buffer_check buf market ≡ ok capacity
    → length c ≡ 32
    → (map_ok (ring_of capacity) (buffer_push buf market c) ≡ push (ring_of capacity buf) c)
      × Ensures (buffer_push buf market c) λ after. buffer_check after market ≡ ok capacity
unfolding buffer_push
buffer_push-refines buf market capacity c checked l = rw checked (
    stored-refines market capacity (λ cursor cs. wr_u64 (put_slots buf cs) 8 cursor)
      (λ cursor cs. record (ring_of capacity buf) { produced = cursor; slots = cs })
      (ring_push (rd_u64 buf 8) (rd_u64 buf 16) (slot_view buf capacity) c)
      (ring_push-Stores capacity (rd_u64 buf 8) (rd_u64 buf 16) (slot_view buf capacity) c
        (length-slot_view buf capacity) l (slot_view-AreSlots buf capacity room))
      (λ cursor cs s. (
        stored-produced buf capacity cursor cs room s,
        check-wr (put_slots buf cs) market 8 cursor (omega arith) (omega arith)
            ∙ check-put buf market cs
            ∙ checked,
      )))
  where
    room : 64 + capacity * 32 ≤ length buf
    room = (check-room buf market capacity checked).0

-- On an account that passes its check for the market, a settlement is the ring's settlement: an
-- error is the ring's error, and otherwise the bytes decode to the ring after its settlement,
-- and still pass the check with the same capacity.
pub buffer_settle-refines :
    (buf market : List ℕ) (capacity : ℕ) (c : FillCommit)
    → buffer_check buf market ≡ ok capacity
    → (map_ok (ring_of capacity) (buffer_settle buf market c) ≡ settle (ring_of capacity buf) c)
      × Ensures (buffer_settle buf market c) λ after. buffer_check after market ≡ ok capacity
unfolding buffer_settle
buffer_settle-refines buf market capacity c checked = rw checked (
    stored-refines market capacity (λ cursor cs. wr_u64 (put_slots buf cs) 16 cursor)
      (λ cursor cs. record (ring_of capacity buf) { settled = cursor; slots = cs })
      (ring_settle (rd_u64 buf 8) (rd_u64 buf 16) (slot_view buf capacity) c)
      (ring_settle-Stores capacity (rd_u64 buf 8) (rd_u64 buf 16) (slot_view buf capacity) c
        (length-slot_view buf capacity) (slot_view-AreSlots buf capacity room))
      (λ cursor cs s. (
        stored-settled buf capacity cursor cs room s,
        check-wr (put_slots buf cs) market 16 cursor (omega arith) (omega arith)
            ∙ check-put buf market cs
            ∙ checked,
      )))
  where
    room : 64 + capacity * 32 ≤ length buf
    room = (check-room buf market capacity checked).0
