-- ===== src/Ring/Buffer/Lifecycle.antt =====
-- Initialising and growing the ring's account, fill_commitment.rs.

use flash_book.Common.{
  ℕ, zero, suc, ◌+◌, ◌≤◌, ◌<◌, ◌≡◌, ◌≢◌, refl, sym, ap, ◌∙◌, List, [], ◌∷◌, arith, ok, u32, length,
  replicate, length-replicate, ltb-false, ==_true, ==_false, Returns,
}
use flash_book.Common.Bytes.{
  slice, splice, length-splice, slice-splice_before, slice-splice_after, bytes_eq_self, to_le_bytes,
  from_le_bytes, length-to_le_bytes,
}
use flash_book.Common.Fields.{
  write_fields, InOrder, length-write_fields, write_fields-read, slice-write_fields_before, rd_u64,
  rd_u32, rd_u32-field,
}
use flash_book.Ring.Fifo.{IsValid, pending, window}
use flash_book.Ring.Buffer.{
  fill_commit_disc, fill_commit_account_len, header_fields, buffer_init, buffer_check,
  buffer_set_cap, slot_view,
}
use flash_book.Ring.Buffer.View.{ring_of, length-slot_view}

-- An account with the tag, a capacity and the market passes its check.
check-of_fields :
    (buf market : List ℕ) (capacity : ℕ)
    → capacity ≢ 0
    → length buf ≡ fill_commit_account_len capacity
    → slice buf 0 8 ≡ fill_commit_disc
    → rd_u32 buf 24 ≡ capacity
    → slice buf 32 32 ≡ market
    → buffer_check buf market ≡ ok capacity
unfolding buffer_check
check-of_fields buf market capacity nz e d c m =
    rw
      (
        c,
        ltb-false (length buf) 64 (omega (arith, e)),
        d,
        ==_false capacity 0 nz,
        ==_true (length buf) (fill_commit_account_len capacity) e,
        m,
        bytes_eq_self market,
      )
      refl

drained-IsValid :
    (capacity : ℕ) (buf : List ℕ)
    → capacity ≢ 0
    → rd_u64 buf 8 ≡ rd_u64 buf 16
    → IsValid (ring_of capacity buf) × (pending (ring_of capacity buf) ≡ [])
drained-IsValid capacity buf nz e = (
  record {
    open_slots = omega (arith, length-slot_view buf capacity);
    ordered = omega (arith, e);
    bounded = omega (arith, e);
  },
  ap (window (slot_view buf capacity) (length (slot_view buf capacity)) (rd_u64 buf 16)) {y = 0}
      (omega (arith, e)),
)

pub from_le-zeros : (k off n : ℕ) → from_le_bytes (slice (replicate n 0) off k) ≡ 0
from_le-zeros zero off n = refl
from_le-zeros (suc k) zero zero = refl
from_le-zeros (suc k) (suc off) zero = refl
from_le-zeros (suc k) zero (suc n) = omega (arith, from_le-zeros k zero n)
from_le-zeros (suc k) (suc off) (suc n) = from_le-zeros (suc k) off n

header_fields-InOrder :
    (market : List ℕ) (capacity bump : ℕ)
    → length market ≡ 32
    → InOrder 0 64 (header_fields market capacity bump)
header_fields-InOrder market capacity bump h = ground arith

-- Both cursors lie between the tag and the capacity.
cursor-init :
    (n : ℕ) (market : List ℕ) (capacity bump off : ℕ)
    → length market ≡ 32
    → 8 ≤ off
    → off + 8 ≤ 24
    → rd_u64 (write_fields (replicate n 0) (header_fields market capacity bump)) off ≡ 0
cursor-init n market capacity bump off h lo hi =
    ap from_le_bytes (
      slice-write_fields_before (splice (replicate n 0) 0 fill_commit_disc) 24 64
        ((24, to_le_bytes 4 capacity) ∷ (28, bump ∷ []) ∷ (32, market) ∷ []) off 8
        (ground (arith, length-to_le_bytes 4 capacity)) hi
      ∙ slice-splice_after (replicate n 0) 0 fill_commit_disc off 8 lo)
    ∙ from_le-zeros 8 off n

-- Whatever bytes an account of the length of its capacity holds, which is not zero and a u32, it is
-- initialised to one that passes the check for its market and decodes to an empty valid ring.
pub init-IsValid :
    (buf market : List ℕ) (capacity bump : ℕ)
    → length market ≡ 32
    → capacity ≢ 0
    → capacity < u32
    → length buf ≡ fill_commit_account_len capacity
    → Returns (buffer_init buf market capacity bump) λ after.
      (buffer_check after market ≡ ok capacity)
      × IsValid (ring_of capacity after)
      × (pending (ring_of capacity after) ≡ [])
unfolding buffer_init
init-IsValid buf market capacity bump l nz fits e =
    rw (==_false capacity 0 nz, ==_true (length buf) (fill_commit_account_len capacity) e)
      (let after = write_fields (replicate (length buf) 0) (header_fields market capacity bump) in
        let (r0, (r1, (r2, (r3, r4)))) =
          write_fields-read (replicate (length buf) 0) 0 64 (header_fields market capacity bump)
            (header_fields-InOrder market capacity bump l)
            (omega (arith, length-replicate {A = ℕ} (length buf) 0)) in
        let drained = drained-IsValid capacity after nz (
          cursor-init (length buf) market capacity bump 8 l (omega arith) (omega arith)
          ∙ sym (cursor-init (length buf) market capacity bump 16 l (omega arith) (omega arith))) in
        (
          check-of_fields after market capacity nz
              (length-write_fields (replicate (length buf) 0) (header_fields market capacity bump)
                ∙ length-replicate {A = ℕ} (length buf) 0
                ∙ e)
              (r0 8 refl) (rd_u32-field after 24 capacity r1 fits) (r3 32 l),
          drained.0,
          drained.1,
        ))

-- An account that was resized for a new capacity, with its tag and market in place and its cursors
-- equal, passes the check with that capacity once it is set, and decodes to an empty valid ring
-- with the same cursors.
pub set_cap-IsValid :
    (buf market : List ℕ) (new_cap : ℕ)
    → new_cap ≢ 0
    → new_cap < u32
    → length buf ≡ fill_commit_account_len new_cap
    → slice buf 0 8 ≡ fill_commit_disc
    → slice buf 32 32 ≡ market
    → rd_u64 buf 8 ≡ rd_u64 buf 16
    → let after = buffer_set_cap buf new_cap in
      (buffer_check after market ≡ ok new_cap)
      × IsValid (ring_of new_cap after)
      × (pending (ring_of new_cap after) ≡ [])
      × (rd_u64 after 8 ≡ rd_u64 buf 8)
unfolding buffer_set_cap
set_cap-IsValid buf market new_cap nz fits e d m drained =
    let after = splice buf 24 (to_le_bytes 4 new_cap) in
    let keep : (off : ℕ) → off + 8 ≤ 24 → rd_u64 after off ≡ rd_u64 buf off =
      λ off h. ap from_le_bytes (slice-splice_before buf 24 (to_le_bytes 4 new_cap) off 8 h) in
    let valid =
      drained-IsValid new_cap after nz
        (keep 8 (omega arith) ∙ drained ∙ sym (keep 16 (omega arith))) in
    (
      check-of_fields after market new_cap nz (length-splice buf 24 (to_le_bytes 4 new_cap) ∙ e)
          (slice-splice_before buf 24 (to_le_bytes 4 new_cap) 0 8 (omega arith) ∙ d)
          (rd_u32-field after 24 new_cap
            (write_fields-read buf 24 28 ((24, to_le_bytes 4 new_cap) ∷ [])
              (omega arith, omega arith) (omega (arith, e))).0
            fits)
          (slice-splice_after buf 24 (to_le_bytes 4 new_cap) 32 32 (omega arith) ∙ m),
      valid.0,
      valid.1,
      keep 8 (omega arith),
    )
