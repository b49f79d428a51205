-- ===== src/Ring/Buffer.antt =====
-- The account of the fill-commitment ring as bytes, `buffer_*` of
-- programs/clober/src/matcher/fill_commitment.rs: a header of 64 bytes, the slots of 32 bytes, a
-- flag byte for each slot, and the map of reductions in flight.
pub mod View
pub mod Refine
pub mod Lifecycle
mod Tests
use flash_book.Common.{
  ℕ, ◌+◌, ◌*◌, ◌%◌, Bool, true, false, not, ◌||◌, List, [], ◌∷◌, ◌++◌, ltb, ◌==◌, if◌then◌else◌,
  Result, ok, err, ◌>>=◌, length, take, drop, replicate, zero, suc, set, get_or,
}
use flash_book.Common.Bytes.{bytes_eq, slice, splice, to_le_bytes}
use flash_book.Common.Fields.{write_fields, rd_u64, rd_u32, wr_u64}
use flash_book.Ring.{FillCommit, FillRingError, corrupt, ring_push, ring_settle}

-- `b"FBfcq\0\1\0"`
abbrev pub fill_commit_disc : List ℕ
fill_commit_disc = b'F' ∷ b'B' ∷ b'f' ∷ b'c' ∷ b'q' ∷ 0 ∷ 1 ∷ 0 ∷ []

abbrev pub fill_inflight_slots : ℕ
fill_inflight_slots = 32

abbrev pub fill_commit_account_len : ℕ → ℕ
fill_commit_account_len capacity = 64 + capacity * 32 + capacity + fill_inflight_slots * 40

-- The stores of `buffer_init` into the zeroed account, in order.
abbrev pub header_fields : List ℕ → ℕ → ℕ → List (ℕ × List ℕ)
header_fields market capacity bump =
    (0, fill_commit_disc) ∷ (24, to_le_bytes 4 capacity) ∷ (28, bump ∷ []) ∷ (32, market) ∷ []

unfoldable pub buffer_init : List ℕ → List ℕ → ℕ → ℕ → Result FillRingError (List ℕ)
buffer_init buf market capacity bump =
    if capacity == 0 || not (length buf == fill_commit_account_len capacity)
    then err corrupt
    else ok (write_fields (replicate (length buf) 0) (header_fields market capacity bump))

unfoldable pub buffer_check : List ℕ → List ℕ → Result FillRingError ℕ
buffer_check buf expected_market =
    let capacity = rd_u32 buf 24 in
    if ltb (length buf) 64 || not (bytes_eq (slice buf 0 8) fill_commit_disc)
    then err corrupt
    else if capacity == 0
        || not (length buf == fill_commit_account_len capacity)
        || not (bytes_eq (slice buf 32 32) expected_market)
    then err corrupt
    else ok capacity

abbrev pub buffer_next_index : List ℕ → ℕ
buffer_next_index buf = rd_u64 buf 8

abbrev pub buffer_settle_index : List ℕ → ℕ
buffer_settle_index buf = rd_u64 buf 16

unfoldable pub buffer_set_cap : List ℕ → ℕ → List ℕ
buffer_set_cap buf new_cap = splice buf 24 (to_le_bytes 4 new_cap)

-- The cast of bytes to slots of 32 bytes, and back.
unfoldable pub chunks : ℕ → List ℕ → List FillCommit
chunks zero bytes = []
chunks (suc n) bytes = take 32 bytes ∷ chunks n (drop 32 bytes)

unfoldable pub join : List FillCommit → List ℕ
join [] = []
join (slot ∷ slots) = slot ++ join slots

unfoldable pub slot_view : List ℕ → ℕ → List FillCommit
slot_view buf capacity = chunks capacity (slice buf 64 (capacity * 32))

-- The bytes after the slots that `slot_view` borrowed were written.
unfoldable pub put_slots : List ℕ → List FillCommit → List ℕ
put_slots buf slots = splice buf 64 (join slots)

unfoldable pub buffer_push : List ℕ → List ℕ → FillCommit → Result FillRingError (List ℕ)
buffer_push buf market commit = do
  capacity ← buffer_check buf market
  (produced, slots) ← ring_push (rd_u64 buf 8) (rd_u64 buf 16) (slot_view buf capacity) commit
  ok (wr_u64 (put_slots buf slots) 8 produced)

unfoldable pub buffer_settle : List ℕ → List ℕ → FillCommit → Result FillRingError (List ℕ)
buffer_settle buf market recomputed = do
  capacity ← buffer_check buf market
  (settled, slots) ← ring_settle (rd_u64 buf 8) (rd_u64 buf 16) (slot_view buf capacity) recomputed
  ok (wr_u64 (put_slots buf slots) 16 settled)
