-- ===== src/Ring.antt =====
-- The fill-commitment ring: programs/clober/src/matcher/fill_commitment.rs. The matcher pushes a
-- commitment for each fill, and settlement may only consume the oldest one that is pending.
pub mod Fifo
pub mod Queue
pub mod History
pub mod Preimage
pub mod Authentic
pub mod Buffer
pub mod Inflight
mod Tests
use flash_book.Common.{
  ℕ, ◌+◌, ◌-◌, ◌%◌, ◌<◌, Bool, true, false, not, List, [], ◌∷◌, ltb, leb, ◌==◌, if◌then◌else◌,
  Result, ok, err, ok_or, ◌>>=◌, u64, checked_add, checked_sub, length, get_or, set, replicate,
}
use flash_book.Common.Bytes.{bytes_eq}

-- A keccak digest; the ring only compares it.
abbrev pub FillCommit : Type 0
FillCommit = List ℕ

pub data FillRingError : Type 0 where
  full empty corrupt not_committed : FillRingError

-- The cleared slot, `[0u8; 32]`.
abbrev pub zero_commit : FillCommit
zero_commit = replicate 32 0

unfoldable pub ring_depth : ℕ → ℕ → Result FillRingError ℕ
ring_depth produced settled = ok_or (checked_sub produced settled) corrupt

-- The new produced cursor and slots. An error reverts the transaction, so that the slot written
-- before a failing increment does not stay.
unfoldable pub ring_push :
    ℕ → ℕ → List FillCommit → FillCommit → Result FillRingError (ℕ × List FillCommit)
unfolding ring_depth
ring_push produced settled slots commit = if length slots == 0 then err corrupt else (do
  depth ← ring_depth produced settled
  next ← if leb (length slots) depth then err full else ok_or (checked_add u64 produced 1) corrupt
  ok (next, set slots (produced % length slots) commit))

-- The new settled cursor and slots. The index is in range, so the default of the read is not used.
unfoldable pub ring_settle :
    ℕ → ℕ → List FillCommit → FillCommit → Result FillRingError (ℕ × List FillCommit)
unfolding ring_depth
ring_settle produced settled slots recomputed = if length slots == 0 then err corrupt else (do
  depth ← ring_depth produced settled
  next ←
      if depth == 0
      then err empty
      else if not (bytes_eq (get_or slots (settled % length slots) zero_commit) recomputed)
      then err not_committed
      else ok_or (checked_add u64 settled 1) corrupt
  ok (next, set slots (settled % length slots) zero_commit))

-- The settlement nonce: the next value or nothing.
unfoldable pub advance_settlement_seq : ℕ → ℕ → Result (Unit {0}) ℕ
advance_settlement_seq current fill_seq = do
  next ← ok_or (checked_add u64 current 1) tt
  if fill_seq == next then ok next else err tt
