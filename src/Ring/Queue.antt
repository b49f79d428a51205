-- ===== src/Ring/Queue.antt =====
-- The abstract view of the fill-commitment ring: a bounded queue of commitments, and the proof that
-- any sequence of pushes and settlements returns what the queue returns.
use flash_book.Common.{
  ℕ, zero, suc, ◌+◌, ◌-◌, ◌%◌, ◌<◌, ◌≡◌, refl, ap, List, [], ◌∷◌, ◌++◌, arith, leb, if◌then◌else◌,
  Result, ok, err, u64, length, get_or, length-set, map_ok, Ensures,
}
use flash_book.Common.Bytes.{bytes_eq}
use flash_book.Ring.{
  FillCommit, FillRingError, full, empty, not_committed, zero_commit, ring_push, ring_settle,
}
use flash_book.Ring.Fifo.{
  Ring, IsValid, window, length-window, window-set_behind, window-set_end, pending, push, settle,
}

-- The queue that the ring stands for. A push past its size and a settlement of anything but the
-- oldest commitment are refused.
abbrev pub enqueue : ℕ → List FillCommit → FillCommit → Result FillRingError (List FillCommit)
enqueue size q c = if leb size (length q) then err full else ok (q ++ c ∷ [])

abbrev pub dequeue : List FillCommit → FillCommit → Result FillRingError (List FillCommit)
dequeue [] c = err empty
dequeue (x ∷ q) c = if bytes_eq x c then ok q else err not_committed

window_of_pos :
    (slots : List FillCommit) (size i n : ℕ)
    → 0 < n
    → window slots size i n
      ≡ get_or slots (i % size) zero_commit ∷ window slots size (i + 1) (n - 1)
window_of_pos slots size i zero h = absurd (omega arith)
window_of_pos slots size i (suc n) h =
    ap (λ k. get_or slots (i % size) zero_commit ∷ window slots size (i + 1) k) (omega arith)

-- On a valid ring with room in its produced cursor, a push returns what a bounded queue of the
-- pending commitments returns: the queue with the commitment at its end, or the error that it is
-- full. The ring stays valid, so that no pending commitment is overwritten.
pub push_refines :
    (r : Ring) (c : FillCommit)
    → IsValid r
    → r.produced + 1 < u64
    → (map_ok pending (push r c) ≡ enqueue (length r.slots) (pending r) c)
      × Ensures (push r c) IsValid
unfolding ring_push
push_refines r c v fits = ground (
  arith,
  length-window r.slots (length r.slots) r.settled (r.produced - r.settled),
  length-set r.slots (r.produced % length r.slots) c,
  window-set_end r.slots (length r.slots) r.settled (r.produced - r.settled) c refl,
  cursor,
  next,
)
  where
    cursor : r.settled + (r.produced - r.settled) ≡ r.produced
    cursor = omega arith

    next : r.produced + 1 - r.settled ≡ suc (r.produced - r.settled)
    next = omega arith

-- On a valid ring whose produced cursor is a u64, a settlement returns what the queue returns:
-- the rest of the queue where the oldest commitment is presented, or the error that the queue is
-- empty or that the commitment is not the oldest. The ring stays valid.
pub settle_refines :
    (r : Ring) (c : FillCommit)
    → IsValid r
    → r.produced < u64
    → (map_ok pending (settle r c) ≡ dequeue (pending r) c) × Ensures (settle r c) IsValid
unfolding ring_settle
settle_refines r c v fits = ground (
  arith,
  window_of_pos r.slots (length r.slots) r.settled (r.produced - r.settled),
  length-set r.slots (r.settled % length r.slots) zero_commit,
  window-set_behind r.slots (length r.slots) r.settled (r.produced - r.settled - 1) 1 zero_commit,
  rest,
)
  where
    rest : r.produced - (r.settled + 1) ≡ r.produced - r.settled - 1
    rest = omega arith
