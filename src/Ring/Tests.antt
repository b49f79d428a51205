-- ===== src/Ring/Tests.antt =====
-- Runs of the fill-commitment ring, with the theorems on it at concrete rings.
use flash_book.Common.{◌≡◌, refl, ◌++◌, List, [], ◌∷◌, arith, err}
use flash_book.Ring.{FillCommit, not_committed, full, ring_push, ring_settle, zero_commit}
use flash_book.Ring.Fifo.{Ring, IsValid, pending}
use flash_book.Ring.History.{Op, produce, consume, run, consumed-prefix}

abbrev first : FillCommit
first = 7 ∷ 1 ∷ []

abbrev second : FillCommit
second = 7 ∷ 2 ∷ []

-- Two slots, one of them pending, with the cursors about to wrap.
abbrev half_full : Ring
half_full = record { produced = 3; settled = 2; slots = first ∷ zero_commit ∷ [] }

half_full-IsValid : IsValid half_full
half_full-IsValid = record {
  open_slots = omega arith;
  ordered = omega arith;
  bounded = omega arith;
}

abbrev busy : List Op
busy = produce second ∷ produce first ∷ consume second ∷ consume first ∷ consume second ∷ []

consumed-prefix_example :
    (pending half_full ++ (run half_full busy).pushed
      ≡ (run half_full busy).consumed ++ pending (run half_full busy).ring)
    × IsValid (run half_full busy).ring
consumed-prefix_example = consumed-prefix half_full busy half_full-IsValid (omega arith)

-- The second push finds the ring full, and the first settlement presents what is not committed.
busy-consumed : (run half_full busy).consumed ≡ first ∷ second ∷ []
unfolding run ring_push ring_settle
busy-consumed = refl

forged : ring_settle 3 2 half_full.slots second ≡ err not_committed
unfolding ring_settle
forged = refl

overfull : ring_push 4 2 half_full.slots second ≡ err full
unfolding ring_push
overfull = refl
