-- ===== src/Ring/Inflight/Tests.antt =====
-- Runs of the reductions in flight, fill_commitment.rs, with the theorems on them at a concrete map.
use native.Mathlib.Decide.{ℕ_discrete}
use flash_book.Common.{
  ℕ, zero, suc, ◌+◌, ◌-◌, ◌<◌, ◌≡◌, ◌≢◌, refl, ap, List, arith, true, false, length, replicate,
  Ensures, u64, saturating_add,
}
use flash_book.Common.Bytes.{slice, splice}
use flash_book.Common.Fields.{wr_u64}
use flash_book.Ring.Buffer.Lifecycle.{from_le-zeros}
use flash_book.Ring.Inflight.{
  map_off, slot_at, all_zero, inflight_get, inflight_add, inflight_sub, get_from, reduce_flag_set,
  reduce_flag_take,
}
use flash_book.Ring.Inflight.Slots.{key_at, lots_at, WrittenAt, new-WrittenAt}
use flash_book.Ring.Inflight.Laws.{IsOneSlot, IsOneSlot-written, get-add, get-sub}

-- An account of one slot, with an empty map.
abbrev empty_map : List ℕ
empty_map = replicate 1377 0

abbrev position : List ℕ
position = replicate 32 5

zeros : (k off n : ℕ) → all_zero (slice (replicate n 0) off k) ≡ true
zeros zero off n = refl
zeros (suc k) zero zero = refl
zeros (suc k) (suc off) zero = refl
zeros (suc k) zero (suc n) = zeros k zero n
zeros (suc k) (suc off) (suc n) = zeros (suc k) off n

no_key : (i : ℕ) → key_at empty_map (map_off 1) i ≢ position
no_key i e = cc (zeros 32 (slot_at (map_off 1) i) 1377, ap all_zero e)

none_in_flight : inflight_get empty_map 1 position ≡ 0
unfolding inflight_get get_from
none_in_flight = refl

get-add_example : Ensures (inflight_add empty_map 1 position 6) λ new.
    (length new ≡ 1377)
    × (inflight_get new 1 position ≡ saturating_add u64 (inflight_get empty_map 1 position) 6)
    × (IsOneSlot empty_map (map_off 1) position → IsOneSlot new (map_off 1) position)
    × ((q : List ℕ)
        → position ≢ q
        → all_zero q ≡ false
        → (inflight_get new 1 q ≡ inflight_get empty_map 1 q)
          × (IsOneSlot empty_map (map_off 1) q → IsOneSlot new (map_off 1) q))
get-add_example =
    get-add empty_map 1 position 6 (omega arith) refl (omega arith) (omega (arith, none_in_flight))

-- Six lots in flight for the position, in the first slot.
abbrev six : List ℕ
six = wr_u64 (splice empty_map (slot_at (map_off 1) 0) position) (slot_at (map_off 1) 0 + 32) 6

six_written : WrittenAt (map_off 1) 0 position 6 empty_map six
six_written = new-WrittenAt empty_map (map_off 1) 0 position 6 (omega arith) refl (omega arith)

six_lots : (i : ℕ) → i < 32 → lots_at six (map_off 1) i < u64
six_lots i h = elim (ℕ_discrete i 0) [
  | yes e ↦ rw e (omega (arith, six_written.lots_new))
  | no ne ↦
      omega (arith, (six_written.others i ne).1, from_le-zeros 8 (slot_at (map_off 1) i + 32) 1377)
]

get-sub_example :
    let new = inflight_sub six 1 position 4 in
    (length new ≡ 1377)
    × (inflight_get new 1 position ≡ inflight_get six 1 position - 4)
    × IsOneSlot new (map_off 1) position
    × ((q : List ℕ)
        → position ≢ q
        → all_zero q ≡ false
        → (inflight_get new 1 q ≡ inflight_get six 1 q)
          × (IsOneSlot six (map_off 1) q → IsOneSlot new (map_off 1) q))
get-sub_example =
    get-sub six 1 position 4 (omega arith) refl six_lots
      (IsOneSlot-written (map_off 1) 0 position 6 empty_map six six_written (λ i li ne. no_key i))

six_in_flight : inflight_get six 1 position ≡ 6
unfolding inflight_get get_from
six_in_flight = refl

-- A flag is read once.
flag_once : (reduce_flag_take (reduce_flag_set empty_map 1 4) 1 4).0 ≡ true
unfolding reduce_flag_take reduce_flag_set
flag_once = refl
