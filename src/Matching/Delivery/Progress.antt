-- ===== src/Matching/Delivery/Progress.antt =====
-- When the fills of a taker order, programs/clober/src/lib.rs, are all recorded.
use native.Mathlib.Nat.{mod-lt}
use flash_book.Common.{
  ℕ, ◌+◌, ◌-◌, ◌*◌, ◌%◌, ◌≤◌, ◌<◌, ◌≡◌, refl, sym, ap, ◌∙◌, Bool, true, false, ◌||◌, List, [], ◌∷◌,
  Option, none, some, arith, Result, ok, err, map_err, map_ok, is_ok, require, leb, leb-true,
  leb-false, u64, length, Returns, Returns->>=, Returns-both, Returns-under,
}
use flash_book.Common.Bytes.{length-splice}
use flash_book.Errors.{CloberError, fill_outbox_required}
use flash_book.Ring.{FillCommit}
use flash_book.Ring.Fifo.{Ring, IsValid, pending, push, length-window}
use flash_book.Ring.Queue.{push_refines}
use flash_book.Ring.Buffer.{buffer_check, buffer_next_index, buffer_push}
use flash_book.Ring.Buffer.View.{ring_of, length-slot_view}
use flash_book.Ring.Buffer.Refine.{buffer_push-refines}
use flash_book.Outbox.{outbox_check, outbox_write_slot, slot_base, filled}
use flash_book.Matching.{Match}
use flash_book.Matching.Delivery.{
  Batch, Accounts, slot_of_match, commitment, push_error, reserve, write_outbox, push_fill,
  push_fills, check_outbox, require_covered, is_some, deliver,
}
use flash_book.Matching.Delivery.Together.{outbox_room}
use flash_book.Matching.Delivery.Commits.{
  IsStored, commitments, push_fill-IsStored, push_fills-IsStored,
}

-- No match is of a reduce-only order.
abbrev pub NoReductions : List Match → Type 0
NoReductions [] = Unit
NoReductions (m ∷ ms) = (m.reduce_only ≡ false) × NoReductions ms

-- An outbox, where there is one, has its slots.
abbrev pub HasSlots : ℕ → Option (List ℕ) → Type 0
HasSlots fo_cap none = Unit
HasSlots fo_cap (some buf) = (0 < fo_cap) × (64 + fo_cap * 96 ≤ length buf)

is_ok_map : {E A B : Type 0} (f : A → B) (r : Result E A) → is_ok (map_ok f r) ≡ is_ok r
is_ok_map f (ok a) = refl
is_ok_map f (err e) = refl

push-is_ok :
    (r : Ring) (c : FillCommit)
    → IsValid r
    → r.produced + 1 < u64
    → r.produced < r.settled + length r.slots
    → is_ok (push r c) ≡ true
push-is_ok r c v fits room =
    sym (is_ok_map pending (push r c))
    ∙ ap is_ok (push_refines r c v fits).0
    ∙ rw
        (leb-false (length r.slots) (length (pending r)) (
          omega (
            arith,
            v.ordered,
            room,
            length-window r.slots (length r.slots) r.settled (r.produced - r.settled),
          )))
        refl

write_outbox-Returns :
    (b : Batch) (fo_cap idx : ℕ) (fo : Option (List ℕ)) (m : Match)
    → HasSlots fo_cap fo
    → Returns (write_outbox b fo_cap idx fo m) (HasSlots fo_cap)
unfolding write_outbox outbox_write_slot
write_outbox-Returns b fo_cap idx none m h = tt
write_outbox-Returns b fo_cap idx (some buf) m h = ground (
  arith,
  mod-lt idx {m = fo_cap} h.0,
  length-splice buf (slot_base (idx % fo_cap)) (filled buf (idx % fo_cap) (slot_of_match b m)),
)

module _ (b : Batch) (capacity fo_cap : ℕ)
    (digest : (bytes : List ℕ) → length (b.hash bytes) ≡ 32) where
  push_fill-Returns :
      (a : Accounts) (m : Match)
      → buffer_check a.fc_data b.market ≡ ok capacity
      → IsValid (ring_of capacity a.fc_data)
      → (ring_of capacity a.fc_data).produced + 1 < u64
      → (ring_of capacity a.fc_data).produced < (ring_of capacity a.fc_data).settled + capacity
      → HasSlots fo_cap a.fo_data
      → m.reduce_only ≡ false
      → Returns (push_fill b capacity fo_cap a m) λ next. HasSlots fo_cap next.fo_data
  unfolding push_fill
  push_fill-Returns a m checked v fits room slots free =
      let idx = buffer_next_index a.fc_data in
      let c = commitment b idx m in
      Returns->>= (map_err push_error (buffer_push a.fc_data b.market c)) _ (λ p. Unit) _
        (Returns-under push_error (ring_of capacity) (buffer_push a.fc_data b.market c)
          (push (ring_of capacity a.fc_data) c)
          (buffer_push-refines a.fc_data b.market capacity c checked (digest _)).0
          (push-is_ok (ring_of capacity a.fc_data) c v fits
            (omega (arith, room, length-slot_view a.fc_data capacity))))
        λ p u.
          Returns->>= (elim m.reduce_only [ true ↦ reserve b capacity idx p m | false ↦ ok p ]) _
            (λ q. Unit) _ (unreserved (reserve b capacity idx p m) p m.reduce_only free)
            λ q w.
              Returns->>= (write_outbox b fo_cap idx a.fo_data m) _ (HasSlots fo_cap) _
                (write_outbox-Returns b fo_cap idx a.fo_data m slots) λ written h. h
    where
      unreserved :
          (r : Result CloberError (List ℕ)) (p : List ℕ) (only : Bool)
          → only ≡ false
          → Returns
              (elim only as (λ x. Result CloberError (List ℕ)) [ true ↦ r | false ↦ ok p ])
              λ q. Unit
      unreserved r p true e = absurd (ground arith)
      unreserved r p false e = tt

  pub push_fills-Returns :
      (a : Accounts) (ms : List Match)
      → buffer_check a.fc_data b.market ≡ ok capacity
      → IsValid (ring_of capacity a.fc_data)
      → (ring_of capacity a.fc_data).produced + length ms < u64
      → (ring_of capacity a.fc_data).produced + length ms
        ≤ (ring_of capacity a.fc_data).settled + capacity
      → HasSlots fo_cap a.fo_data
      → NoReductions ms
      → Returns (push_fills b capacity fo_cap a ms) λ after. Unit
  unfolding push_fills
  push_fills-Returns a [] checked v fits room slots free = tt
  push_fills-Returns a (m ∷ ms) checked v fits room slots free =
      Returns->>= (push_fill b capacity fo_cap a m) _ _ _
        (Returns-both _ _ (push_fill b capacity fo_cap a m)
          (push_fill-Returns a m checked v (omega arith) (omega arith) slots free.0)
          (push_fill-IsStored b capacity digest fo_cap a m checked v))
        λ next (h, s).
          push_fills-Returns next ms s.checked s.pushed.valid (omega (arith, s.pushed.moved))
            (omega (arith, s.pushed.moved, s.pushed.settled_kept)) h free.1

-- A market without an outbox keeps to matches that fit the log; one with an outbox has a slot for
-- each of the ring's.
abbrev pub IsArmed : Batch → ℕ → ℕ → Option (List ℕ) → Type 0
IsArmed b capacity fo_cap none = (b.walk_limit ≤ 96) × (fo_cap ≡ 0)
IsArmed b capacity fo_cap (some buf) = (outbox_check buf b.market ≡ ok fo_cap) × (capacity ≤ fo_cap)

IsArmed-HasSlots :
    (b : Batch) (capacity fo_cap : ℕ) (fo : Option (List ℕ))
    → IsArmed b capacity fo_cap fo
    → HasSlots fo_cap fo
IsArmed-HasSlots b capacity fo_cap none h = tt
IsArmed-HasSlots b capacity fo_cap (some buf) (h, k) = outbox_room buf b.market fo_cap h

IsArmed-Returns :
    (b : Batch) (capacity fo_cap : ℕ) (fc : List ℕ) (fo : Option (List ℕ))
    → buffer_check fc b.market ≡ ok capacity
    → IsArmed b capacity fo_cap fo
    → (require (is_some fo || leb b.walk_limit 96) fill_outbox_required ≡ ok tt)
      × (check_outbox b fo ≡ ok fo_cap)
      × (require_covered b fc fo fo_cap ≡ ok tt)
unfolding check_outbox require_covered
IsArmed-Returns b capacity fo_cap fc none checked (h, k) =
    (rw (leb-true b.walk_limit 96 h) refl, rw k refl, refl)
IsArmed-Returns b capacity fo_cap fc (some buf) checked (h, k) =
    (refl, rw h refl, rw (checked, leb-true capacity fo_cap k) refl)

-- On accounts that pass their checks for the market, where the ring is valid and has a slot and
-- an index for each fill, with a hash of 32 bytes: the fills of an order of which none is
-- against a reduce-only order are recorded, with no error, if the market matches at most 96
-- orders at once or has an outbox of at least as many slots as the ring.
pub deliver-Returns :
    (b : Batch) (capacity fo_cap : ℕ) (fc : List ℕ) (fo : Option (List ℕ)) (ms : List Match)
    → ((bytes : List ℕ) → length (b.hash bytes) ≡ 32)
    → buffer_check fc b.market ≡ ok capacity
    → IsArmed b capacity fo_cap fo
    → IsValid (ring_of capacity fc)
    → (ring_of capacity fc).produced + length ms < u64
    → (ring_of capacity fc).produced + length ms ≤ (ring_of capacity fc).settled + capacity
    → NoReductions ms
    → Returns (deliver b (some fc) fo ms) λ (after, volume).
      IsStored b capacity (ring_of capacity fc) (commitments b (buffer_next_index fc) ms) after
unfolding deliver
deliver-Returns b capacity fo_cap fc fo ms digest checked armed v fits room free =
    let a : Accounts = record { fc_data = fc; fo_data = fo } in
    let steps = IsArmed-Returns b capacity fo_cap fc fo checked armed in
    rw (steps.0, steps.1, steps.2, checked)
      (Returns->>= (push_fills b capacity fo_cap a ms) _ _ _
        (Returns-both _ _ (push_fills b capacity fo_cap a ms)
          (push_fills-Returns b capacity fo_cap digest a ms checked v fits room
            (IsArmed-HasSlots b capacity fo_cap fo armed) free)
          (push_fills-IsStored b capacity digest fo_cap a ms checked v))
        λ after (u, s). record { checked = s.checked; pushed = s.pushed })
