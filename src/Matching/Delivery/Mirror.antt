-- ===== src/Matching/Delivery/Mirror.antt =====
-- The fills of a taker order, programs/clober/src/lib.rs, in the outbox: every fill that waits for
-- settlement reads back from the slot of its index.
use native.Mathlib.Nat.{mod-lt}
use flash_book.Common.{
  ℕ, ◌+◌, ◌*◌, ◌%◌, ◌≤◌, ◌<◌, ◌≡◌, refl, ◌∙◌, true, false, List, [], ◌∷◌, Option, none, some, arith,
  ok, map_err, length, Ensures, Ensures-map, Ensures->>=, Ensures-skip, Ensures-both,
  Ensures-map_err, Ensures-all, Returns-Ensures,
}
use flash_book.Ring.Fifo.{IsValid}
use flash_book.Ring.Buffer.{buffer_check, buffer_push}
use flash_book.Ring.Buffer.View.{ring_of, length-slot_view}
use flash_book.Errors.{fill_ring_corrupt}
use flash_book.Outbox.{outbox_write_slot, outbox_read_slot}
use flash_book.Outbox.Slots.{IsTyped, read-write_slot}
use flash_book.Outbox.Pending.{pending-kept}
use flash_book.Matching.{Match}
use flash_book.Matching.Delivery.{
  Batch, Accounts, slot_of_match, commitment, push_error, reserve, write_outbox, push_fill,
  push_fills,
}
use flash_book.Matching.Delivery.Commits.{buffer_push-IsPushed, push_fill-IsStored}

-- The slot of a match's index holds the match.
abbrev pub IsHeld : Batch → ℕ → List ℕ → ℕ → Match → Type 0
IsHeld b fo_cap buf i m = outbox_read_slot buf fo_cap (i % fo_cap) ≡ ok (slot_of_match b m)

abbrev pub AreHeld : Batch → ℕ → List ℕ → ℕ → List Match → Type 0
AreHeld b fo_cap buf i [] = Unit
AreHeld b fo_cap buf i (m ∷ ms) = IsHeld b fo_cap buf i m × AreHeld b fo_cap buf (i + 1) ms

-- The outbox after writes: the slots of the indices in a range read as before.
pub record IsMirror (fo_cap from to : ℕ) (old new : List ℕ) : Type 0 where
  pub same_len : length new ≡ length old
  pub kept :
      (i : ℕ)
      → (from ≤ i) × (i < to)
      → outbox_read_slot new fo_cap (i % fo_cap) ≡ outbox_read_slot old fo_cap (i % fo_cap)

abbrev pub OnBytes : (List ℕ → Type 0) → Option (List ℕ) → Type 0
OnBytes P none = ⊥
OnBytes P (some buf) = P buf

write_outbox-IsMirror :
    (b : Batch) (fo_cap capacity produced settled : ℕ) (buf : List ℕ) (m : Match)
    → IsTyped (slot_of_match b m)
    → 64 + fo_cap * 96 ≤ length buf
    → capacity ≤ fo_cap
    → produced < settled + capacity
    → settled ≤ produced
    → Ensures
        (write_outbox b fo_cap produced (some buf) m)
        (OnBytes λ new. IsMirror fo_cap settled produced buf new × IsHeld b fo_cap new produced m)
unfolding write_outbox
write_outbox-IsMirror b fo_cap capacity produced settled buf m t room covers depth order =
    let written = outbox_write_slot buf fo_cap (produced % fo_cap) (slot_of_match b m) in
    Ensures->>= (map_err (λ e. fill_ring_corrupt) written) _ P _
      (Ensures-map_err _ written P (
        Ensures-map written (λ w ((l, held, _), k). (record { same_len = l; kept = k }, held))
          (Ensures-both _ _ written
            (Returns-Ensures written _ (
              read-write_slot buf fo_cap (produced % fo_cap) (slot_of_match b m) t inside
                (omega (arith, inside))))
            (Ensures-all written
              (λ i w.
                outbox_read_slot w fo_cap (i % fo_cap) ≡ outbox_read_slot buf fo_cap (i % fo_cap))
              λ i (lo, hi).
                Ensures-map written (λ w h. h.1)
                  (Returns-Ensures written _ (
                    pending-kept buf fo_cap capacity produced settled i (slot_of_match b m) t room
                      covers depth lo hi))))))
      λ w h. h
  where
    P : List ℕ → Type 0
    P new = IsMirror fo_cap settled produced buf new × IsHeld b fo_cap new produced m

    inside : produced % fo_cap < fo_cap
    inside = mod-lt produced (omega arith)

module _ (b : Batch) (capacity fo_cap : ℕ) (digest : (bytes : List ℕ) → length (b.hash bytes) ≡ 32)
    (covers : capacity ≤ fo_cap) where
  push_fill-IsMirror :
      (fc buf : List ℕ) (m : Match)
      → buffer_check fc b.market ≡ ok capacity
      → IsValid (ring_of capacity fc)
      → IsTyped (slot_of_match b m)
      → 64 + fo_cap * 96 ≤ length buf
      → Ensures
          (push_fill b capacity fo_cap (record { fc_data = fc; fo_data = some buf }) m)
          λ next.
            OnBytes
              (λ new.
                IsMirror fo_cap (ring_of capacity fc).settled (ring_of capacity fc).produced buf new
                × IsHeld b fo_cap new (ring_of capacity fc).produced m)
              next.fo_data
  unfolding push_fill
  push_fill-IsMirror fc buf m checked v t room =
      let r = ring_of capacity fc in
      let c = commitment b r.produced m in
      Ensures->>= (map_err push_error (buffer_push fc b.market c)) _ _ _
        (buffer_push-IsPushed b capacity digest fc c checked v (digest _))
        λ p (f, pushed).
          Ensures-skip
            (elim m.reduce_only [ true ↦ reserve b capacity r.produced p m | false ↦ ok p ]) _ _
            λ q.
              Ensures->>= (write_outbox b fo_cap r.produced (some buf) m) _ _ _
                (write_outbox-IsMirror b fo_cap capacity r.produced r.settled buf m t room covers
                  (omega (
                    arith,
                    pushed.valid.bounded,
                    pushed.moved,
                    pushed.settled_kept,
                    length-slot_view p capacity,
                  ))
                  v.ordered)
                λ w h. h

-- The fields of the matches are in the ranges of their types.
abbrev pub AreTyped : Batch → List Match → Type 0
AreTyped b [] = Unit
AreTyped b (m ∷ ms) = IsTyped (slot_of_match b m) × AreTyped b ms

-- The outbox after the fills at the indices from `to` on.
abbrev pub IsMirrored : Batch → ℕ → ℕ → ℕ → List Match → List ℕ → Option (List ℕ) → Type 0
IsMirrored b fo_cap from to ms old =
    OnBytes λ new. IsMirror fo_cap from to old new × AreHeld b fo_cap new to ms

module _ (b : Batch) (fo_cap from to : ℕ) (m : Match) (ms : List Match) (buf : List ℕ)
    (order : from ≤ to) where
  IsMirrored-cons :
      (w : List ℕ) (fo : Option (List ℕ))
      → IsMirror fo_cap from to buf w
      → IsHeld b fo_cap w to m
      → IsMirrored b fo_cap from (to + 1) ms w fo
      → IsMirrored b fo_cap from to (m ∷ ms) buf fo
  IsMirrored-cons w none f held h = h
  IsMirrored-cons w (some new) f held (g, others) = (
    record {
      same_len = g.same_len ∙ f.same_len;
      kept = λ i (lo, hi). g.kept i (lo, omega arith) ∙ f.kept i (lo, hi);
    },
    (g.kept to (order, omega arith) ∙ held, others),
  )

  -- The fills behind the first one.
  rest-IsMirrored :
      (capacity : ℕ) (p : List ℕ) (fo : Option (List ℕ))
      → OnBytes (λ w. IsMirror fo_cap from to buf w × IsHeld b fo_cap w to m) fo
      → ((w : List ℕ)
          → length w ≡ length buf
          → Ensures
              (push_fills b capacity fo_cap (record { fc_data = p; fo_data = some w }) ms)
              λ after. IsMirrored b fo_cap from (to + 1) ms w after.fo_data)
      → Ensures
          (push_fills b capacity fo_cap (record { fc_data = p; fo_data = fo }) ms)
          λ after. IsMirrored b fo_cap from to (m ∷ ms) buf after.fo_data
  rest-IsMirrored capacity p none h k = absurd h
  rest-IsMirrored capacity p (some w) (f, held) k =
      Ensures-map (push_fills b capacity fo_cap (record { fc_data = p; fo_data = some w }) ms)
        (λ after h. IsMirrored-cons w after.fo_data f held h) (k w f.same_len)

-- In accounts that pass their checks, with a valid ring, an outbox of at least as many slots, a hash
-- of 32 bytes and fields in the ranges of their types: when the fills of an order are all pushed,
-- the slot of each fill's index reads as that fill, and the slot of every index that waited for
-- settlement before reads as it did.
pub push_fills-IsMirrored :
    (b : Batch) (capacity fo_cap : ℕ)
    → ((bytes : List ℕ) → length (b.hash bytes) ≡ 32)
    → capacity ≤ fo_cap
    → (ms : List Match) (fc buf : List ℕ) → buffer_check fc b.market ≡ ok capacity
    → IsValid (ring_of capacity fc)
    → AreTyped b ms
    → 64 + fo_cap * 96 ≤ length buf
    → Ensures
        (push_fills b capacity fo_cap (record { fc_data = fc; fo_data = some buf }) ms)
        λ after.
          IsMirrored b fo_cap
            (ring_of capacity fc).settled
            (ring_of capacity fc).produced
            ms
            buf
            after.fo_data
unfolding push_fills
push_fills-IsMirrored b capacity fo_cap digest covers [] fc buf checked v t room =
    (record { same_len = refl; kept = λ i h. refl }, tt)
push_fills-IsMirrored b capacity fo_cap digest covers (m ∷ ms) fc buf checked v t room =
    let a : Accounts = record { fc_data = fc; fo_data = some buf } in
    let r = ring_of capacity fc in
    Ensures->>= (push_fill b capacity fo_cap a m) _ _ _
      (Ensures-both _ _ (push_fill b capacity fo_cap a m)
        (push_fill-IsStored b capacity digest fo_cap a m checked v)
        (push_fill-IsMirror b capacity fo_cap digest covers fc buf m checked v t.0 room))
      λ next (s, h).
        rest-IsMirrored b fo_cap r.settled r.produced m ms buf v.ordered capacity next.fc_data
          next.fo_data h
          λ w l.
            rw (← s.pushed.settled_kept, ← s.pushed.moved)
              (push_fills-IsMirrored b capacity fo_cap digest covers ms next.fc_data w s.checked
                s.pushed.valid t.1 (omega (arith, l)))
