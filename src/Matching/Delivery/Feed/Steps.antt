-- ===== src/Matching/Delivery/Feed/Steps.antt =====
-- What the fills of a taker order do to the ring and to the outbox, programs/clober/src/lib.rs.
use mathlib.Core.Path.{subst}
use flash_book.Common.{
  ℕ, suc, ◌+◌, ◌-◌, ◌≡◌, refl, sym, ap, ◌∙◌, List, [], ◌∷◌, ◌++◌, Option, none, some, arith, ok,
  length, Ensures, Ensures-map, Ensures-both,
}
use flash_book.Ring.Fifo.{Ring, IsValid, pending, length-window}
use flash_book.Ring.Buffer.{buffer_next_index}
use flash_book.Ring.Buffer.View.{ring_of}
use flash_book.Outbox.{outbox_check}
use flash_book.Matching.{Match}
use flash_book.Matching.Delivery.{Batch, Accounts, deliver}
use flash_book.Matching.Delivery.Commits.{IsStored, commitments}
use flash_book.Matching.Delivery.Mirror.{OnBytes, AreHeld, IsMirrored, AreTyped}
use flash_book.Matching.Delivery.Together.{deliver-IsStored, deliver-IsMirrored}
use flash_book.Matching.Delivery.Header.{deliver-outbox_check}
use flash_book.Matching.Delivery.Feed.{
  Fed, fed_by, fed_commitments, AreFed, IsInStep, fed_by-commitments, fed_by-AreFed,
  length-fed_commitments, fed_commitments-append, AreFed-append, AreFed-IsMirror,
}

waiting_len :
    (r : Ring) (fs : List Fed)
    → IsValid r
    → pending r ≡ fed_commitments r.settled fs
    → r.settled + length fs ≡ r.produced
waiting_len r fs v e = omega (
  arith,
  v.ordered,
  length-window r.slots (length r.slots) r.settled (r.produced - r.settled),
  ap length e,
  length-fed_commitments r.settled fs,
)

length-commitments : (b : Batch) (i : ℕ) (ms : List Match) → length (commitments b i ms) ≡ length ms
length-commitments b i [] = refl
length-commitments b i (m ∷ ms) = ap suc (length-commitments b (i + 1) ms)

-- The outbox behind the fills of an order.
readable_after :
    (b : Batch) (fo_cap from to : ℕ) (buf : List ℕ) (fs : List Fed) (ms : List Match)
    (fo : Option (List ℕ))
    → from + length fs ≡ to
    → outbox_check buf b.market ≡ ok fo_cap
    → AreFed fo_cap buf from fs
    → IsMirrored b fo_cap from to ms buf fo
    → OnBytes (λ new. outbox_check new b.market ≡ outbox_check buf b.market) fo
    → OnBytes
        (λ new.
          (outbox_check new b.market ≡ ok fo_cap) × AreFed fo_cap new from (fs ++ fed_by b ms))
        fo
readable_after b fo_cap from to buf fs ms none e c h k l = k
readable_after b fo_cap from to buf fs ms (some new) e c h (k, held) l = (
  l ∙ c,
  AreFed-append fo_cap new from fs (fed_by b ms)
      (AreFed-IsMirror fo_cap from to buf new from fs k (omega arith) (omega arith) h)
      (fed_by-AreFed b fo_cap new (from + length fs) ms
        (subst (λ j. AreHeld b fo_cap new j ms) (sym e) held)),
)

module _ (b : Batch) (capacity fo_cap : ℕ)
    (digest : (bytes : List ℕ) → length (b.hash bytes) ≡ 32) where
  order_stored :
      (a after : Accounts) (fs : List Fed) (ms : List Match)
      → IsInStep b.market capacity fo_cap a fs
      → IsStored b capacity
          (ring_of capacity a.fc_data)
          (commitments b (buffer_next_index a.fc_data) ms)
          after
      → OnBytes
          (λ new.
            (outbox_check new b.market ≡ ok fo_cap)
            × AreFed fo_cap new (ring_of capacity a.fc_data).settled (fs ++ fed_by b ms))
          after.fo_data
      → IsInStep b.market capacity fo_cap after (fs ++ fed_by b ms)
  order_stored a after fs ms h s readable =
      let r = ring_of capacity a.fc_data in
      let from = r.settled in
      record {
        ring_checked = s.checked;
        valid = s.pushed.valid;
        committed =
            s.pushed.pending_new
            ∙ ap (λ l. l ++ commitments b r.produced ms) h.committed
            ∙ ap (λ l. fed_commitments from fs ++ l)
                (sym (fed_by-commitments b r.produced ms)
                  ∙ ap (λ i. fed_commitments i (fed_by b ms))
                      (sym (waiting_len r fs h.valid h.committed)))
            ∙ sym (fed_commitments-append from fs (fed_by b ms))
            ∙ ap (λ i. fed_commitments i (fs ++ fed_by b ms)) (sym s.pushed.settled_kept);
        readable =
            subst
              (λ i.
                OnBytes
                  (λ new.
                    (outbox_check new b.market ≡ ok fo_cap)
                    × AreFed fo_cap new i (fs ++ fed_by b ms))
                  after.fo_data)
              (sym s.pushed.settled_kept) readable;
      }

  -- The fills of an order stand behind those that wait.
  pub order-IsInStep :
      (fc : List ℕ) (fo : Option (List ℕ)) (fs : List Fed) (ms : List Match)
      → AreTyped b ms
      → IsInStep b.market capacity fo_cap (record { fc_data = fc; fo_data = fo }) fs
      → Ensures (deliver b (some fc) fo ms) λ (after, volume).
        IsInStep b.market capacity fo_cap after (fs ++ fed_by b ms)
        × ((ring_of capacity after.fc_data).produced ≡ (ring_of capacity fc).produced + length ms)
        × ((ring_of capacity after.fc_data).settled ≡ (ring_of capacity fc).settled)
  order-IsInStep fc none fs ms t h = absurd h.readable
  order-IsInStep fc (some buf) fs ms t h =
      let r = ring_of capacity fc in
      Ensures-map (deliver b (some fc) (some buf) ms)
        (λ (after, volume) (s, (k, l)). (
          order_stored (record { fc_data = fc; fo_data = some buf }) after fs ms h s
              (readable_after b fo_cap r.settled r.produced buf fs ms after.fo_data
                (waiting_len r fs h.valid h.committed) h.readable.0 h.readable.1 k l),
          omega (arith, s.pushed.moved, length-commitments b r.produced ms),
          s.pushed.settled_kept,
        ))
        (Ensures-both _ _ (deliver b (some fc) (some buf) ms)
          (deliver-IsStored b capacity fc (some buf) ms digest h.ring_checked h.valid)
          (Ensures-both _ _ (deliver b (some fc) (some buf) ms)
            (deliver-IsMirrored b capacity fo_cap fc buf ms digest h.ring_checked h.readable.0
              h.valid t)
            (deliver-outbox_check b fc buf ms)))
