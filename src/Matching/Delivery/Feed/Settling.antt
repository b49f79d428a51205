-- ===== src/Matching/Delivery/Feed/Settling.antt =====
-- A settlement, `buffer_settle` of programs/clober/src/matcher/fill_commitment.rs, takes the oldest
-- fill from the ring and from the outbox.
use mathlib.Core.Path.{subst}
use flash_book.Common.{
  ℕ, ◌+◌, ◌<◌, ◌≡◌, refl, sym, ap, ◌∙◌, List, [], ◌∷◌, Option, none, some, arith, Result, ok, err,
  u64, map_ok, is_ok, Ensures, Ensures-map, Ensures-both, Ensures-ok, Ensures-map_ok,
}
use flash_book.Ring.{FillCommit, FillRingError, ring_settle}
use flash_book.Ring.Fifo.{Ring, IsValid, pending, settle, produced-settle}
use flash_book.Ring.Queue.{dequeue, settle_refines}
use flash_book.Ring.Authentic.{dequeue-eq}
use flash_book.Ring.Buffer.{buffer_settle}
use flash_book.Ring.Buffer.View.{ring_of}
use flash_book.Ring.Buffer.Refine.{buffer_settle-refines}
use flash_book.Outbox.{outbox_check}
use flash_book.Matching.Delivery.{Accounts, commitment}
use flash_book.Matching.Delivery.Mirror.{OnBytes}
use flash_book.Matching.Delivery.Feed.{Fed, fed_commitments, AreFed, IsInStep}

-- The oldest fill has the commitment, and the rest is what is left.
pub record IsOldest (i : ℕ) (fs : List Fed) (c : FillCommit) (left : List FillCommit) : Type 0 where
  pub fill : Fed
  pub rest : List Fed
  pub oldest : fs ≡ fill ∷ rest
  pub agreed : commitment fill.0 i fill.1 ≡ c
  pub left_over : left ≡ fed_commitments (i + 1) rest

dequeue-IsOldest :
    (i : ℕ) (fs : List Fed) (c : FillCommit) (res : Result FillRingError Ring)
    → map_ok pending res ≡ dequeue (fed_commitments i fs) c
    → Ensures res λ q. IsOldest i fs c (pending q)
dequeue-IsOldest i [] c (ok q) e = absurd (ground (arith, ap is_ok e))
dequeue-IsOldest i [] c (err x) e = tt
dequeue-IsOldest i ((b, m) ∷ fs) c res e =
    Ensures-map res
      (λ q (same, left). record {
        fill = (b, m);
        rest = fs;
        oldest = refl;
        agreed = same;
        left_over = left;
      })
      (dequeue-eq (fed_commitments (i + 1) fs) (commitment b i m) c res e)

settle-next : (r : Ring) (c : FillCommit) → Ensures (settle r c) λ q. q.settled ≡ r.settled + 1
unfolding ring_settle
settle-next r c = ground arith

AreFed-rest :
    (market : List ℕ) (fo_cap i j : ℕ) (fs : List Fed) (f : Fed) (rest : List Fed)
    (fo : Option (List ℕ))
    → fs ≡ f ∷ rest
    → j ≡ i + 1
    → OnBytes (λ buf. (outbox_check buf market ≡ ok fo_cap) × AreFed fo_cap buf i fs) fo
    → OnBytes (λ buf. (outbox_check buf market ≡ ok fo_cap) × AreFed fo_cap buf j rest) fo
AreFed-rest market fo_cap i j fs f rest none e n h = h
AreFed-rest market fo_cap i j fs f rest (some buf) e n (c, h) =
    (c, rw n (subst (λ l. AreFed fo_cap buf i l) e h).1)

-- A settlement takes the oldest fill that waits.
pub record IsSettled (market : List ℕ) (capacity fo_cap : ℕ) (a : Accounts) (fs : List Fed)
    (c : FillCommit) (after : Accounts) : Type 0 where
  pub fill : Fed
  pub rest : List Fed
  pub oldest : fs ≡ fill ∷ rest
  pub agreed : commitment fill.0 (ring_of capacity a.fc_data).settled fill.1 ≡ c
  pub in_step : IsInStep market capacity fo_cap after rest
  pub settled_next :
      (ring_of capacity after.fc_data).settled ≡ (ring_of capacity a.fc_data).settled + 1
  pub produced_kept :
      (ring_of capacity after.fc_data).produced ≡ (ring_of capacity a.fc_data).produced

pub settle-IsSettled :
    (market : List ℕ) (capacity fo_cap : ℕ) (a : Accounts) (fs : List Fed) (c : FillCommit)
    → IsInStep market capacity fo_cap a fs
    → (ring_of capacity a.fc_data).produced < u64
    → Ensures
        (buffer_settle a.fc_data market c)
        λ fc. IsSettled market capacity fo_cap a fs c (record a { fc_data = fc })
settle-IsSettled market capacity fo_cap a fs c h fits =
    let r = ring_of capacity a.fc_data in
    let refined = buffer_settle-refines a.fc_data market capacity c h.ring_checked in
    let queue = settle_refines r c h.valid fits in
    Ensures-map (buffer_settle a.fc_data market c)
      (λ fc (e, checked).
        let next = Ensures-ok (settle r c) (λ q. q.settled ≡ r.settled + 1) (settle-next r c) e in
        let old =
          Ensures-ok (settle r c) (λ q. IsOldest r.settled fs c (pending q))
            (dequeue-IsOldest r.settled fs c (settle r c)
              (queue.0 ∙ ap (λ p. dequeue p c) h.committed))
            e in
        record {
          fill = old.fill;
          rest = old.rest;
          oldest = old.oldest;
          agreed = old.agreed;
          in_step = record {
            ring_checked = checked;
            valid = Ensures-ok (settle r c) IsValid queue.1 e;
            committed = old.left_over ∙ ap (λ i. fed_commitments i old.rest) (sym next);
            readable =
                AreFed-rest market fo_cap r.settled (ring_of capacity fc).settled fs old.fill
                  old.rest a.fo_data old.oldest next h.readable;
          };
          settled_next = next;
          produced_kept =
              Ensures-ok (settle r c) (λ q. q.produced ≡ r.produced) (produced-settle r c) e;
        })
      (Ensures-both _ _ (buffer_settle a.fc_data market c)
        (Ensures-map_ok (ring_of capacity) (buffer_settle a.fc_data market c) (settle r c)
          refined.0)
        refined.1)
