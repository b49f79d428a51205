-- ===== src/Matching/Delivery/Commits.antt =====
-- The fills of a taker order, programs/clober/src/lib.rs, stand in the ring behind those that wait:
-- what the bytes of the ring's account hold after `push_fills`.
use mathlib.Core.Path.{subst}
use mathlib.Core.List.{append_assoc, append-nil}
use flash_book.Common.{
  ℕ, ◌+◌, ◌%◌, ◌<◌, ◌≡◌, refl, sym, ap, ◌∙◌, Bool, true, false, List, [], ◌∷◌, ◌++◌, arith, Result,
  ok, map_err, map_ok, u64, length, length-append, length-set, leb, Bool-cases, inl, inr, Ensures,
  Ensures-map, Ensures->>=, Ensures-skip, Ensures-ok, Ensures-both, Ensures-map_err, Ensures-map_ok,
}
use flash_book.Errors.{CloberError, fill_ring_full}
use flash_book.Ring.{FillCommit, ring_push}
use flash_book.Ring.Fifo.{Ring, IsValid, pending, push, produced-push}
use flash_book.Ring.Queue.{enqueue, push_refines}
use flash_book.Ring.Buffer.{buffer_check, buffer_next_index, buffer_push}
use flash_book.Ring.Buffer.View.{ring_of}
use flash_book.Ring.Buffer.Refine.{buffer_push-refines}
use flash_book.Ring.Inflight.{flags_off, map_off, inflight_add, reduce_flag_set}
use flash_book.Matching.{Match}
use flash_book.Matching.Delivery.{
  Batch, Accounts, to_bytes, commitment, push_error, reserve, write_outbox, push_fill, push_fills,
}
use flash_book.Matching.Delivery.Region.{
  IsKept, IsKept-refl, IsKept-trans, IsKept-le, flag_set-IsKept, inflight_add-IsKept,
  ring_of-IsKept, check-IsKept,
}

-- The commitments of the matches, at the indices from one on.
abbrev pub commitments : Batch → ℕ → List Match → List FillCommit
commitments b idx [] = []
commitments b idx (m ∷ ms) = commitment b idx m ∷ commitments b (idx + 1) ms

-- A ring after a push that succeeded.
pub record IsPushed (r : Ring) (cs : List FillCommit) (q : Ring) : Type 0 where
  pub valid : IsValid q
  pub pending_new : pending q ≡ pending r ++ cs
  pub moved : q.produced ≡ r.produced + length cs
  pub settled_kept : q.settled ≡ r.settled
  pub slots_kept : length q.slots ≡ length r.slots

push-fits : (r : Ring) (c : FillCommit) → Ensures (push r c) λ q. r.produced + 1 < u64
unfolding ring_push
push-fits r c = ground arith

push-keeps :
    (r : Ring) (c : FillCommit)
    → Ensures (push r c) λ q. (q.settled ≡ r.settled) × (length q.slots ≡ length r.slots)
unfolding ring_push
push-keeps r c = ground (arith, length-set r.slots (r.produced % length r.slots) c)

enqueue-Ensures :
    (size : ℕ) (q : List FillCommit) (c : FillCommit)
    → Ensures (enqueue size q c) λ l. l ≡ q ++ c ∷ []
enqueue-Ensures size q c = elim (Bool-cases (leb size (length q))) [
  | inl over ↦ rw over tt
  | inr room ↦ rw room refl
]

push-IsPushed : (r q : Ring) (c : FillCommit) → IsValid r → push r c ≡ ok q → IsPushed r (c ∷ []) q
push-IsPushed r q c v e =
    let fits = Ensures-ok (push r c) (λ q. r.produced + 1 < u64) (push-fits r c) e in
    let queue = push_refines r c v fits in
    let kept =
      Ensures-ok (push r c) (λ q. (q.settled ≡ r.settled) × (length q.slots ≡ length r.slots))
        (push-keeps r c) e in
    record {
      valid = Ensures-ok (push r c) IsValid queue.1 e;
      pending_new =
          Ensures-ok (enqueue (length r.slots) (pending r) c) (λ l. l ≡ pending r ++ c ∷ [])
            (enqueue-Ensures (length r.slots) (pending r) c) (sym queue.0 ∙ ap (map_ok pending) e);
      moved = Ensures-ok (push r c) (λ q. q.produced ≡ r.produced + 1) (produced-push r c) e;
      settled_kept = kept.0;
      slots_kept = kept.1;
    }

reserve-IsKept :
    (b : Batch) (capacity idx : ℕ) (buf : List ℕ) (m : Match)
    → Ensures (reserve b capacity idx buf m) (IsKept (flags_off capacity) buf)
unfolding reserve
reserve-IsKept b capacity idx buf m =
    let key = to_bytes (b.position_key m.maker m.maker_sub_index) in
    Ensures->>= (map_err (λ e. fill_ring_full) (inflight_add buf capacity key m.fill_lots))
      (λ added. ok (reduce_flag_set added capacity idx)) (IsKept (map_off capacity) buf)
      (IsKept (flags_off capacity) buf)
      (Ensures-map_err _ (inflight_add buf capacity key m.fill_lots) (IsKept (map_off capacity) buf)
        (inflight_add-IsKept buf capacity key m.fill_lots))
      λ added k.
        IsKept-trans (flags_off capacity) buf added (reduce_flag_set added capacity idx)
          (IsKept-le (flags_off capacity) (map_off capacity) buf added (omega arith) k)
          (flag_set-IsKept added capacity idx)

-- The account after one fill.
pub record IsStored (b : Batch) (capacity : ℕ) (r : Ring) (cs : List FillCommit) (a : Accounts)
    : Type 0 where
  pub checked : buffer_check a.fc_data b.market ≡ ok capacity
  pub pushed : IsPushed r cs (ring_of capacity a.fc_data)

module _ (b : Batch) (capacity : ℕ) (digest : (bytes : List ℕ) → length (b.hash bytes) ≡ 32) where
  pub buffer_push-IsPushed :
      (buf : List ℕ) (c : FillCommit)
      → buffer_check buf b.market ≡ ok capacity
      → IsValid (ring_of capacity buf)
      → length c ≡ 32
      → Ensures (map_err push_error (buffer_push buf b.market c)) λ p.
        (buffer_check p b.market ≡ ok capacity)
        × IsPushed (ring_of capacity buf) (c ∷ []) (ring_of capacity p)
  buffer_push-IsPushed buf c checked v l =
      let r = ring_of capacity buf in
      let refined = buffer_push-refines buf b.market capacity c checked l in
      Ensures-map_err push_error (buffer_push buf b.market c) _ (
        Ensures-map (buffer_push buf b.market c)
          (λ p (e, f). (f, push-IsPushed r (ring_of capacity p) c v e))
          (Ensures-both _ _ (buffer_push buf b.market c)
            (Ensures-map_ok (ring_of capacity) (buffer_push buf b.market c) (push r c) refined.0)
            refined.1))

  pub push_fill-IsStored :
      (fo_cap : ℕ) (a : Accounts) (m : Match)
      → buffer_check a.fc_data b.market ≡ ok capacity
      → IsValid (ring_of capacity a.fc_data)
      → Ensures (push_fill b capacity fo_cap a m) (
          IsStored b capacity
            (ring_of capacity a.fc_data)
            (commitment b (buffer_next_index a.fc_data) m ∷ []))
  unfolding push_fill
  push_fill-IsStored fo_cap a m checked v =
      let idx = buffer_next_index a.fc_data in
      let c = commitment b idx m in
      let r = ring_of capacity a.fc_data in
      Ensures->>= (map_err push_error (buffer_push a.fc_data b.market c)) _ _
        (IsStored b capacity r (c ∷ [])) (buffer_push-IsPushed a.fc_data c checked v (digest _))
        λ p (f, pushed).
          Ensures->>= (elim m.reduce_only [ true ↦ reserve b capacity idx p m | false ↦ ok p ]) _
            (IsKept (flags_off capacity) p) (IsStored b capacity r (c ∷ []))
            (reserved idx p m.reduce_only)
            λ q k.
              Ensures-skip (write_outbox b fo_cap idx a.fo_data m) _
                (IsStored b capacity r (c ∷ []))
                λ w. record {
                  checked = check-IsKept capacity p q b.market k ∙ f;
                  pushed = subst (IsPushed r (c ∷ [])) (sym (ring_of-IsKept capacity p q k)) pushed;
                }
    where
      reserved :
          (idx : ℕ) (p : List ℕ) (only : Bool)
          → Ensures
              (elim only as (λ x. Result CloberError (List ℕ)) [
                | true ↦ reserve b capacity idx p m
                | false ↦ ok p
              ])
              (IsKept (flags_off capacity) p)
      reserved idx p true = reserve-IsKept b capacity idx p m
      reserved idx p false = IsKept-refl (flags_off capacity) p

  pub IsStored-append :
      (r q : Ring) (cs ds : List FillCommit) (a : Accounts)
      → IsPushed r cs q
      → IsStored b capacity q ds a
      → IsStored b capacity r (cs ++ ds) a
  IsStored-append r q cs ds a f g = record {
    checked = g.checked;
    pushed = record {
      valid = g.pushed.valid;
      pending_new =
          g.pushed.pending_new ∙ ap (λ l. l ++ ds) f.pending_new ∙ append_assoc (pending r) cs ds;
      moved = omega (arith, f.moved, g.pushed.moved, length-append cs ds);
      settled_kept = g.pushed.settled_kept ∙ f.settled_kept;
      slots_kept = g.pushed.slots_kept ∙ f.slots_kept;
    };
  }

  -- In an account that passes its check for the market and whose ring is valid, with a hash of 32
  -- bytes: when the fills of an order are all pushed, the commitments that wait for settlement are
  -- those that waited before, and behind them those to the fills, in the order of the matches and
  -- each at the next index. The account passes its check, the ring is valid, and its cursor has
  -- moved by the number of fills.
  pub push_fills-IsStored :
      (fo_cap : ℕ) (a : Accounts) (ms : List Match)
      → buffer_check a.fc_data b.market ≡ ok capacity
      → IsValid (ring_of capacity a.fc_data)
      → Ensures (push_fills b capacity fo_cap a ms) (
          IsStored b capacity
            (ring_of capacity a.fc_data)
            (commitments b (buffer_next_index a.fc_data) ms))
  unfolding push_fills
  push_fills-IsStored fo_cap a [] checked v = record {
    checked = checked;
    pushed = record {
      valid = v;
      pending_new = sym (append-nil (pending (ring_of capacity a.fc_data)));
      moved = omega arith;
      settled_kept = refl;
      slots_kept = refl;
    };
  }
  push_fills-IsStored fo_cap a (m ∷ ms) checked v =
      let r = ring_of capacity a.fc_data in
      let idx = buffer_next_index a.fc_data in
      Ensures->>= (push_fill b capacity fo_cap a m) (λ next. push_fills b capacity fo_cap next ms)
        (IsStored b capacity r (commitment b idx m ∷ []))
        (IsStored b capacity r (commitments b idx (m ∷ ms)))
        (push_fill-IsStored fo_cap a m checked v)
        λ next s.
          Ensures-map (push_fills b capacity fo_cap next ms)
            (λ after h.
              IsStored-append r (ring_of capacity next.fc_data) (commitment b idx m ∷ [])
                (commitments b (idx + 1) ms) after s.pushed
                (subst
                  (λ i.
                    IsStored b capacity (ring_of capacity next.fc_data) (commitments b i ms) after)
                  s.pushed.moved h))
            (push_fills-IsStored fo_cap next ms s.checked s.pushed.valid)
