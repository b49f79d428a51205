-- ===== src/Ring/History.antt =====
-- Histories of the fill-commitment ring: what settlement consumed, in any interleaving of the
-- matcher and of settlement, is what the matcher committed, in its order.
use mathlib.Core.List.{append_assoc, append-nil}
use flash_book.Common.{
  ℕ, ◌+◌, ◌≤◌, ◌<◌, ◌≡◌, refl, sym, ap, ◌∙◌, List, [], ◌∷◌, ◌++◌, arith, Result, ok, err, u64,
  length, map_ok, Ensures,
}
use flash_book.Common.Bytes.{bytes_eq→≡}
use flash_book.Ring.{FillCommit, FillRingError}
use flash_book.Ring.Fifo.{Ring, IsValid, pending, push, settle, produced-push, produced-settle}
use flash_book.Ring.Queue.{enqueue, dequeue, push_refines, settle_refines}

-- A transaction of the matcher, or of settlement with the commitment that it recomputed.
pub data Op : Type 0 where
  produce consume : FillCommit → Op

-- The ring after the transactions, and the commitments that were accepted on either side. A
-- transaction that fails leaves the ring as it was.
pub record History : Type 0 where
  pub ring : Ring
  pub pushed : List FillCommit
  pub consumed : List FillCommit

abbrev pub advance : Result FillRingError Ring → Ring → Ring
advance (ok r) old = r
advance (err e) old = old

abbrev pub accepted : Result FillRingError Ring → FillCommit → List FillCommit
accepted (ok r) c = c ∷ []
accepted (err e) c = []

unfoldable pub run : Ring → List Op → History
run r [] = record { ring = r; pushed = []; consumed = [] }
run r (produce c ∷ ops) =
    let result = push r c in
    let rest = run (advance result r) ops in
    record rest { pushed = accepted result c ++ rest.pushed }
run r (consume c ∷ ops) =
    let result = settle r c in
    let rest = run (advance result r) ops in
    record rest { consumed = accepted result c ++ rest.consumed }

-- What the queue accepted.
enqueue-ok :
    (size : ℕ) (q : List FillCommit) (c : FillCommit) (p : List FillCommit)
    → ok p ≡ enqueue size q c
    → q ++ c ∷ [] ≡ p
enqueue-ok size q c p e = ground arith

dequeue-ok :
    (q : List FillCommit) (c : FillCommit) (p : List FillCommit) → ok p ≡ dequeue q c → q ≡ c ∷ p
dequeue-ok [] c p e = cc
dequeue-ok (x ∷ q) c p e = ground (arith, bytes_eq→≡ x c)

push_step :
    (r : Ring) (c : FillCommit)
    → IsValid r
    → r.produced + 1 < u64
    → let result = push r c in
      IsValid (advance result r)
      × (pending r ++ accepted result c ≡ pending (advance result r))
      × ((advance result r).produced ≤ r.produced + 1)
push_step r c v fits =
    split (push r c) (push_refines r c v fits).0 (push_refines r c v fits).1 (produced-push r c)
  where
    split :
        (res : Result FillRingError Ring)
        → map_ok pending res ≡ enqueue (length r.slots) (pending r) c
        → Ensures res IsValid
        → Ensures res (λ q. q.produced ≡ r.produced + 1)
        → IsValid (advance res r)
          × (pending r ++ accepted res c ≡ pending (advance res r))
          × ((advance res r).produced ≤ r.produced + 1)
    split (ok q) e w m = (w, enqueue-ok (length r.slots) (pending r) c (pending q) e, omega arith)
    split (err x) e w m = (v, append-nil _, omega arith)

settle_step :
    (r : Ring) (c : FillCommit)
    → IsValid r
    → r.produced < u64
    → let result = settle r c in
      IsValid (advance result r)
      × (pending r ≡ accepted result c ++ pending (advance result r))
      × ((advance result r).produced ≡ r.produced)
settle_step r c v fits =
    split (settle r c) (settle_refines r c v fits).0 (settle_refines r c v fits).1
      (produced-settle r c)
  where
    split :
        (res : Result FillRingError Ring)
        → map_ok pending res ≡ dequeue (pending r) c
        → Ensures res IsValid
        → Ensures res (λ q. q.produced ≡ r.produced)
        → IsValid (advance res r)
          × (pending r ≡ accepted res c ++ pending (advance res r))
          × ((advance res r).produced ≡ r.produced)
    split (ok q) e w m = (w, dequeue-ok (pending r) c (pending q) e, m)
    split (err x) e w m = (v, refl, refl)

-- Settlement cannot be forged, replayed or reordered: in a valid ring, whatever is presented and
-- however pushes and settlements interleave, the pending commitments with those that were
-- accepted are the settled commitments followed by those still pending, in order, and the ring
-- stays valid, if the produced cursor has room in a u64 for all the operations.
pub consumed-prefix :
    (r : Ring) (ops : List Op)
    → IsValid r
    → r.produced + length ops < u64
    → let h = run r ops in (pending r ++ h.pushed ≡ h.consumed ++ pending h.ring) × IsValid h.ring
unfolding run
consumed-prefix r [] v fits = (append-nil (pending r), v)
consumed-prefix r (produce c ∷ ops) v fits =
    let (w, e, m) = push_step r c v (omega arith) in
    let rest = consumed-prefix (advance (push r c) r) ops w (omega arith) in
    (
      sym (
            append_assoc (pending r) (accepted (push r c) c)
              ((run (advance (push r c) r) ops).pushed))
          ∙ ap (λ l. l ++ (run (advance (push r c) r) ops).pushed) e
          ∙ rest.0,
      rest.1,
    )
consumed-prefix r (consume c ∷ ops) v fits =
    let (w, e, m) = settle_step r c v (omega arith) in
    let rest = consumed-prefix (advance (settle r c) r) ops w (omega arith) in
    (
      ap (λ l. l ++ (run (advance (settle r c) r) ops).pushed) e
          ∙ append_assoc (accepted (settle r c) c) (pending (advance (settle r c) r))
              ((run (advance (settle r c) r) ops).pushed)
          ∙ ap (λ l. accepted (settle r c) c ++ l) rest.0
          ∙ sym (
              append_assoc (accepted (settle r c) c) ((run (advance (settle r c) r) ops).consumed)
                (pending (run (advance (settle r c) r) ops).ring)),
      rest.1,
    )
