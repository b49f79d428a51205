-- ===== src/Matching/Delivery/Feed.antt =====
-- Taker orders and settlements on one market, in any order: `place_taker_order` of
-- programs/clober/src/lib.rs with `buffer_settle` of
-- programs/clober/src/matcher/fill_commitment.rs.
pub mod Steps
pub mod Settling
pub mod Runs
use mathlib.Core.Path.{subst}
use mathlib.Core.List.{append_assoc, append-nil}
use flash_book.Common.{
  ℕ, zero, suc, ◌+◌, ◌-◌, ◌*◌, ◌%◌, ◌≤◌, ◌<◌, ◌≡◌, refl, sym, ap, ◌∙◌, List, [], ◌∷◌, ◌++◌, map,
  Option, none, some, arith, Result, ok, err, u64, map_ok, length, length-append, Ensures,
  Ensures-map, Ensures-both, Ensures-ok, Ensures-map_ok,
}
use flash_book.Common.Bytes.{bytes_eq→≡}
use flash_book.Errors.{CloberError}
use flash_book.Ring.{FillCommit, FillRingError, ring_settle}
use flash_book.Ring.Fifo.{Ring, IsValid, pending, settle, length-window, produced-settle}
use flash_book.Ring.Queue.{dequeue, settle_refines}
use flash_book.Ring.Buffer.{buffer_check, buffer_next_index, buffer_settle}
use flash_book.Ring.Buffer.View.{ring_of}
use flash_book.Ring.Buffer.Refine.{buffer_settle-refines}
use flash_book.Outbox.{outbox_check, outbox_read_slot}
use flash_book.Matching.{Match}
use flash_book.Matching.Delivery.{Batch, Accounts, commitment, slot_of_match, deliver}
use flash_book.Matching.Delivery.Commits.{IsPushed, IsStored, commitments}
use flash_book.Matching.Delivery.Mirror.{OnBytes, IsMirror, AreHeld, IsMirrored, AreTyped}
use flash_book.Matching.Delivery.Together.{deliver-IsStored, deliver-IsMirrored}
use flash_book.Matching.Delivery.Header.{deliver-outbox_check}

-- A fill with the order that it belongs to.
abbrev pub Fed : Type 0
Fed = Batch × Match

abbrev pub fed_by : Batch → List Match → List Fed
fed_by b [] = []
fed_by b (m ∷ ms) = (b, m) ∷ fed_by b ms

-- The fills of a taker order, or a settlement with the commitment that it recomputed.
pub data Op : Type 0 where
  record_fills : Batch → List Match → Op
  settle_fill : FillCommit → Op

-- The accounts after the transactions, the fills that were recorded and the commitments that were
-- settled. A transaction that fails leaves the accounts as they were.
pub record Feed : Type 0 where
  pub accounts : Accounts
  pub recorded : List Fed
  pub settled : List FillCommit

abbrev pub after_order : Result CloberError (Accounts × ℕ) → Accounts → Accounts
after_order (ok (after, volume)) old = after
after_order (err e) old = old

abbrev pub accepted : Result CloberError (Accounts × ℕ) → Batch → List Match → List Fed
accepted (ok r) b ms = fed_by b ms
accepted (err e) b ms = []

abbrev pub after_settle : Result FillRingError (List ℕ) → Accounts → Accounts
after_settle (ok fc_data) old = record old { fc_data = fc_data }
after_settle (err e) old = old

abbrev pub accepted_settle : Result FillRingError (List ℕ) → FillCommit → List FillCommit
accepted_settle (ok fc_data) c = c ∷ []
accepted_settle (err e) c = []

unfoldable pub run : List ℕ → Accounts → List Op → Feed
run market a [] = record { accounts = a; recorded = []; settled = [] }
run market a (record_fills b ms ∷ ops) =
    let result = deliver b (some a.fc_data) a.fo_data ms in
    let rest = run market (after_order result a) ops in
    record rest { recorded = accepted result b ms ++ rest.recorded }
run market a (settle_fill c ∷ ops) =
    let result = buffer_settle a.fc_data market c in
    let rest = run market (after_settle result a) ops in
    record rest { settled = accepted_settle result c ++ rest.settled }

-- The commitments to the fills, and their slots in the outbox, at the indices from one on.
abbrev pub fed_commitments : ℕ → List Fed → List FillCommit
fed_commitments i [] = []
fed_commitments i ((b, m) ∷ fs) = commitment b i m ∷ fed_commitments (i + 1) fs

abbrev pub AreFed : ℕ → List ℕ → ℕ → List Fed → Type 0
AreFed fo_cap buf i [] = Unit
AreFed fo_cap buf i ((b, m) ∷ fs) =
    (outbox_read_slot buf fo_cap (i % fo_cap) ≡ ok (slot_of_match b m))
    × AreFed fo_cap buf (i + 1) fs

-- The ring and the outbox stand for the same fills that wait for settlement.
pub record IsInStep (market : List ℕ) (capacity fo_cap : ℕ) (a : Accounts) (waiting : List Fed)
    : Type 0 where
  pub ring_checked : buffer_check a.fc_data market ≡ ok capacity
  pub valid : IsValid (ring_of capacity a.fc_data)
  pub committed :
      pending (ring_of capacity a.fc_data)
      ≡ fed_commitments (ring_of capacity a.fc_data).settled waiting
  pub readable :
      OnBytes
        (λ buf.
          (outbox_check buf market ≡ ok fo_cap)
          × AreFed fo_cap buf (ring_of capacity a.fc_data).settled waiting)
        a.fo_data

pub fed_by-commitments :
    (b : Batch) (i : ℕ) (ms : List Match) → fed_commitments i (fed_by b ms) ≡ commitments b i ms
fed_by-commitments b i [] = refl
fed_by-commitments b i (m ∷ ms) = ap (λ l. commitment b i m ∷ l) (fed_by-commitments b (i + 1) ms)

pub fed_by-AreFed :
    (b : Batch) (fo_cap : ℕ) (buf : List ℕ) (i : ℕ) (ms : List Match)
    → AreHeld b fo_cap buf i ms
    → AreFed fo_cap buf i (fed_by b ms)
fed_by-AreFed b fo_cap buf i [] h = tt
fed_by-AreFed b fo_cap buf i (m ∷ ms) h = (h.0, fed_by-AreFed b fo_cap buf (i + 1) ms h.1)

pub length-fed_commitments : (i : ℕ) (fs : List Fed) → length (fed_commitments i fs) ≡ length fs
length-fed_commitments i [] = refl
length-fed_commitments i (f ∷ fs) = ap suc (length-fed_commitments (i + 1) fs)

pub fed_commitments-append :
    (i : ℕ) (fs gs : List Fed)
    → fed_commitments i (fs ++ gs) ≡ fed_commitments i fs ++ fed_commitments (i + length fs) gs
fed_commitments-append i [] gs = ap (λ j. fed_commitments j gs) (omega arith)
fed_commitments-append i ((b, m) ∷ fs) gs =
    ap (λ l. commitment b i m ∷ l)
      (fed_commitments-append (i + 1) fs gs
        ∙ ap (λ j. fed_commitments (i + 1) fs ++ fed_commitments j gs) (omega arith))

pub AreFed-append :
    (fo_cap : ℕ) (buf : List ℕ) (i : ℕ) (fs gs : List Fed)
    → AreFed fo_cap buf i fs
    → AreFed fo_cap buf (i + length fs) gs
    → AreFed fo_cap buf i (fs ++ gs)
AreFed-append fo_cap buf i [] gs h k =
    subst (λ j. AreFed fo_cap buf j gs) {x = i + 0} (omega arith) k
AreFed-append fo_cap buf i (f ∷ fs) gs h k = (
  h.0,
  AreFed-append fo_cap buf (i + 1) fs gs h.1
      (subst (λ j. AreFed fo_cap buf j gs) {x = i + suc (length fs)} (omega arith) k),
)

-- Fills whose slots were kept.
pub AreFed-IsMirror :
    (fo_cap from to : ℕ) (old new : List ℕ) (i : ℕ) (fs : List Fed)
    → IsMirror fo_cap from to old new
    → from ≤ i
    → i + length fs ≤ to
    → AreFed fo_cap old i fs
    → AreFed fo_cap new i fs
AreFed-IsMirror fo_cap from to old new i [] k lo hi h = tt
AreFed-IsMirror fo_cap from to old new i (f ∷ fs) k lo hi h = (
  k.kept i (lo, omega arith) ∙ h.0,
  AreFed-IsMirror fo_cap from to old new (i + 1) fs k (omega arith) (omega arith) h.1,
)
