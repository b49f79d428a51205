-- ===== src/Matching/Delivery/Tests.antt =====
-- The fills of a taker order, programs/clober/src/lib.rs, recorded in small accounts.
use flash_book.Common.{
  ℕ, ◌+◌, ◌*◌, ◌≤◌, ◌≡◌, refl, false, List, [], ◌∷◌, some, arith, ok, replicate, Ensures, Returns,
  length,
}
use flash_book.Common.Fields.{write_fields}
use flash_book.Ring.{FillCommit, ring_push, ring_settle, ring_depth}
use flash_book.Ring.Buffer
use flash_book.Outbox
use flash_book.Ring.Fifo.{IsValid}
use flash_book.Ring.Buffer.{
  buffer_check, buffer_next_index, slot_view, chunks, buffer_push, buffer_settle, put_slots, join,
}
use flash_book.Ring.Buffer.View.{ring_of}
use flash_book.Outbox.{
  outbox_check, outbox_read_slot, outbox_write_slot, outbox_set_cursors, filled,
}
use flash_book.Outbox.Slots.{IsTyped}
use flash_book.Matching.{Match}
use flash_book.Matching.Delivery.{
  Batch, deliver, slot_of_match, check_outbox, require_covered, push_fills, push_fill, write_outbox,
}
use flash_book.Matching.Delivery.Commits.{IsStored, commitments}
use flash_book.Matching.Delivery.Mirror.{IsMirrored}
use flash_book.Matching.Delivery.Together.{deliver-IsStored, deliver-IsMirrored}
use flash_book.Matching.Delivery.Progress.{deliver-Returns}
use flash_book.Matching.Delivery.Feed.{Op, record_fills, settle_fill, run}
use flash_book.Ring.Preimage.{fill_preimage}

abbrev market : List ℕ
market = replicate 32 7

-- A hash for the examples.
abbrev fixed_hash : List ℕ → FillCommit
fixed_hash bytes = replicate 32 9

abbrev batch : Batch
batch = record {
  market = market;
  taker = 11;
  side = 0;
  sub_index = 0;
  taker_was_jit = false;
  walk_limit = 96;
  hash = fixed_hash;
  position_key = λ trader sub. trader * 256 + sub;
}

-- Rings and outboxes of two slots.
abbrev ring_account : List ℕ
ring_account = write_fields (replicate 1410 0) (Buffer.header_fields market 2 254)

abbrev outbox_account : List ℕ
outbox_account = write_fields (replicate 256 0) (Outbox.header_fields market 2 254)

abbrev maker_match : ℕ → ℕ → Match
maker_match idx lots = record {
  maker_idx = idx;
  maker_id = 1000 + idx;
  fill_lots = lots;
  fill_price = 100;
  maker = 12;
  maker_sub_index = 0;
  reduce_only = false;
}

abbrev two_matches : List Match
two_matches = maker_match 0 5 ∷ maker_match 1 6 ∷ []

ring_account-checked : buffer_check ring_account market ≡ ok 2
unfolding buffer_check
ring_account-checked = refl

outbox_account-checked : outbox_check outbox_account market ≡ ok 2
unfolding outbox_check
outbox_account-checked = refl

ring_account-IsValid : IsValid (ring_of 2 ring_account)
unfolding slot_view chunks
ring_account-IsValid = record {
  open_slots = omega arith;
  ordered = omega arith;
  bounded = omega arith;
}

maker_match-IsTyped :
    (idx lots : ℕ) → idx ≤ 1 → lots ≤ 6 → IsTyped (slot_of_match batch (maker_match idx lots))
maker_match-IsTyped idx lots h k = record {
  taker_len = refl;
  maker_len = refl;
  size_lots_fits = omega arith;
  price_ticks_fits = omega arith;
  maker_id_fits = omega arith;
}

deliver-IsStored_example :
    Ensures (deliver batch (some ring_account) (some outbox_account) two_matches) λ (after, volume).
      IsStored batch 2
        (ring_of 2 ring_account)
        (commitments batch (buffer_next_index ring_account) two_matches)
        after
deliver-IsStored_example =
    deliver-IsStored batch 2 ring_account (some outbox_account) two_matches (λ bytes. refl)
      ring_account-checked ring_account-IsValid

deliver-IsMirrored_example :
    Ensures (deliver batch (some ring_account) (some outbox_account) two_matches) λ (after, volume).
      IsMirrored batch 2
        (ring_of 2 ring_account).settled
        (ring_of 2 ring_account).produced
        two_matches
        outbox_account
        after.fo_data
deliver-IsMirrored_example =
    deliver-IsMirrored batch 2 2 ring_account outbox_account two_matches (λ bytes. refl)
      ring_account-checked outbox_account-checked ring_account-IsValid
      (
        maker_match-IsTyped 0 5 (omega arith) (omega arith),
        (maker_match-IsTyped 1 6 (omega arith) (omega arith), tt),
      )

deliver-Returns_example :
    Returns (deliver batch (some ring_account) (some outbox_account) two_matches) λ (after, volume).
      IsStored batch 2
        (ring_of 2 ring_account)
        (commitments batch (buffer_next_index ring_account) two_matches)
        after
deliver-Returns_example =
    deliver-Returns batch 2 2 ring_account (some outbox_account) two_matches (λ bytes. refl)
      ring_account-checked (outbox_account-checked, omega arith) ring_account-IsValid (omega arith)
      (omega arith) (refl, (refl, tt))

-- Two fills fill the ring, a third is refused, a settlement settles the first and another is forged.
abbrev ops : List Op
ops =
    record_fills batch two_matches
    ∷ record_fills batch (maker_match 1 3 ∷ [])
    ∷ settle_fill (fixed_hash [])
    ∷ settle_fill (replicate 32 8)
    ∷ []

-- The two fills are recorded, and one of them is settled.
run-settled :
    let feed = run market (record { fc_data = ring_account; fo_data = some outbox_account }) ops in
    (length feed.recorded ≡ 2) × (length feed.settled ≡ 1)
unfolding run deliver check_outbox require_covered push_fills push_fill write_outbox outbox_check
    outbox_write_slot outbox_set_cursors filled buffer_check buffer_push buffer_settle ring_push
    ring_settle ring_depth slot_view put_slots chunks join fill_preimage
run-settled = (refl, refl)
