-- ===== src/Matching/Delivery.antt =====
-- How `place_taker_order`, programs/clober/src/lib.rs, records the fills of its walk: a commitment to
-- each is pushed to the ring, a reduce-only maker's lots are put in flight, and the fill is written
-- to the outbox where the market has one. A public key is a number whose bytes are its 32; the hash
-- is a parameter.
pub mod Region
pub mod Commits
pub mod Feed
pub mod Header
pub mod Mirror
pub mod Progress
pub mod Together
mod Tests
use flash_book.Common.{
  ℕ, zero, suc, ◌%◌, ◌+◌, Bool, true, false, not, ◌||◌, List, [], ◌∷◌, Option, none, some, leb,
  Result, ok, err, ◌>>=◌, ◌>>◌, require, map_err, u64, saturating_add,
}
use flash_book.Common.Bytes.{to_le_bytes}
use flash_book.Errors.{
  CloberError, fill_ring_full, fill_ring_corrupt, fill_commitment_missing, fill_outbox_required,
}
use flash_book.Ring.{FillCommit, FillRingError, full}
use flash_book.Ring.Preimage.{Fill, fill_preimage, byte_of}
use flash_book.Ring.Buffer.{buffer_check, buffer_next_index, buffer_settle_index, buffer_push}
use flash_book.Ring.Inflight.{inflight_add, reduce_flag_set}
use flash_book.Outbox.{OutboxSlot, outbox_check, outbox_write_slot, outbox_set_cursors}
use flash_book.Matching.{Match}

-- What the fills of one taker order share, and the functions of other code.
pub record Batch : Type 0 where
  pub market : List ℕ
  pub taker : ℕ
  pub side : ℕ
  pub sub_index : ℕ
  pub taker_was_jit : Bool
  pub walk_limit : ℕ
  pub hash : List ℕ → FillCommit
  pub position_key : ℕ → ℕ → ℕ

abbrev pub to_bytes : ℕ → List ℕ
to_bytes key = to_le_bytes 32 key

-- The bytes of the ring's account, and of the outbox where there is one.
pub record Accounts : Type 0 where
  pub fc_data : List ℕ
  pub fo_data : Option (List ℕ)

abbrev pub fill_of_match : Batch → ℕ → Match → Fill
fill_of_match b idx m = record {
  market = b.market;
  taker = to_bytes b.taker;
  maker = to_bytes m.maker;
  taker_side = b.side;
  size_lots = m.fill_lots;
  price_ticks = m.fill_price;
  taker_sub_index = b.sub_index;
  maker_sub_index = m.maker_sub_index;
  produced_index = idx;
  taker_was_jit = b.taker_was_jit;
}

abbrev pub slot_of_match : Batch → Match → OutboxSlot
slot_of_match b m = record {
  taker = to_bytes b.taker;
  maker = to_bytes m.maker;
  size_lots = m.fill_lots;
  price_ticks = m.fill_price;
  maker_id = m.maker_id;
  taker_side = b.side;
  taker_sub_index = b.sub_index;
  maker_sub_index = m.maker_sub_index;
  taker_was_jit = byte_of b.taker_was_jit;
}

abbrev pub commitment : Batch → ℕ → Match → FillCommit
commitment b idx m = b.hash (fill_preimage (fill_of_match b idx m))

abbrev pub push_error : FillRingError → CloberError
push_error full = fill_ring_full
push_error e = fill_ring_corrupt

-- The lots of a reduce-only maker are put in flight, and the ring's slot is marked.
unfoldable pub reserve : Batch → ℕ → ℕ → List ℕ → Match → Result CloberError (List ℕ)
reserve b ring_cap idx buf m = do
  added ←
      map_err (λ e. fill_ring_full)
        (inflight_add buf ring_cap (to_bytes (b.position_key m.maker m.maker_sub_index))
          m.fill_lots)
  ok (reduce_flag_set added ring_cap idx)

unfoldable pub write_outbox :
    Batch → ℕ → ℕ → Option (List ℕ) → Match → Result CloberError (Option (List ℕ))
write_outbox b fo_cap idx none m = ok none
write_outbox b fo_cap idx (some buf) m = do
  written ←
      map_err (λ e. fill_ring_corrupt)
        (outbox_write_slot buf fo_cap (idx % fo_cap) (slot_of_match b m))
  ok (some written)

-- The body of the loop over the matches.
unfoldable pub push_fill : Batch → ℕ → ℕ → Accounts → Match → Result CloberError Accounts
push_fill b ring_cap fo_cap a m = do
  let idx = buffer_next_index a.fc_data
  pushed ← map_err push_error (buffer_push a.fc_data b.market (commitment b idx m))
  reserved ← elim m.reduce_only [ true ↦ reserve b ring_cap idx pushed m | false ↦ ok pushed ]
  written ← write_outbox b fo_cap idx a.fo_data m
  ok (record { fc_data = reserved; fo_data = written })

unfoldable pub push_fills : Batch → ℕ → ℕ → Accounts → List Match → Result CloberError Accounts
push_fills b ring_cap fo_cap a [] = ok a
push_fills b ring_cap fo_cap a (m ∷ ms) = do
  next ← push_fill b ring_cap fo_cap a m
  push_fills b ring_cap fo_cap next ms

unfoldable pub check_outbox : Batch → Option (List ℕ) → Result CloberError ℕ
check_outbox b none = ok 0
check_outbox b (some buf) = map_err (λ e. fill_ring_corrupt) (outbox_check buf b.market)

-- The outbox has at least as many slots as the ring.
unfoldable pub require_covered :
    Batch → List ℕ → Option (List ℕ) → ℕ → Result CloberError (Unit {0})
require_covered b fc_data none fo_cap = ok tt
require_covered b fc_data (some buf) fo_cap = do
  ring_cap ← map_err (λ e. fill_ring_corrupt) (buffer_check fc_data b.market)
  require (leb ring_cap fo_cap) fill_ring_corrupt

abbrev pub set_cursors : List ℕ → Option (List ℕ) → Option (List ℕ)
set_cursors fc_data none = none
set_cursors fc_data (some buf) =
    some (outbox_set_cursors buf (buffer_next_index fc_data) (buffer_settle_index fc_data))

-- The base lots that are reserved for the fills.
abbrev pub volume_from : ℕ → List Match → ℕ
volume_from acc [] = acc
volume_from acc (m ∷ ms) = volume_from (saturating_add u64 acc m.fill_lots) ms

abbrev pub is_some : Option (List ℕ) → Bool
is_some none = false
is_some (some buf) = true

-- The accounts after the fills, and `matched_ring_volume`.
unfoldable pub deliver :
    Batch → Option (List ℕ) → Option (List ℕ) → List Match → Result CloberError (Accounts × ℕ)
deliver b none fo ms = err fill_commitment_missing
deliver b (some fc_data) fo ms = do
  require (is_some fo || leb b.walk_limit 96) fill_outbox_required
  fo_cap ← check_outbox b fo
  require_covered b fc_data fo fo_cap
  ring_cap ← map_err (λ e. fill_ring_corrupt) (buffer_check fc_data b.market)
  after ← push_fills b ring_cap fo_cap (record { fc_data = fc_data; fo_data = fo }) ms
  ok (record after { fo_data = set_cursors after.fc_data after.fo_data }, volume_from 0 ms)
