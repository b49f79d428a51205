-- ===== src/Outbox.antt =====
-- The outbox of fills: programs/clober/src/matcher/fill_outbox.rs. An account of 64 header bytes
-- and slots of 96 bytes, one for each fill, addressed by the produced cursor of the
-- fill-commitment ring. A borrowed window `&mut data[a .. b]` is taken, written and put back.
pub mod Slots
pub mod Header
pub mod Pending
mod Tests
use flash_book.Common.{
  ℕ, ◌+◌, ◌*◌, ◌-◌, ◌%◌, Bool, true, false, not, ◌||◌, List, [], ◌∷◌, ltb, leb, ◌==◌, if◌then◌else◌,
  Result, ok, err, length, get_or, set, replicate,
}
use flash_book.Common.Bytes.{bytes_eq, slice, splice, to_le_bytes}
use flash_book.Common.Fields.{write_fields, rd_u64, rd_u32, wr_u64}

pub data FillOutboxError : Type 0 where
  corrupt wrong_market out_of_range : FillOutboxError

-- `b"FBoutbx\0"`
abbrev pub fill_outbox_disc : List ℕ
fill_outbox_disc = b'F' ∷ b'B' ∷ b'o' ∷ b'u' ∷ b't' ∷ b'b' ∷ b'x' ∷ 0 ∷ []

abbrev pub fill_outbox_header_len : ℕ
fill_outbox_header_len = 64

abbrev pub fill_outbox_slot_len : ℕ
fill_outbox_slot_len = 96

abbrev pub fill_outbox_account_len : ℕ → ℕ
fill_outbox_account_len capacity = fill_outbox_header_len + capacity * fill_outbox_slot_len

-- The stores of `outbox_init`, in order.
abbrev pub header_fields : List ℕ → ℕ → ℕ → List (ℕ × List ℕ)
header_fields market capacity bump =
    (0, fill_outbox_disc)
    ∷ (8, to_le_bytes 8 0)
    ∷ (16, to_le_bytes 8 0)
    ∷ (24, to_le_bytes 4 capacity)
    ∷ (28, bump ∷ [])
    ∷ (29, replicate 3 0)
    ∷ (32, market)
    ∷ []

unfoldable pub outbox_init : List ℕ → List ℕ → ℕ → ℕ → Result FillOutboxError (List ℕ)
outbox_init buf market capacity bump =
    if capacity == 0 || not (length buf == fill_outbox_account_len capacity)
    then err corrupt
    else ok (write_fields buf (header_fields market capacity bump))

unfoldable pub outbox_check : List ℕ → List ℕ → Result FillOutboxError ℕ
outbox_check buf expected_market =
    let capacity = rd_u32 buf 24 in
    if ltb (length buf) fill_outbox_header_len || not (bytes_eq (slice buf 0 8) fill_outbox_disc)
    then err corrupt
    else if capacity == 0 || not (length buf == fill_outbox_account_len capacity)
    then err corrupt
    else if not (bytes_eq (slice buf 32 32) expected_market)
    then err wrong_market
    else ok capacity

unfoldable pub outbox_set_cap : List ℕ → ℕ → List ℕ
outbox_set_cap buf new_cap = splice buf 24 (to_le_bytes 4 new_cap)

unfoldable pub outbox_set_cursors : List ℕ → ℕ → ℕ → List ℕ
outbox_set_cursors buf produced settled = wr_u64 (wr_u64 buf 8 produced) 16 settled

unfoldable pub outbox_produced : List ℕ → ℕ
outbox_produced buf = rd_u64 buf 8

unfoldable pub outbox_settled : List ℕ → ℕ
outbox_settled buf = rd_u64 buf 16

pub record OutboxSlot : Type 0 where
  pub taker : List ℕ
  pub maker : List ℕ
  pub size_lots : ℕ
  pub price_ticks : ℕ
  pub maker_id : ℕ
  pub taker_side : ℕ
  pub taker_sub_index : ℕ
  pub maker_sub_index : ℕ
  pub taker_was_jit : ℕ

-- The stores of `outbox_write_slot` into its window, in order. The fields of the fill are its
-- arguments.
abbrev pub slot_fields : OutboxSlot → List (ℕ × List ℕ)
slot_fields fill =
    (0, fill.taker)
    ∷ (32, fill.maker)
    ∷ (64, to_le_bytes 8 fill.size_lots)
    ∷ (72, to_le_bytes 8 fill.price_ticks)
    ∷ (80, to_le_bytes 8 fill.maker_id)
    ∷ (88, fill.taker_side ∷ [])
    ∷ (89, fill.taker_sub_index ∷ [])
    ∷ (90, fill.maker_sub_index ∷ [])
    ∷ (91, fill.taker_was_jit ∷ [])
    ∷ (92, replicate 4 0)
    ∷ []

abbrev pub slot_base : ℕ → ℕ
slot_base slot_index = fill_outbox_header_len + slot_index * fill_outbox_slot_len

-- The bytes of a slot after a write.
unfoldable pub filled : List ℕ → ℕ → OutboxSlot → List ℕ
filled buf slot_index fill =
    write_fields (slice buf (slot_base slot_index) fill_outbox_slot_len) (slot_fields fill)

unfoldable pub outbox_write_slot : List ℕ → ℕ → ℕ → OutboxSlot → Result FillOutboxError (List ℕ)
outbox_write_slot buf capacity slot_index fill =
    let base = slot_base slot_index in
    if leb capacity slot_index
    then err out_of_range
    else if ltb (length buf) (base + fill_outbox_slot_len)
    then err corrupt
    else ok (splice buf base (filled buf slot_index fill))

-- What a slot's 96 bytes hold.
unfoldable pub decode_slot : List ℕ → OutboxSlot
decode_slot s = record {
  taker = slice s 0 32;
  maker = slice s 32 32;
  size_lots = rd_u64 s 64;
  price_ticks = rd_u64 s 72;
  maker_id = rd_u64 s 80;
  taker_side = get_or s 88 0;
  taker_sub_index = get_or s 89 0;
  maker_sub_index = get_or s 90 0;
  taker_was_jit = get_or s 91 0;
}

unfoldable pub outbox_read_slot : List ℕ → ℕ → ℕ → Result FillOutboxError OutboxSlot
outbox_read_slot buf capacity slot_index =
    let base = slot_base slot_index in
    if leb capacity slot_index
    then err out_of_range
    else if ltb (length buf) (base + fill_outbox_slot_len)
    then err corrupt
    else ok (decode_slot (slice buf base fill_outbox_slot_len))
