-- ===== src/Orders.antt =====
-- Lots and orders: programs/clober/src/matcher/lot.rs and matcher/order.rs. The wrapper types of
-- lots, ticks and basis points are plain numbers.
pub mod Keys
mod Tests
use flash_book.Common.{
  ℕ, ◌+◌, ◌-◌, ◌*◌, ◌/◌, ◌%◌, ◌^◌, min, Bool, true, false, ltb, leb, ◌==◌, if◌then◌else◌, Result,
  ok, err, ok_or, ◌>>=◌, u64, u128, checked_mul,
}
use flash_book.Errors.{CloberError, arithmetic_overflow}

pub data Side : Type 0 where
  long short : Side

unfoldable pub opposite : Side → Side
opposite long = short
opposite short = long

abbrev pub is_long : Side → Bool
is_long long = true
is_long short = false

pub data OrderType : Type 0 where
  limit taker lp_virtual liquidation adl : OrderType

unfoldable pub priority : OrderType → ℕ
priority liquidation = 0
priority adl = 1
priority taker = 2
priority lp_virtual = 3
priority limit = 4

pub data StpMode : Type 0 where
  cancel_newest cancel_oldest cancel_both : StpMode

unfoldable pub from_u8 : ℕ → StpMode
from_u8 v = if v == 1 then cancel_oldest else if v == 2 then cancel_both else cancel_newest

-- The product in 128 bits, if it fits in a u64.
unfoldable pub notional_quote_lots : ℕ → ℕ → ℕ → Result CloberError ℕ
notional_quote_lots base price tick_size = do
  base_scaled ← ok_or (checked_mul u128 base price) arithmetic_overflow
  quote_scaled ← ok_or (checked_mul u128 base_scaled tick_size) arithmetic_overflow
  if ltb quote_scaled u64 then ok quote_scaled else err arithmetic_overflow

-- Resting orders and their keys: programs/clober/src/book_state.rs.
pub record RestingOrder : Type 0 where
  pub order_id : ℕ
  pub seq : ℕ
  pub price_ticks : ℕ
  pub size_lots : ℕ
  pub expires_at_slot : ℕ
  pub trader : ℕ
  pub last_valid_slot : ℕ
  pub side : ℕ
  pub order_type : ℕ
  pub flags : ℕ
  pub sub_index : ℕ

abbrev pub max_price_ticks_encodable : ℕ
max_price_ticks_encodable = 2 ^ 40 - 1

abbrev pub max_seq_encodable : ℕ
max_seq_encodable = 2 ^ 24 - 1

abbrev pub seq_is_encodable : ℕ → Bool
seq_is_encodable seq = leb seq max_seq_encodable

-- The price in the high bits, inverted for bids, and the sequence number in the low ones: `|` of
-- fields that do not overlap is their sum, and a mask of low bits the remainder.
unfoldable pub encode_order_id : ℕ → ℕ → Bool → ℕ
encode_order_id price_ticks seq side_is_bid =
    let price = min price_ticks max_price_ticks_encodable in
    let price_key = if side_is_bid then max_price_ticks_encodable - price else price in
    price_key * 2 ^ 24 + seq % 2 ^ 24

-- `flags & FLAG_REDUCE_ONLY != 0`
abbrev pub is_reduce_only : ℕ → Bool
is_reduce_only flags = flags / 2 % 2 == 1
