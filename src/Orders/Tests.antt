-- ===== src/Orders/Tests.antt =====
-- Keys of resting orders, programs/clober/src/book_state.rs, at concrete prices.
use flash_book.Common.{◌<◌, ◌↔◌, true, arith, u64}
use flash_book.Orders.{encode_order_id}
use flash_book.Orders.Keys.{HasPriority, encode_order_id-HasPriority}

encode_order_id-HasPriority_example :
    (encode_order_id 101 9 true < encode_order_id 100 3 true ↔ HasPriority true 101 9 100 3)
    × (encode_order_id 101 9 true < u64)
encode_order_id-HasPriority_example =
    encode_order_id-HasPriority 101 9 100 3 true (omega arith) (omega arith) (omega arith)
      (omega arith)
