-- ===== src/Matching/Tests.antt =====
-- Runs of the walk of `place_taker_order`, programs/clober/src/lib.rs, and instances of its theorems.
use flash_book.Common.{ℕ, ◌+◌, ◌*◌, ◌≡◌, refl, true, false, List, [], ◌∷◌, arith, length, ok}
use flash_book.Orders.{RestingOrder, encode_order_id}
use flash_book.Matching.{Node, Taker, push_match, visit_own, visit_maker, visit, walk, start}
use flash_book.Matching.Fair.{IsFair, start-IsFair}
use flash_book.Matching.Priority.{eligible, allocate}
use flash_book.Matching.Greedy.{start-greedy}
use flash_book.Matching.Exhausted.{AreExhausted}
use flash_book.Matching.Residual.{
  Terms, require_terms, residual_rests, price_within_band, residual_rests-AreExhausted,
}

-- A buyer of up to 101 who cancels its oldest resting order, in slot 50.
abbrev buyer : Taker
buyer = record {
  side_is_bid = true;
  limit_ticks = 101;
  now_slot = 50;
  trader = 7;
  stp_mode = 1;
  walk_limit = 96;
  position_key = λ trader sub. trader * 256 + sub;
}

abbrev ask_of : ℕ → ℕ → ℕ → ℕ → ℕ → ℕ → RestingOrder
ask_of seq price size expires trader flags = record {
  order_id = encode_order_id price seq false;
  seq = seq;
  price_ticks = price;
  size_lots = size;
  expires_at_slot = expires;
  trader = trader;
  last_valid_slot = 0;
  side = 1;
  order_type = 0;
  flags = flags;
  sub_index = 0;
}

-- An expired order, one to trade with, one of the taker's own, one to trade with, one beyond.
abbrev asks : List Node
asks =
    (0, ask_of 1 99 10 40 8 0)
    ∷ (1, ask_of 2 100 4 0 9 0)
    ∷ (2, ask_of 3 100 5 0 7 0)
    ∷ (3, ask_of 4 101 6 60 8 0)
    ∷ (4, ask_of 5 102 9 0 9 0)
    ∷ []

walk-asks :
    let w = walk buyer (start 8 []) asks in
    (w.remaining ≡ 0)
    × (w.stp_cancels ≡ 2 ∷ [])
    × (length w.matches ≡ 2)
    × (w.walk_truncated ≡ false)
unfolding walk visit visit_own visit_maker push_match encode_order_id
walk-asks = (refl, refl, refl, refl)

start-greedy_example : (walk buyer (start 8 []) asks).matches ≡ allocate 8 (eligible buyer asks)
start-greedy_example =
    start-greedy buyer 8 [] asks (ground arith) (ground arith) (ground arith) (omega arith)

-- With a reduce-only order of trader 9, whose position is 3 lots long.
abbrev reducing : List Node
reducing = (0, ask_of 1 99 10 0 9 2) ∷ (1, ask_of 2 100 4 0 8 0) ∷ []

start-IsFair_example : IsFair buyer 8 (walk buyer (start 8 ((9 * 256, 0, 3) ∷ [])) reducing)
start-IsFair_example = start-IsFair buyer 8 ((9 * 256, 0, 3) ∷ []) reducing (ground arith)

-- An order of 30 lots, of which a part rests.
abbrev terms : Terms
terms = record {
  post_only = false;
  ioc = false;
  fok = false;
  min_base_lots = 1;
  oracle_price_ticks = 100;
}

accepted : require_terms terms (walk buyer (start 30 []) asks) ≡ ok tt
unfolding require_terms walk visit visit_own visit_maker push_match
accepted = refl

rested : residual_rests terms buyer (walk buyer (start 30 []) asks) ≡ true
unfolding residual_rests price_within_band walk visit visit_own visit_maker push_match
rested = refl

residual_rests-AreExhausted_example :
    AreExhausted buyer (walk buyer (start 30 []) asks).matches asks
residual_rests-AreExhausted_example =
    residual_rests-AreExhausted terms buyer 30 [] asks (ground arith) accepted rested
