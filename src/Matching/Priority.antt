-- ===== src/Matching/Priority.antt =====
-- Price-time priority, for `place_taker_order`, programs/clober/src/lib.rs: the orders that the taker
-- may trade with are filled one after another, from the best on.
use flash_book.Common.{
  ℕ, ◌-◌, ◌≡◌, refl, min, Bool, true, false, not, ◌&&◌, List, [], ◌∷◌, arith, leb, ◌==◌,
  if◌then◌else◌,
}
use flash_book.Orders.{RestingOrder, is_reduce_only}
use flash_book.Matching.{Node, Taker, Match, crosses, is_expired}

-- An order that the taker may trade with.
abbrev pub is_eligible : Taker → RestingOrder → Bool
is_eligible t o = crosses t o.price_ticks && (not (is_expired t o) && not (o.trader == t.trader))

abbrev pub eligible : Taker → List Node → List Node
eligible t [] = []
eligible t ((i, o) ∷ ns) = if is_eligible t o then (i, o) ∷ eligible t ns else eligible t ns

abbrev pub match_with : ℕ → RestingOrder → ℕ → Match
match_with i o fill = record {
  maker_idx = i;
  maker_id = o.order_id;
  fill_lots = fill;
  fill_price = o.price_ticks;
  maker = o.trader;
  maker_sub_index = o.sub_index;
  reduce_only = is_reduce_only o.flags;
}

-- The lots go to the orders in turn, each filled whole before the next gets any.
abbrev pub allocate : ℕ → List Node → List Match
allocate size [] = []
allocate size ((i, o) ∷ ns) =
    if size == 0
    then []
    else match_with i o (min o.size_lots size) ∷ allocate (size - min o.size_lots size) ns

-- No price in the list is better for the taker.
abbrev pub NoBetter : Bool → ℕ → List Node → Type 0
NoBetter side price [] = Unit
NoBetter side price ((i, o) ∷ ns) =
    ((if side then leb price o.price_ticks else leb o.price_ticks price) ≡ true)
    × NoBetter side price ns

-- The best price stands first.
abbrev pub IsBestFirst : Bool → List Node → Type 0
IsBestFirst side [] = Unit
IsBestFirst side ((i, o) ∷ ns) = NoBetter side o.price_ticks ns × IsBestFirst side ns

abbrev pub NoReduceOnly : List Node → Type 0
NoReduceOnly [] = Unit
NoReduceOnly ((i, o) ∷ ns) = (is_reduce_only o.flags ≡ false) × NoReduceOnly ns

-- A price that is no better than one beyond the limit is beyond it.
pub crosses-beyond :
    (t : Taker) (price worse : ℕ)
    → crosses t price ≡ false
    → (if t.side_is_bid then leb price worse else leb worse price) ≡ true
    → crosses t worse ≡ false
crosses-beyond t price worse h b = on_side t.side_is_bid t.limit_ticks h b
  where
    on_side :
        (side : Bool) (limit : ℕ)
        → (if side then leb price limit else leb limit price) ≡ false
        → (if side then leb price worse else leb worse price) ≡ true
        → (if side then leb worse limit else leb limit worse) ≡ false
    on_side true limit e f = ground arith
    on_side false limit e f = ground arith

-- Behind a price beyond the limit, no order is eligible.
pub eligible-beyond :
    (t : Taker) (price : ℕ) (ns : List Node)
    → crosses t price ≡ false
    → NoBetter t.side_is_bid price ns
    → eligible t ns ≡ []
eligible-beyond t price [] h b = refl
eligible-beyond t price ((i, o) ∷ ns) h b =
    rw (crosses-beyond t price o.price_ticks h b.0) (eligible-beyond t price ns h b.1)

pub allocate-zero : (ns : List Node) → allocate 0 ns ≡ []
allocate-zero [] = refl
allocate-zero ((i, o) ∷ ns) = refl
