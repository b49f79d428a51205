-- ===== src/Matching.antt =====
-- Matching: the walk of `place_taker_order`, programs/clober/src/lib.rs, over the opposite side of
-- the book. The visit of the tree is a parameter: the walk is given the nodes in the order in which
-- `for_each_ask_best_first` or `for_each_bid_best_first` visits them, each an index and its order.
pub mod Delivery
pub mod Exhausted
pub mod Fair
pub mod Greedy
pub mod Priority
pub mod Residual
mod Tests
pub mod Visits
use flash_book.Common.{
  ℕ, ◌+◌, ◌-◌, ◌*◌, min, Bool, true, false, not, ◌&&◌, ◌||◌, List, [], ◌∷◌, ◌++◌, ltb, leb, ◌==◌,
  if◌then◌else◌, length,
}
use flash_book.Orders.{RestingOrder, is_reduce_only}
use flash_book.Liquidation.{ReduceOnlyOutcome, admit, partial_admit, reject, check_reduce_only}

-- A node's index, and the order in it.
abbrev pub Node : Type 0
Node = ℕ × RestingOrder

-- What the walk reads of the taker and of the market.
pub record Taker : Type 0 where
  pub side_is_bid : Bool
  pub limit_ticks : ℕ
  pub now_slot : ℕ
  pub trader : ℕ
  pub stp_mode : ℕ
  pub walk_limit : ℕ
  pub position_key : ℕ → ℕ → ℕ

-- One crossed maker order, an entry of `matches`.
pub record Match : Type 0 where
  pub maker_idx : ℕ
  pub maker_id : ℕ
  pub fill_lots : ℕ
  pub fill_price : ℕ
  pub maker : ℕ
  pub maker_sub_index : ℕ
  pub reduce_only : Bool

-- The variables of the walk.
pub record Walk : Type 0 where
  pub scanned : ℕ
  pub matches : List Match
  pub remaining : ℕ
  pub stp_cancels : List ℕ
  pub stp_aborted : Bool
  pub walk_truncated : Bool
  pub maker_positions : List (ℕ × ℕ × ℕ)

abbrev pub scan_limit : Taker → ℕ
scan_limit t = t.walk_limit * 4

abbrev pub crosses : Taker → ℕ → Bool
crosses t price_ticks =
    if t.side_is_bid then leb price_ticks t.limit_ticks else leb t.limit_ticks price_ticks

abbrev pub is_expired : Taker → RestingOrder → Bool
is_expired t o = ltb 0 o.expires_at_slot && ltb o.expires_at_slot t.now_slot

abbrev pub admitted : ReduceOnlyOutcome → ℕ → ℕ
admitted admit fill = fill
admitted (partial_admit most) fill = most
admitted reject fill = 0

-- The fill that a reduce-only maker's position admits, and the positions with it reserved.
unfoldable pub cap_reduce_only : ℕ → ℕ → ℕ → List (ℕ × ℕ × ℕ) → ℕ × List (ℕ × ℕ × ℕ)
cap_reduce_only key side fill [] = (0, [])
cap_reduce_only key side fill ((k, position_side, lots) ∷ rest) =
    let tail = cap_reduce_only key side fill rest in
    let c = admitted (check_reduce_only position_side lots side fill) fill in
    if k == key
    then (c, (k, position_side, lots - c) ∷ rest)
    else (tail.0, (k, position_side, lots) ∷ tail.1)

-- A match with the maker's order is recorded.
unfoldable pub push_match : Walk → ℕ → RestingOrder → ℕ → Walk
push_match w idx o fill = record w {
  matches =
      w.matches
      ++ record {
        maker_idx = idx;
        maker_id = o.order_id;
        fill_lots = fill;
        fill_price = o.price_ticks;
        maker = o.trader;
        maker_sub_index = o.sub_index;
        reduce_only = is_reduce_only o.flags;
      }
        ∷ [];
  remaining = w.remaining - fill;
}

-- An order of the taker's own: the walk goes on where the second component says so.
unfoldable pub visit_own : Taker → Walk → ℕ → Walk × Bool
visit_own t w idx =
    if t.stp_mode == 1
    then (record w { stp_cancels = w.stp_cancels ++ idx ∷ [] }, true)
    else if t.stp_mode == 2
    then (record w { stp_aborted = true }, false)
    else (w, true)

unfoldable pub visit_maker : Taker → Walk → ℕ → RestingOrder → Walk × Bool
visit_maker t w idx o =
    let fill = min o.size_lots w.remaining in
    let capped =
      cap_reduce_only (t.position_key o.trader o.sub_index) o.side fill w.maker_positions in
    if is_reduce_only o.flags
    then (let reserved = record w { maker_positions = capped.1 } in
        if capped.0 == 0 then (reserved, true) else (push_match reserved idx o capped.0, true))
    else (push_match w idx o fill, true)

-- The body of the visit.
unfoldable pub visit : Taker → Walk → Node → Walk × Bool
visit t before (idx, o) =
    let w = record before { scanned = before.scanned + 1 } in
    if ltb (scan_limit t) w.scanned
    then (record w { walk_truncated = true }, false)
    else if leb t.walk_limit (length w.matches)
    then (record w { walk_truncated = true }, false)
    else if w.remaining == 0
    then (w, false)
    else if not (crosses t o.price_ticks)
    then (w, false)
    else if is_expired t o
    then (w, true)
    else if o.trader == t.trader
    then visit_own t w idx
    else visit_maker t w idx o

unfoldable pub walk : Taker → Walk → List Node → Walk
walk t w [] = w
walk t w (n ∷ ns) = let r = visit t w n in elim r.1 [ true ↦ walk t r.0 ns | false ↦ r.0 ]

-- The variables before the walk.
abbrev pub start : ℕ → List (ℕ × ℕ × ℕ) → Walk
start size_lots maker_positions = record {
  scanned = 0;
  matches = [];
  remaining = size_lots;
  stp_cancels = [];
  stp_aborted = false;
  walk_truncated = false;
  maker_positions = maker_positions;
}
