-- ===== src/Matching/Greedy.antt =====
-- The walk of `place_taker_order`, programs/clober/src/lib.rs, against price-time priority.
use mathlib.Core.List.{append_assoc, append-nil}
use flash_book.Common.{
  ℕ, ◌+◌, ◌≤◌, ◌<◌, ◌≡◌, ◌≢◌, refl, sym, ap, ◌∙◌, min, true, false, List, [], ◌∷◌, ◌++◌, arith,
  length, length-append, ◌==◌, Bool-cases, inl, inr, ==_false,
}
use flash_book.Orders.{RestingOrder}
use flash_book.Matching.{
  Node, Taker, Walk, scan_limit, crosses, is_expired, push_match, visit_own, visit, walk, start,
}
use flash_book.Matching.Priority.{
  is_eligible, eligible, allocate, IsBestFirst, NoReduceOnly, eligible-beyond, allocate-zero,
}
use flash_book.Matching.Visits.{
  own-on, walk-on, walk-end, counted, visit-done, visit-beyond, visit-old, visit-own, visit-maker,
}

-- A walk with room for every node, with how far it has come.
pub record HasRoom (t : Taker) (w : Walk) (ns : List Node) : Type 0 where
  pub matches_left : length w.matches + length ns ≤ t.walk_limit
  pub scans_left : w.scanned + length ns ≤ scan_limit t

walk-nil : (t : Taker) (w : Walk) → walk t w [] ≡ w
unfolding walk
walk-nil t w = refl

-- Orders in the order of their prices, with room for all of them.
pub record IsServed (t : Taker) (before : Walk) (ns : List Node) : Type 0 where
  pub sorted : IsBestFirst t.side_is_bid ns
  pub free : NoReduceOnly ns
  pub room : HasRoom t before ns

-- What the walk of such a book matches.
abbrev IsGreedy : Taker → Walk → List Node → Type 0
IsGreedy t before ns =
    (walk t before ns).matches ≡ before.matches ++ allocate before.remaining (eligible t ns)

module _ (t : Taker) (before : Walk) (i : ℕ) (o : RestingOrder) (ns : List Node)
    (h : IsServed t before ((i, o) ∷ ns)) where
  abbrev next_counted : Walk
  next_counted = record before { scanned = before.scanned + 1 }

  near : before.scanned + 1 ≤ scan_limit t
  near = omega (arith, h.room.scans_left)

  enough : length before.matches < t.walk_limit
  enough = omega (arith, h.room.matches_left)

  IsGreedy-end :
      visit t before (i, o) ≡ (next_counted, false)
      → allocate before.remaining (eligible t ((i, o) ∷ ns)) ≡ []
      → IsGreedy t before ((i, o) ∷ ns)
  IsGreedy-end e none =
      ap (λ w. w.matches) (walk-end t before next_counted (i, o) ns e)
      ∙ rw none (sym (append-nil before.matches))

  -- A visit that matches nothing and goes on.
  IsGreedy-pass :
      (next : Walk)
      → visit t before (i, o) ≡ (next, true)
      → next.matches ≡ before.matches
      → next.remaining ≡ before.remaining
      → next.scanned ≡ before.scanned + 1
      → is_eligible t o ≡ false
      → (IsServed t next ns → IsGreedy t next ns)
      → IsGreedy t before ((i, o) ∷ ns)
  IsGreedy-pass next e m r c skipped rest =
      ap (λ w. w.matches) (walk-on t before next (i, o) ns e)
      ∙ rest (record {
        sorted = h.sorted.1;
        free = h.free.1;
        room = record {
          matches_left = omega (arith, h.room.matches_left, ap length m);
          scans_left = omega (arith, h.room.scans_left, c);
        };
      })
      ∙ rw (m, r, skipped) refl

  IsGreedy-match :
      before.remaining ≢ 0
      → visit t before (i, o)
        ≡ (push_match next_counted i o (min o.size_lots before.remaining), true)
      → is_eligible t o ≡ true
      → (IsServed t (push_match next_counted i o (min o.size_lots before.remaining)) ns
          → IsGreedy t (push_match next_counted i o (min o.size_lots before.remaining)) ns)
      → IsGreedy t before ((i, o) ∷ ns)
  unfolding push_match
  IsGreedy-match left e taken rest =
      let next = push_match next_counted i o (min o.size_lots before.remaining) in
      ap (λ w. w.matches) (walk-on t before next (i, o) ns e)
      ∙ rest (record {
        sorted = h.sorted.1;
        free = h.free.1;
        room = record {
          matches_left = omega (arith, h.room.matches_left, length-append before.matches _);
          scans_left = omega (arith, h.room.scans_left);
        };
      })
      ∙ append_assoc before.matches _ _
      ∙ rw (taken, ==_false _ _ left) refl

walk-IsGreedy :
    (t : Taker)
    → t.stp_mode ≢ 2
    → (ns : List Node) (before : Walk) → IsServed t before ns
    → IsGreedy t before ns
walk-IsGreedy t mode [] before h =
    ap (λ w. w.matches) (walk-nil t before) ∙ sym (append-nil before.matches)
walk-IsGreedy t mode ((i, o) ∷ ns) before h = elim (Bool-cases (before.remaining == 0)) [
  | inl done ↦
      let zero_left : before.remaining ≡ 0 = ground arith in
      IsGreedy-end t before i o ns h (visit-done t before i o near_scan enough_room zero_left)
        (rw zero_left (allocate-zero (eligible t ((i, o) ∷ ns))))
  | inr some ↦
      let left : before.remaining ≢ 0 = ground arith in
      elim (Bool-cases (crosses t o.price_ticks)) [
        | inr beyond ↦
            IsGreedy-end t before i o ns h
              (visit-beyond t before i o near_scan enough_room left beyond)
              (rw (beyond, eligible-beyond t o.price_ticks ns beyond h.sorted.0) refl)
        | inl within ↦ elim (Bool-cases (is_expired t o)) [
          | inl old ↦
              IsGreedy-pass t before i o ns h (counted t before i o near_scan enough_room)
                (visit-old t before i o near_scan enough_room left within old) refl refl refl
                (rw (within, old) refl) (walk-IsGreedy t mode ns _)
          | inr live ↦ elim (Bool-cases (o.trader == t.trader)) [
            | inl own ↦
                let w = counted t before i o near_scan enough_room in
                let facts = own-on t w i mode in
                IsGreedy-pass t before i o ns h (visit_own t w i).0
                  (visit-own t before i o near_scan enough_room left within live own
                    ∙ ap (λ b. ((visit_own t w i).0, b)) facts.0)
                  facts.1 facts.2 facts.3 (rw (within, live, own) refl) (walk-IsGreedy t mode ns _)
            | inr other ↦
                IsGreedy-match t before i o ns h left
                  (visit-maker t before i o near_scan enough_room left within live other h.free.0)
                  (rw (within, live, other) refl) (walk-IsGreedy t mode ns _)
          ]
        ]
      ]
]
  where
    near_scan : before.scanned + 1 ≤ scan_limit t
    near_scan = near t before i o ns h

    enough_room : length before.matches < t.walk_limit
    enough_room = enough t before i o ns h

-- Price-time priority: in a book that is sorted by price, best first, without reduce-only orders
-- and with no more orders than the market's walk allows, and for a taker that does not cancel
-- both sides, the walk matches exactly the orders within the limit that are neither expired nor
-- the taker's own, in the order of the book, each filled whole before the next gets any lots.
pub start-greedy :
    (t : Taker) (size : ℕ) (positions : List (ℕ × ℕ × ℕ)) (ns : List Node)
    → t.stp_mode ≢ 2
    → IsBestFirst t.side_is_bid ns
    → NoReduceOnly ns
    → length ns ≤ t.walk_limit
    → (walk t (start size positions) ns).matches ≡ allocate size (eligible t ns)
start-greedy t size positions ns mode sorted free room =
    walk-IsGreedy t mode ns (start size positions) (record {
      sorted = sorted;
      free = free;
      room = record { matches_left = omega (arith, room); scans_left = omega (arith, room) };
    })
