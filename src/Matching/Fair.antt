-- ===== src/Matching/Fair.antt =====
-- What every walk keeps, programs/clober/src/lib.rs: the lots add up, and each match is one that the
-- taker and the maker agreed to.
use flash_book.Common.{
  ℕ, ◌+◌, ◌≤◌, ◌<◌, ◌≡◌, ◌≢◌, min, true, List, [], ◌∷◌, ◌++◌, arith, length, length-append, ltb,
  leb, ◌==◌, Bool-cases, inl, inr,
}
use flash_book.Orders.{RestingOrder, is_reduce_only}
use flash_book.Liquidation.{check_reduce_only}
use flash_book.Matching.{
  Node, Taker, Match, Walk, scan_limit, crosses, cap_reduce_only, is_expired, push_match, visit_own,
  visit_maker, visit, walk, start,
}

-- The lots that were matched.
abbrev pub filled : List Match → ℕ
filled [] = 0
filled (m ∷ ms) = m.fill_lots + filled ms

-- A match has lots, at a price within the taker's limit, with another trader.
abbrev pub AreFair : Taker → List Match → Type 0
AreFair t [] = Unit
AreFair t (m ∷ ms) =
    (0 < m.fill_lots) × (crosses t m.fill_price ≡ true) × (m.maker ≢ t.trader) × AreFair t ms

pub record IsFair (t : Taker) (size : ℕ) (w : Walk) : Type 0 where
  pub conserved : filled w.matches + w.remaining ≡ size
  pub fair : AreFair t w.matches
  pub bounded : length w.matches ≤ t.walk_limit

filled-append : (a b : List Match) → filled (a ++ b) ≡ filled a + filled b
filled-append [] b = omega arith
filled-append (m ∷ ms) b = omega (arith, filled-append ms b)

AreFair-append : (t : Taker) (a b : List Match) → AreFair t a → AreFair t b → AreFair t (a ++ b)
AreFair-append t [] b h k = k
AreFair-append t (m ∷ ms) b h k = (h.0, h.1, h.2, AreFair-append t ms b h.3 k)

cap_reduce_only-le :
    (key side fill : ℕ) (positions : List (ℕ × ℕ × ℕ))
    → (cap_reduce_only key side fill positions).0 ≤ fill
unfolding cap_reduce_only check_reduce_only
cap_reduce_only-le key side fill [] = omega arith
cap_reduce_only-le key side fill ((k, position_side, lots) ∷ rest) =
    ground (arith, cap_reduce_only-le key side fill rest)

push_match-IsFair :
    (t : Taker) (size : ℕ) (w : Walk) (idx : ℕ) (o : RestingOrder) (fill : ℕ)
    → IsFair t size w
    → length w.matches < t.walk_limit
    → crosses t o.price_ticks ≡ true
    → o.trader ≢ t.trader
    → 0 < fill
    → fill ≤ w.remaining
    → IsFair t size (push_match w idx o fill)
unfolding push_match
push_match-IsFair t size w idx o fill h room c other some le = record {
  conserved = omega (arith, h.conserved, filled-append w.matches _);
  fair = AreFair-append t w.matches _ h.fair (some, c, other, tt);
  bounded = omega (arith, length-append w.matches _);
}

visit_maker-IsFair :
    (t : Taker) (size : ℕ) (w : Walk) (idx : ℕ) (o : RestingOrder)
    → IsFair t size w
    → length w.matches < t.walk_limit
    → crosses t o.price_ticks ≡ true
    → o.trader ≢ t.trader
    → 0 < w.remaining
    → 0 < o.size_lots
    → IsFair t size (visit_maker t w idx o).0
unfolding visit_maker
visit_maker-IsFair t size w idx o h room c other some lots =
    let key = t.position_key o.trader o.sub_index in
    let fill = min o.size_lots w.remaining in
    let capped = cap_reduce_only key o.side fill w.maker_positions in
    let reserved = record w { maker_positions = capped.1 } in
    let kept : IsFair t size reserved = record {
      conserved = h.conserved;
      fair = h.fair;
      bounded = h.bounded;
    } in
    elim (Bool-cases (is_reduce_only o.flags)) [
      | inl only ↦ elim (Bool-cases (capped.0 == 0)) [
        | inl none ↦ rw (only, none) kept
        | inr some_lots ↦
            rw (only, some_lots)
              (push_match-IsFair t size reserved idx o capped.0 kept room c other (ground arith)
                (omega (arith, cap_reduce_only-le key o.side fill w.maker_positions)))
      ]
      | inr free ↦
          rw free (push_match-IsFair t size w idx o fill h room c other (omega arith) (omega arith))
    ]

-- Every resting order has lots.
abbrev pub HaveLots : List Node → Type 0
HaveLots [] = Unit
HaveLots ((idx, o) ∷ ns) = (0 < o.size_lots) × HaveLots ns

visit_own-IsFair :
    (t : Taker) (size : ℕ) (w : Walk) (idx : ℕ)
    → IsFair t size w
    → IsFair t size (visit_own t w idx).0
unfolding visit_own
visit_own-IsFair t size w idx h = elim (Bool-cases (t.stp_mode == 1)) [
  | inl oldest ↦ rw oldest (record { conserved = h.conserved; fair = h.fair; bounded = h.bounded })
  | inr not_oldest ↦ elim (Bool-cases (t.stp_mode == 2)) [
    | inl both ↦
        rw (not_oldest, both)
          (record { conserved = h.conserved; fair = h.fair; bounded = h.bounded })
    | inr skip ↦ rw (not_oldest, skip) h
  ]
]

visit-IsFair :
    (t : Taker) (size : ℕ) (before : Walk) (idx : ℕ) (o : RestingOrder)
    → IsFair t size before
    → 0 < o.size_lots
    → IsFair t size (visit t before (idx, o)).0
unfolding visit
visit-IsFair t size before idx o h lots =
    elim (Bool-cases (ltb (scan_limit t) (before.scanned + 1))) [
      | inl far ↦ rw far cut
      | inr near ↦ elim (Bool-cases (leb t.walk_limit (length before.matches))) [
        | inl full ↦ rw (near, full) cut
        | inr room ↦ elim (Bool-cases (before.remaining == 0)) [
          | inl done ↦ rw (near, room, done) kept
          | inr left ↦ elim (Bool-cases (crosses t o.price_ticks)) [
            | inr beyond ↦ rw (near, room, left, beyond) kept
            | inl within ↦ elim (Bool-cases (is_expired t o)) [
              | inl old ↦ rw (near, room, left, within, old) kept
              | inr live ↦ elim (Bool-cases (o.trader == t.trader)) [
                | inl own ↦
                    rw (near, room, left, within, live, own) (visit_own-IsFair t size w idx kept)
                | inr other ↦
                    rw (near, room, left, within, live, other)
                      (visit_maker-IsFair t size w idx o kept (ground arith) within (ground arith)
                        (ground arith) lots)
              ]
            ]
          ]
        ]
      ]
    ]
  where
    w : Walk
    w = record before { scanned = before.scanned + 1 }

    kept : IsFair t size w
    kept = record { conserved = h.conserved; fair = h.fair; bounded = h.bounded }

    cut : IsFair t size (record w { walk_truncated = true })
    cut = record { conserved = h.conserved; fair = h.fair; bounded = h.bounded }

walk-IsFair :
    (t : Taker) (size : ℕ) (w : Walk) (ns : List Node)
    → IsFair t size w
    → HaveLots ns
    → IsFair t size (walk t w ns)
unfolding walk
walk-IsFair t size w [] h lots = h
walk-IsFair t size w ((idx, o) ∷ ns) h lots =
    let next = visit-IsFair t size w idx o h lots.0 in
    elim (Bool-cases (visit t w (idx, o)).1) [
      | inl on ↦ rw (walk, on) (walk-IsFair t size (visit t w (idx, o)).0 ns next lots.1)
      | inr stop ↦ rw (walk, stop) next
    ]

-- Whatever the book, whose orders have lots, and whatever the flags: the lots that were matched
-- and those that remain add up to the order, every match has lots at a price within the taker's
-- limit with another trader, and there are at most as many matches as the market allows.
pub start-IsFair :
    (t : Taker) (size : ℕ) (positions : List (ℕ × ℕ × ℕ)) (ns : List Node)
    → HaveLots ns
    → IsFair t size (walk t (start size positions) ns)
start-IsFair t size positions ns lots =
    walk-IsFair t size (start size positions) ns
      (record { conserved = omega arith; fair = tt; bounded = omega arith }) lots
