-- ===== src/Matching/Exhausted.antt =====
-- What the walk of `place_taker_order`, programs/clober/src/lib.rs, leaves on the book: the cases of
-- a visit, whatever the flags.
use mathlib.Core.List.{append_assoc, append-nil}
use flash_book.Common.{
  ℕ, ◌+◌, ◌-◌, ◌≤◌, ◌≡◌, ◌⊎◌, refl, sym, ap, ◌∙◌, min, Bool, true, false, List, [], ◌∷◌, ◌++◌,
  arith, length, ltb, leb, ◌==◌, Bool-cases, inl, inr,
}
use flash_book.Orders.{RestingOrder, is_reduce_only}
use flash_book.Matching.{
  Node, Taker, Match, Walk, scan_limit, crosses, is_expired, cap_reduce_only, push_match, visit_own,
  visit_maker, visit, walk,
}
use flash_book.Matching.Priority.{match_with}

-- An order that the walk may leave within the limit.
abbrev pub IsLeft : Taker → RestingOrder → Type 0
IsLeft t o =
    (is_expired t o ≡ true) ⊎ ((o.trader == t.trader) ≡ true) ⊎ (is_reduce_only o.flags ≡ true)

-- What a visit did.
pub data Visited (t : Taker) (before : Walk) (i : ℕ) (o : RestingOrder) (r : Walk × Bool)
    : Type 0 where
  stopped :
      r.1 ≡ false
      → r.0.matches ≡ before.matches
      → r.0.remaining ≡ before.remaining
      → (r.0.walk_truncated ≡ true)
        ⊎ (before.remaining ≡ 0)
        ⊎ (r.0.stp_aborted ≡ true)
        ⊎ (crosses t o.price_ticks ≡ false)
      → Visited t before i o r
  passed :
      r.1 ≡ true
      → r.0.matches ≡ before.matches
      → r.0.remaining ≡ before.remaining
      → IsLeft t o
      → Visited t before i o r
  matched :
      (fill : ℕ)
      → r.1 ≡ true
      → r.0.matches ≡ before.matches ++ match_with i o fill ∷ []
      → r.0.remaining ≡ before.remaining - fill
      → (is_reduce_only o.flags ≡ true) ⊎ (fill ≡ min o.size_lots before.remaining)
      → Visited t before i o r

own-Visited :
    (t : Taker) (before : Walk) (i : ℕ) (o : RestingOrder)
    → (o.trader == t.trader) ≡ true
    → Visited t before i o (visit_own t (record before { scanned = before.scanned + 1 }) i)
unfolding visit_own
own-Visited t before i o own = elim (Bool-cases (t.stp_mode == 1)) [
  | inl oldest ↦ rw oldest (passed refl refl refl (inr (inl own)))
  | inr not_oldest ↦ elim (Bool-cases (t.stp_mode == 2)) [
    | inl both ↦ rw (not_oldest, both) (stopped refl refl refl (inr (inr (inl refl))))
    | inr skip ↦ rw (not_oldest, skip) (passed refl refl refl (inr (inl own)))
  ]
]

push_match-lem :
    (w : Walk) (i : ℕ) (o : RestingOrder) (fill : ℕ)
    → ((push_match w i o fill).matches ≡ w.matches ++ match_with i o fill ∷ [])
      × ((push_match w i o fill).remaining ≡ w.remaining - fill)
unfolding push_match
push_match-lem w i o fill = (refl, refl)

maker-Visited :
    (t : Taker) (before : Walk) (i : ℕ) (o : RestingOrder)
    → Visited t before i o (visit_maker t (record before { scanned = before.scanned + 1 }) i o)
unfolding visit_maker
maker-Visited t before i o =
    let w = record before { scanned = before.scanned + 1 } in
    let fill = min o.size_lots before.remaining in
    let capped =
      cap_reduce_only (t.position_key o.trader o.sub_index) o.side fill before.maker_positions in
    elim (Bool-cases (is_reduce_only o.flags)) [
      | inl only ↦ elim (Bool-cases (capped.0 == 0)) [
        | inl none ↦ rw (only, none) (passed refl refl refl (inr (inr only)))
        | inr some_lots ↦
            let pushed = push_match-lem (record w { maker_positions = capped.1 }) i o capped.0 in
            rw (only, some_lots) (matched capped.0 refl pushed.0 pushed.1 (inl only))
      ]
      | inr free ↦
          let pushed = push_match-lem w i o fill in
          rw free (matched fill refl pushed.0 pushed.1 (inr refl))
    ]

pub visit-Visited :
    (t : Taker) (before : Walk) (i : ℕ) (o : RestingOrder)
    → Visited t before i o (visit t before (i, o))
unfolding visit
visit-Visited t before i o = elim (Bool-cases (ltb (scan_limit t) (before.scanned + 1))) [
  | inl far ↦ rw far (stopped refl refl refl (inl refl))
  | inr near ↦ elim (Bool-cases (leb t.walk_limit (length before.matches))) [
    | inl full ↦ rw (near, full) (stopped refl refl refl (inl refl))
    | inr room ↦ elim (Bool-cases (before.remaining == 0)) [
      | inl done ↦ rw (near, room, done) (stopped refl refl refl (inr (inl (ground arith))))
      | inr left ↦ elim (Bool-cases (crosses t o.price_ticks)) [
        | inr beyond ↦
            rw (near, room, left, beyond) (stopped refl refl refl (inr (inr (inr beyond))))
        | inl within ↦ elim (Bool-cases (is_expired t o)) [
          | inl old ↦ rw (near, room, left, within, old) (passed refl refl refl (inl old))
          | inr live ↦ elim (Bool-cases (o.trader == t.trader)) [
            | inl own ↦ rw (near, room, left, within, live, own) (own-Visited t before i o own)
            | inr other ↦ rw (near, room, left, within, live, other) (maker-Visited t before i o)
          ]
        ]
      ]
    ]
  ]
]

-- The matches of a walk go on from those before it, and the lots that remain only shrink.
pub record IsGrown (w r : Walk) : Type 0 where
  pub more : List Match
  pub grown : r.matches ≡ w.matches ++ more
  pub less : r.remaining ≤ w.remaining

IsGrown-same : (w r : Walk) → r.matches ≡ w.matches → r.remaining ≡ w.remaining → IsGrown w r
IsGrown-same w r m e = record {
  more = [];
  grown = m ∙ sym (append-nil w.matches);
  less = omega arith;
}

IsGrown-trans : (a b c : Walk) → IsGrown a b → IsGrown b c → IsGrown a c
IsGrown-trans a b c f g = record {
  more = f.more ++ g.more;
  grown = g.grown ∙ ap (λ l. l ++ g.more) f.grown ∙ append_assoc a.matches f.more g.more;
  less = omega (arith, f.less, g.less);
}

Visited-IsGrown :
    (t : Taker) (w : Walk) (i : ℕ) (o : RestingOrder) (r : Walk × Bool)
    → Visited t w i o r
    → IsGrown w r.0
Visited-IsGrown t w i o r (stopped on m e why) = IsGrown-same w r.0 m e
Visited-IsGrown t w i o r (passed on m e why) = IsGrown-same w r.0 m e
Visited-IsGrown t w i o r (matched fill on m e why) = record {
  more = match_with i o fill ∷ [];
  grown = m;
  less = omega arith;
}

pub walk-IsGrown : (t : Taker) (w : Walk) (ns : List Node) → IsGrown w (walk t w ns)
unfolding walk
walk-IsGrown t w [] = IsGrown-same w w refl refl
walk-IsGrown t w ((i, o) ∷ ns) =
    let r = visit t w (i, o) in
    let step = Visited-IsGrown t w i o r (visit-Visited t w i o) in
    elim (Bool-cases r.1) [
      | inl on ↦ rw (walk, on) (IsGrown-trans w r.0 (walk t r.0 ns) step (walk-IsGrown t r.0 ns))
      | inr stop ↦ rw (walk, stop) step
    ]

-- An order that is matched whole.
abbrev pub IsTaken : List Match → ℕ → RestingOrder → Type 0
IsTaken ms i o = (a : List Match) × (b : List Match) × (ms ≡ a ++ match_with i o o.size_lots ∷ b)

-- No order is left within the limit that could trade.
abbrev pub AreExhausted : Taker → List Match → List Node → Type 0
AreExhausted t ms [] = Unit
AreExhausted t ms ((i, o) ∷ ns) =
    ((crosses t o.price_ticks ≡ false) ⊎ IsLeft t o ⊎ IsTaken ms i o) × AreExhausted t ms ns
