-- ===== src/Matching/Visits.antt =====
-- The cases of the visit of `place_taker_order`, programs/clober/src/lib.rs, in a walk with room.
use flash_book.Common.{
  ℕ, ◌+◌, ◌≤◌, ◌<◌, ◌≡◌, ◌≢◌, refl, ap, min, true, false, List, ◌∷◌, arith, length, ◌==◌, ltb-false,
  leb-false, ==_true, ==_false,
}
use flash_book.Orders.{RestingOrder, is_reduce_only}
use flash_book.Matching.{
  Node, Taker, Walk, scan_limit, crosses, is_expired, push_match, visit_own, visit_maker, visit,
  walk,
}

-- A visit of an own order goes on and matches nothing, unless both sides are cancelled.
pub own-on :
    (t : Taker) (w : Walk) (i : ℕ)
    → t.stp_mode ≢ 2
    → ((visit_own t w i).1 ≡ true)
      × ((visit_own t w i).0.matches ≡ w.matches)
      × ((visit_own t w i).0.remaining ≡ w.remaining)
      × ((visit_own t w i).0.scanned ≡ w.scanned)
unfolding visit_own
own-on t w i h = ground arith

-- A walk goes on from a visit, or ends with it.
pub walk-on :
    (t : Taker) (w next : Walk) (n : Node) (ns : List Node)
    → visit t w n ≡ (next, true)
    → walk t w (n ∷ ns) ≡ walk t next ns
unfolding walk
walk-on t w next n ns e = rw (walk, ap (λ r. r.1) e, ap (λ r. r.0) e) refl

pub walk-end :
    (t : Taker) (w next : Walk) (n : Node) (ns : List Node)
    → visit t w n ≡ (next, false)
    → walk t w (n ∷ ns) ≡ next
unfolding walk
walk-end t w next n ns e = rw (walk, ap (λ r. r.1) e, ap (λ r. r.0) e) refl

-- The visits of a walk with room.
module _ (t : Taker) (before : Walk) (i : ℕ) (o : RestingOrder)
    (near : before.scanned + 1 ≤ scan_limit t) (room : length before.matches < t.walk_limit) where
  abbrev pub counted : Walk
  counted = record before { scanned = before.scanned + 1 }

  pub visit-done : before.remaining ≡ 0 → visit t before (i, o) ≡ (counted, false)
  unfolding visit
  visit-done done = rw (ltb-false _ _ near, leb-false _ _ room, ==_true _ _ done) refl

  pub visit-beyond :
      before.remaining ≢ 0
      → crosses t o.price_ticks ≡ false
      → visit t before (i, o) ≡ (counted, false)
  unfolding visit
  visit-beyond left beyond =
      rw (ltb-false _ _ near, leb-false _ _ room, ==_false _ _ left, beyond) refl

  pub visit-old :
      before.remaining ≢ 0
      → crosses t o.price_ticks ≡ true
      → is_expired t o ≡ true
      → visit t before (i, o) ≡ (counted, true)
  unfolding visit
  visit-old left within old =
      rw (ltb-false _ _ near, leb-false _ _ room, ==_false _ _ left, within, old) refl

  pub visit-own :
      before.remaining ≢ 0
      → crosses t o.price_ticks ≡ true
      → is_expired t o ≡ false
      → (o.trader == t.trader) ≡ true
      → visit t before (i, o) ≡ visit_own t counted i
  unfolding visit
  visit-own left within live own =
      rw (ltb-false _ _ near, leb-false _ _ room, ==_false _ _ left, within, live, own) refl

  pub visit-maker :
      before.remaining ≢ 0
      → crosses t o.price_ticks ≡ true
      → is_expired t o ≡ false
      → (o.trader == t.trader) ≡ false
      → is_reduce_only o.flags ≡ false
      → visit t before (i, o) ≡ (push_match counted i o (min o.size_lots before.remaining), true)
  unfolding visit visit_maker
  visit-maker left within live other free =
      rw (ltb-false _ _ near, leb-false _ _ room, ==_false _ _ left, within, live, other, free) refl
