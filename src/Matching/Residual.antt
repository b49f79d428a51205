-- ===== src/Matching/Residual.antt =====
-- What follows the walk of `place_taker_order`, programs/clober/src/lib.rs: its refusals, and whether
-- the rest of the order is left on the book; with `price_within_band` of
-- programs/clober/src/matcher/lp_quoter.rs.
use mathlib.Core.Path.{subst}
use mathlib.Core.List.{append_assoc}
use flash_book.Common.{
  abs_diff, ℕ, ◌-◌, ◌*◌, ◌<◌, ◌≡◌, refl, sym, ap, ◌∙◌, min, Bool, true, false, not, ◌&&◌, List, [],
  ◌∷◌, ◌++◌, arith, length, ltb, leb, ◌==◌, if◌then◌else◌, Bool-cases, inl, inr, Result, ok, ◌>>◌,
  require,
}
use flash_book.Errors.{CloberError, self_trade, post_only_would_cross, fill_or_kill_not_filled}
use flash_book.Orders.{RestingOrder}
use flash_book.Matching.{Node, Taker, Match, Walk, crosses, visit, walk, start}
use flash_book.Matching.Priority.{match_with, IsBestFirst, NoBetter, crosses-beyond}
use flash_book.Matching.Visits.{walk-on, walk-end}
use flash_book.Matching.Exhausted.{
  stopped, passed, matched, visit-Visited, IsGrown, walk-IsGrown, IsTaken, AreExhausted,
}

-- The flags of the order, and what the market's parameters ask of one that rests.
pub record Terms : Type 0 where
  pub post_only : Bool
  pub ioc : Bool
  pub fok : Bool
  pub min_base_lots : ℕ
  pub oracle_price_ticks : ℕ

abbrev pub max_resting_order_deviation_bps : ℕ
max_resting_order_deviation_bps = 5000

unfoldable pub price_within_band : ℕ → ℕ → ℕ → Bool
price_within_band oracle_ticks price_ticks max_dev_bps =
    if oracle_ticks == 0
    then true
    else leb (abs_diff oracle_ticks price_ticks * 10000) (oracle_ticks * max_dev_bps)

-- The refusals after the walk.
unfoldable pub require_terms : Terms → Walk → Result CloberError (Unit {0})
require_terms p w = do
  require (not w.stp_aborted) self_trade
  require (not (p.post_only && not (length w.matches == 0))) post_only_would_cross
  require (not (p.fok && ltb 0 w.remaining)) fill_or_kill_not_filled

unfoldable pub residual_rests : Terms → Taker → Walk → Bool
residual_rests p t w =
    ltb 0 w.remaining
    && not p.ioc
    && not w.walk_truncated
    && leb p.min_base_lots w.remaining
    && price_within_band p.oracle_price_ticks t.limit_ticks max_resting_order_deviation_bps

beyond-AreExhausted :
    (t : Taker) (price : ℕ) (ms : List Match) (ns : List Node)
    → crosses t price ≡ false
    → NoBetter t.side_is_bid price ns
    → AreExhausted t ms ns
beyond-AreExhausted t price ms [] h b = tt
beyond-AreExhausted t price ms ((i, o) ∷ ns) h b =
    (inl (crosses-beyond t price o.price_ticks h b.0), beyond-AreExhausted t price ms ns h b.1)

-- A match that leaves lots to match took the whole order.
taken :
    (i : ℕ) (o : RestingOrder) (fill : ℕ) (w next final : Walk)
    → next.matches ≡ w.matches ++ match_with i o fill ∷ []
    → next.remaining ≡ w.remaining - fill
    → fill ≡ min o.size_lots w.remaining
    → IsGrown next final
    → 0 < final.remaining
    → IsTaken final.matches i o
taken i o fill w next final m e f g some =
    let whole : fill ≡ o.size_lots = omega (arith, g.less) in
    (
      w.matches,
      g.more,
      g.grown
          ∙ ap (λ l. l ++ g.more) m
          ∙ append_assoc w.matches (match_with i o fill ∷ []) g.more
          ∙ ap (λ l. w.matches ++ match_with i o l ∷ g.more) whole,
    )

walk-AreExhausted :
    (t : Taker) (ns : List Node) (w final : Walk)
    → walk t w ns ≡ final
    → IsBestFirst t.side_is_bid ns
    → final.walk_truncated ≡ false
    → final.stp_aborted ≡ false
    → 0 < final.remaining
    → AreExhausted t final.matches ns
walk-AreExhausted t [] w final e s untruncated unaborted some = tt
walk-AreExhausted t ((i, o) ∷ ns) w final e s untruncated unaborted some =
    elim (visit-Visited t w i o) [
      | stopped off m r why ↦ elim why [
        | inl cut ↦ absurd (ground (arith, ap (λ v. v.walk_truncated) (here off)))
        | inr (inl done) ↦ absurd (omega (arith, ap (λ v. v.remaining) (here off)))
        | inr (inr (inl aborted)) ↦ absurd (ground (arith, ap (λ v. v.stp_aborted) (here off)))
        | inr (inr (inr far)) ↦
            (inl far, beyond-AreExhausted t o.price_ticks final.matches ns far s.0)
      ]
      | passed on m r left ↦ (
        inr (inl left),
        walk-AreExhausted t ns (visit t w (i, o)).0 final (onward on) s.1 untruncated unaborted
            some,
      )
      | matched fill on m r how ↦ (
        inr (elim how [
          | inl only ↦ inl (inr (inr only))
          | inr fits ↦ inr (
              taken i o fill w (visit t w (i, o)).0 final m r fits
                (subst (IsGrown (visit t w (i, o)).0) (onward on)
                  (walk-IsGrown t (visit t w (i, o)).0 ns))
                some)
        ]),
        walk-AreExhausted t ns (visit t w (i, o)).0 final (onward on) s.1 untruncated unaborted
            some,
      )
    ]
  where
    onward : (visit t w (i, o)).1 ≡ true → walk t (visit t w (i, o)).0 ns ≡ final
    onward on =
        sym (walk-on t w (visit t w (i, o)).0 (i, o) ns (ap (λ b. ((visit t w (i, o)).0, b)) on))
        ∙ e

    here : (visit t w (i, o)).1 ≡ false → (visit t w (i, o)).0 ≡ final
    here off =
        sym (walk-end t w (visit t w (i, o)).0 (i, o) ns (ap (λ b. ((visit t w (i, o)).0, b)) off))
        ∙ e

terms_kept : (p : Terms) (w : Walk) → require_terms p w ≡ ok tt → w.stp_aborted ≡ false
unfolding require_terms
terms_kept p w h = ground arith

rests_kept :
    (p : Terms) (t : Taker) (w : Walk)
    → residual_rests p t w ≡ true
    → (0 < w.remaining) × (w.walk_truncated ≡ false)
unfolding residual_rests
rests_kept p t w h = elim (Bool-cases (ltb 0 w.remaining)) [
  | inr none ↦ absurd (ground arith)
  | inl some ↦ elim (Bool-cases w.walk_truncated) [
    | inl cut ↦ absurd (ground arith)
    | inr whole ↦ (ground arith, whole)
  ]
]

-- The rest of an order never crosses the book: where it is left on it after the walk of a book
-- that is sorted by price, best first, every order within its limit was matched whole, or is
-- expired, the taker's own or reduce-only.
pub residual_rests-AreExhausted :
    (p : Terms) (t : Taker) (size : ℕ) (positions : List (ℕ × ℕ × ℕ)) (ns : List Node)
    → IsBestFirst t.side_is_bid ns
    → require_terms p (walk t (start size positions) ns) ≡ ok tt
    → residual_rests p t (walk t (start size positions) ns) ≡ true
    → AreExhausted t (walk t (start size positions) ns).matches ns
residual_rests-AreExhausted p t size positions ns s terms rests =
    let w = walk t (start size positions) ns in
    let kept = rests_kept p t w rests in
    walk-AreExhausted t ns (start size positions) w refl s kept.1 (terms_kept p w terms) kept.0
