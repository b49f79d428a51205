-- ===== src/Position/Funding.antt =====
-- How `settle_position_funding` of programs/clober/src/lib.rs moves collateral and Residual.
use flash_book.Common.{
  Ensures-map, ℕ, ◌+◌, ◌≤◌, ◌<◌, ◌≡◌, ◌≢◌, refl, Bool, true, false, ltb, ◌==◌, if◌then◌else◌,
  Result, ok, err, map_ok, u64, u128, arith, Ensures, Returns,
}
use flash_book.Common.Int.{
  *ℤ-zero, -ℤ-self, +ℤ-zero, ℤ, pos, neg, saturated, div_floor, i64, pos_part, neg_part, fits,
}
use flash_book.Errors.{CloberError}
use flash_book.Position.Account.{FundingState, route_funding, funding_owed, settle_position_funding}

-- For an i64 amount and room in the collateral and the Residual, routing succeeds and keeps
-- their sum. A charge takes the amount or empties the collateral, a receipt pays the amount or
-- empties the Residual, and the collateral moves by no more than the amount.
pub route_funding_lem :
    (owed : ℤ) (collateral residual : ℕ)
    → fits i64 owed ≡ true
    → collateral + neg_part owed < u64
    → residual + pos_part owed < u128
    → Returns (route_funding owed collateral residual) λ q.
      (q.0 + q.1 ≡ collateral + residual)
      × (collateral ≤ q.0 + pos_part owed)
      × (q.0 ≤ collateral + neg_part owed)
      × (q.0 + pos_part owed ≢ collateral → 0 < pos_part owed → q.0 ≡ 0)
      × (q.0 ≢ collateral + neg_part owed → 0 < neg_part owed → q.1 ≡ 0)
unfolding route_funding
route_funding_lem owed collateral residual f h k = ground arith

-- A long and a short position of one size are charged opposite amounts.
pub funding_owed_zero_sum :
    (size : ℕ) (now entry : ℤ)
    → funding_owed false size now entry ≡ map_ok neg (funding_owed true size now entry)
unfolding funding_owed
funding_owed_zero_sum size now entry = ground arith

abbrev pub total : FundingState → ℕ
total s = s.position.collateral_quote_lots + s.cross_collateral + s.residual

route_funding-conserves :
    (owed : ℤ) (collateral residual : ℕ)
    → let owed = saturated i64 owed in
      Ensures (route_funding owed collateral residual) λ q. q.0 + q.1 ≡ collateral + residual
unfolding route_funding
route_funding-conserves owed collateral residual = ground arith

-- Where a settlement of funding succeeds, the position's collateral, the trader's pooled
-- collateral and the Residual keep their sum, only the bucket that margins the position moves,
-- and the position keeps its size and is anchored at the market's index.
pub settle_position_funding_conserves :
    (index : ℤ) (s : FundingState)
    → Ensures (settle_position_funding index s) λ q.
      (total q.1 ≡ total s)
      × (q.1.position.cum_funding_index ≡ index)
      × (q.1.position.size_lots ≡ s.position.size_lots)
      × (if ltb 0 s.position.collateral_quote_lots
          then q.1.cross_collateral ≡ s.cross_collateral
          else q.1.position.collateral_quote_lots ≡ s.position.collateral_quote_lots)
unfolding settle_position_funding
settle_position_funding_conserves index s =
    by_owed
      (funding_owed (s.position.side == 0) s.position.size_lots index s.position.cum_funding_index)
      refl
  where
    by_owed :
        (o : Result CloberError ℤ)
        → funding_owed
            (s.position.side == 0)
            s.position.size_lots
            index
            s.position.cum_funding_index
          ≡ o
        → Ensures (settle_position_funding index s) λ q.
          (total q.1 ≡ total s)
          × (q.1.position.cum_funding_index ≡ index)
          × (q.1.position.size_lots ≡ s.position.size_lots)
          × (if ltb 0 s.position.collateral_quote_lots
              then q.1.cross_collateral ≡ s.cross_collateral
              else q.1.position.collateral_quote_lots ≡ s.position.collateral_quote_lots)
    by_owed (err x) e = ground arith
    by_owed (ok o) e = ground (
      arith,
      e,
      route_funding-conserves o s.position.collateral_quote_lots s.residual,
      route_funding-conserves o s.cross_collateral s.residual,
    )

funding_owed_self : (b : Bool) (n : ℕ) (i : ℤ) → funding_owed b n i i ≡ ok (pos 0)
unfolding funding_owed div_floor neg
funding_owed_self b n i = ground (arith, -ℤ-self i, *ℤ-zero n)

-- Settling again at the index that a position was settled at changes nothing.
pub settle_position_funding_idempotent :
    (index : ℤ) (s : FundingState)
    → s.position.cum_funding_index ≡ index
    → fits i64 s.position.funding_paid_quote_lots ≡ true
    → settle_position_funding index s ≡ ok (pos 0, s)
unfolding settle_position_funding route_funding
settle_position_funding_idempotent index s e h = ground (
  arith,
  e,
  +ℤ-zero s.position.funding_paid_quote_lots,
  funding_owed_self (s.position.side == 0) s.position.size_lots index,
)

anchored :
    (index : ℤ) (s : FundingState)
    → fits i64 s.position.funding_paid_quote_lots ≡ true
    → Ensures (settle_position_funding index s) λ q.
      (q.1.position.cum_funding_index ≡ index)
      × (fits i64 q.1.position.funding_paid_quote_lots ≡ true)
unfolding settle_position_funding
anchored index s h = ground arith

-- Funding is charged once: after a settlement that succeeds on a position whose tally fits in an
-- i64, settling again at the same index charges nothing and changes nothing.
pub settle_position_funding_once :
    (index : ℤ) (s : FundingState)
    → fits i64 s.position.funding_paid_quote_lots ≡ true
    → Ensures
        (settle_position_funding index s)
        λ q. settle_position_funding index q.1 ≡ ok (pos 0, q.1)
settle_position_funding_once index s h =
    Ensures-map (settle_position_funding index s)
      (λ q w. settle_position_funding_idempotent index q.1 w.0 w.1) (anchored index s h)
