-- ===== src/Liquidation/Shortfall.antt =====
-- `compute_shortfall` of programs/clober/src/matcher/liquidation.rs.
use flash_book.Common.{
  ℕ, ◌+◌, ◌*◌, ◌/◌, ◌-◌, ◌<◌, ◌≡◌, ◌⊎◌, inl, inr, refl, Bool-cases, Ensures->>=, Bool,
  if◌then◌else◌, Ensures, u64, arith,
}
use flash_book.Common.Int.{
  *ℤ-pos, pos-*ℤ, *ℤ-one, *ℤ-minus_one, pos, neg, negsuc, sub_ℕ, ◌+ℤ◌, ◌*ℤ◌, div_trunc, pos_part,
  neg_part, +ℤ_parts, -ℤ_parts, sub_ℕ_parts,
}
use flash_book.Liquidation.{
  compute_shortfall, ShortfallResult, liquidation_pnl, liquidation_penalty,
}

liquidation_pnl_lem :
    (is_long : Bool) (size entry price tick : ℕ)
    → Ensures (liquidation_pnl is_long size entry price tick) λ r.
      if is_long
      then pos_part r + size * entry * tick ≡ neg_part r + size * price * tick
      else pos_part r + size * price * tick ≡ neg_part r + size * entry * tick
unfolding liquidation_pnl neg
liquidation_pnl_lem is_long size entry price tick =
    let d = sub_ℕ price entry in
    let q = pos size *ℤ d in
    let u = q *ℤ pos tick in
    let moved = *ℤ-pos q tick _ _ (pos-*ℤ size d entry price (sub_ℕ_parts price entry)) in
    elim (Bool-cases is_long) [
      | inl e ↦ ground (arith, moved, e, *ℤ-one u)
      | inr e ↦ ground (arith, moved, e, *ℤ-minus_one u, minus_one)
    ]
  where
    minus_one : neg (pos 1) ≡ negsuc 0
    minus_one = refl

liquidation_penalty_lem :
    (size price tick bps : ℕ)
    → Ensures
        (liquidation_penalty size price tick bps)
        λ r. (pos_part r ≡ size * price * tick * bps / 10000) × (neg_part r ≡ 0)
unfolding liquidation_penalty ◌*ℤ◌ div_trunc
liquidation_penalty_lem size price tick bps = ground arith

-- Collateral, profit and shortfall on one side, loss, penalty and what is recovered on the other.
abbrev pub Balances : Bool → ℕ → ℕ → ℕ → ℕ → ℕ → ShortfallResult → Type 0
Balances is_long size entry price collateral tick r =
    let paid = r.liquidation_penalty_quote_lots + r.collateral_recovered_quote_lots in
    let held = collateral + r.shortfall_quote_lots in
    if is_long
    then held + size * price * tick ≡ paid + size * entry * tick
    else held + size * entry * tick ≡ paid + size * price * tick

abbrev pub IsUnclamped : ShortfallResult → Type 0
IsUnclamped r =
    (r.liquidation_penalty_quote_lots < u64 - 1)
    × (r.shortfall_quote_lots < u64 - 1)
    × (r.collateral_recovered_quote_lots < u64 - 1)

-- Where a shortfall is computed, nothing is recovered or nothing is short, and if none of the
-- results is at the end of the u64 range, collateral with profit and shortfall equals loss with
-- penalty and what is recovered, and the penalty is its share of the notional.
pub compute_shortfall_lem :
    (is_long : Bool) (size entry price collateral tick bps : ℕ)
    → Ensures (compute_shortfall is_long size entry price collateral tick bps) λ r.
      ((r.shortfall_quote_lots ≡ 0) ⊎ (r.collateral_recovered_quote_lots ≡ 0))
      × (IsUnclamped r
          → Balances is_long size entry price collateral tick r
            × (r.liquidation_penalty_quote_lots ≡ size * price * tick * bps / 10000))
unfolding compute_shortfall
compute_shortfall_lem is_long size entry price collateral tick bps =
    Ensures->>= (liquidation_pnl is_long size entry price tick) _ _ _
      (liquidation_pnl_lem is_long size entry price tick)
      λ pnl g.
        Ensures->>= (liquidation_penalty size price tick bps) _ _ _
          (liquidation_penalty_lem size price tick bps)
          λ penalty h.
            ground
              (arith, g, h, +ℤ_parts (pos collateral) pnl, -ℤ_parts (pos collateral +ℤ pnl) penalty)
