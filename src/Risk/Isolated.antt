-- ===== src/Risk/Isolated.antt =====
-- Isolated margin, the default lattice and the fee tiers, programs/clober/src/matcher/risk.rs.

use flash_book.Common.{
  ℕ, ◌+◌, ◌*◌, ◌≤◌, ◌<◌, ◌≡◌, refl, sym, ◌∙◌, Bool, true, false, ◌&&◌, List, [], ◌∷◌, arith, length,
  length-append, leb, Bool-cases, leb-true, inl, inr, Result, ok, err, Ensures, Ensures->>=,
  Ensures-map, Ensures-self, if◌then◌else◌, u64,
}
use flash_book.Common.Int.{ℤ, pos, negsuc, ltb_ℤ}
use flash_book.Errors.{CloberError}
use flash_book.Risk.{PositionSnapshot, MarketSnapshot, Scenario, resolve_fee_tier}
use flash_book.Risk.Assess.{
  MarginAssessment, assess_margin, assess_isolated, assess_margin_split, partition, tightness,
  merge_bucket, per_market_scenarios, default_scenarios, uniform, max_stress_scenarios,
}

-- An assessment that succeeds and is healthy.
abbrev pub healthy : Result CloberError MarginAssessment → Bool
healthy (ok a) = a.is_healthy
healthy (err e) = false

-- Every isolated position is healthy against its own collateral.
abbrev pub all_healthy : List MarketSnapshot → List Scenario → List (PositionSnapshot × ℕ) → Bool
all_healthy markets scenarios [] = true
all_healthy markets scenarios ((p, c) ∷ rest) =
    healthy (assess_margin (p ∷ []) markets scenarios c) && all_healthy markets scenarios rest

and_assoc : (a b c : Bool) → ((a && b) && c) ≡ (a && (b && c))
and_assoc true b c = refl
and_assoc false b c = refl

isolated-healthy :
    (markets : List MarketSnapshot) (scenarios : List Scenario) (iso : List (PositionSnapshot × ℕ))
    (total : MarginAssessment) (worst : ℤ)
    → Ensures (assess_isolated markets scenarios iso total worst) λ a.
      (a.is_healthy ≡ (total.is_healthy && all_healthy markets scenarios iso))
      × (total.required_quote_lots < u64 → total.required_quote_lots ≤ a.required_quote_lots)
unfolding assess_isolated
isolated-healthy markets scenarios [] total worst = (ground arith, λ h. omega arith)
isolated-healthy markets scenarios ((p, c) ∷ rest) total worst =
    Ensures->>= (assess_margin (p ∷ []) markets scenarios c) _ _ _
      (Ensures-self (assess_margin (p ∷ []) markets scenarios c))
      λ a e. rw e (
        Ensures-map
          (assess_isolated markets scenarios rest (merge_bucket total worst a)
            (if ltb_ℤ worst (tightness a) then tightness a else worst))
          (λ r h. (
            h.0 ∙ and_assoc total.is_healthy a.is_healthy _,
            λ k. ground (arith, h.1 (ground arith)),
          ))
          (isolated-healthy markets scenarios rest (merge_bucket total worst a) _))

-- A split assessment that succeeds is healthy exactly where the cross positions are healthy
-- against the pooled collateral and every isolated position is healthy against its own: no
-- bucket lends to another.
pub split_healthy :
    (positions : List PositionSnapshot) (markets : List MarketSnapshot) (scenarios : List Scenario)
    (collateral : ℕ) (isolated : List (ℕ × ℕ))
    → let (cross, iso) = partition isolated positions in
      Ensures (assess_margin_split positions markets scenarios collateral isolated) λ a.
        a.is_healthy ≡ (
          healthy (assess_margin cross markets scenarios collateral)
          && all_healthy markets scenarios iso)
unfolding assess_margin_split
split_healthy positions markets scenarios collateral isolated =
    Ensures->>= (assess_margin (partition isolated positions).0 markets scenarios collateral) _ _ _
      (Ensures-self (assess_margin (partition isolated positions).0 markets scenarios collateral))
      λ cross e. rw e (
        Ensures-map
          (assess_isolated markets scenarios (partition isolated positions).1 cross
            (tightness cross))
          (λ a h. h.0)
          (isolated-healthy markets scenarios (partition isolated positions).1 cross
            (tightness cross)))

length-per_market : (markets : List ℕ) → length (per_market_scenarios markets) ≡ 8 * length markets
unfolding per_market_scenarios
length-per_market [] = refl
length-per_market (m ∷ ms) = omega (arith, length-per_market ms)

-- The default lattice has five scenarios and eight for each market, so that for up to sixteen
-- markets no assessment over it is refused for its length.
pub length-default_scenarios :
    (markets : List ℕ)
    → length markets ≤ 16
    → (length (default_scenarios markets) ≡ 5 + 8 * length markets)
      × (leb (length (default_scenarios markets)) max_stress_scenarios ≡ true)
unfolding default_scenarios
length-default_scenarios markets h =
    let n = length (default_scenarios markets) in
    let count : n ≡ 5 + 8 * length markets = omega (
      arith,
      length-append (per_market_scenarios markets) (
          uniform markets (negsuc 999)
          ∷ uniform markets (pos 1000)
          ∷ uniform markets (negsuc 2999)
          ∷ uniform markets (pos 3000)
          ∷ []),
      length-per_market markets,
    ) in
    (count, leb-true n max_stress_scenarios (omega arith))

-- Every tier up to here is reached, and its volume is sorted.
abbrev pub IsSortedFrom : ℕ → List (ℕ × ℤ × ℕ) → Type 0
IsSortedFrom v [] = Unit
IsSortedFrom v ((min_vol, m, t) ∷ tiers) = (v ≤ min_vol) × IsSortedFrom min_vol tiers

-- The last tier that the volume reaches, wherever it stands.
abbrev pub last_reached : ℤ × ℕ → List (ℕ × ℤ × ℕ) → ℕ → ℤ × ℕ
last_reached best [] volume = best
last_reached best ((min_vol, m, t) ∷ tiers) volume =
    last_reached (if leb min_vol volume then (m, t) else best) tiers volume

unreached :
    (best : ℤ × ℕ) (tiers : List (ℕ × ℤ × ℕ)) (v volume : ℕ)
    → IsSortedFrom v tiers
    → volume < v
    → last_reached best tiers volume ≡ best
unreached best [] v volume s h = refl
unreached best ((min_vol, m, t) ∷ tiers) v volume s h =
    ground (arith, unreached best tiers min_vol volume s.1 (omega (arith, s.0)))

-- In a table sorted by volume, the walk that stops at the first tier that is not reached finds
-- the last tier of the whole table that is.
pub resolve_fee_tier_lem :
    (maker : ℤ) (taker : ℕ) (tiers : List (ℕ × ℤ × ℕ)) (v volume : ℕ)
    → IsSortedFrom v tiers
    → resolve_fee_tier maker taker tiers volume ≡ last_reached (maker, taker) tiers volume
unfolding resolve_fee_tier
resolve_fee_tier_lem maker taker [] v volume s = refl
resolve_fee_tier_lem maker taker ((min_vol, m, t) ∷ tiers) v volume s =
    elim (Bool-cases (leb min_vol volume)) [
      | inl reached ↦ rw (reached, resolve_fee_tier_lem m t tiers min_vol volume s.1) refl
      | inr above ↦
          rw above (sym (unreached (maker, taker) tiers min_vol volume s.1 (ground arith)))
    ]
