-- ===== src/Risk/Stress.antt =====
-- The parts of a stress assessment err on the side of safety, programs/clober/src/matcher/risk.rs:
-- the haircut, the maintenance ratio, the stressed price and the fee tiers.
use flash_book.Common.{
  ℕ, zero, suc, ◌+◌, ◌-◌, ◌*◌, ◌/◌, ◌%◌, ◌≤◌, ◌<◌, ◌≡◌, min, true, arith, ltb, leb, ◌==◌, ◌||◌,
  ◌&&◌, if◌then◌else◌, ◌⊎◌, inl, inr, Bool-cases, Ensures, u32, u64, u128, saturating_add,
  saturating_mul,
}
use flash_book.Common.Int.{pos, negsuc, ◌≤ℤ◌, ◌*ℤ◌, div_trunc, saturated, i128}
use flash_book.Risk.{
  MarketSnapshot, haircut_positive_pnl, oi_scaled_mmr_extra_bps, effective_mmr_bps, div_ceil,
  shocked_price,
}

div_ceil_bounds : (a : ℕ) → (a ≤ div_ceil a 10000 * 10000) × (div_ceil a 10000 * 10000 < a + 10000)
div_ceil_bounds a = ground arith

no_product : (a b : ℕ) → (b == 0 || a == 0) ≡ true → a * b ≡ 0
no_product zero b h = omega arith
no_product (suc a) zero h = omega arith
no_product (suc a) (suc b) h = absurd (ground arith)

-- A stressed price that is returned is a whole move away from the mark, up or down, and less than
-- a tick further: the fraction counts against the trader. A fall past zero stops there.
pub shocked_price_bounds :
    (price n : ℕ)
    → price < u64
    → (Ensures (shocked_price price (pos n)) λ stressed.
        (price * 10000 + price * n ≤ stressed * 10000)
        × (stressed * 10000 < price * 10000 + price * n + 10000))
      × (Ensures (shocked_price price (negsuc n)) λ stressed.
          ((stressed * 10000 + price * suc n ≤ price * 10000) ⊎ (stressed ≡ 0))
          × (price * 10000 < stressed * 10000 + price * suc n + 10000))
unfolding shocked_price
shocked_price_bounds price n fits = (
  ground (arith, div_ceil_bounds (price * n), no_product price n),
  ground (arith, div_ceil_bounds (price * suc n), no_product price (suc n)),
)

haircut_of_gain :
    (n keep : ℕ)
    → keep ≤ 10000
    → (div_trunc (saturated i128 (pos n *ℤ pos keep)) 10000 ≤ℤ pos n)
      × (pos 0 ≤ℤ div_trunc (saturated i128 (pos n *ℤ pos keep)) 10000)
unfolding ◌*ℤ◌ div_trunc
haircut_of_gain n keep h = ground (arith, scaled)
  where
    scaled : n * keep ≤ n * 10000
    scaled = grind arith

-- Paper profit counts for at most what it is and never as a loss, and a loss counts in full.
pub haircut_positive_pnl_bounds :
    (n haircut : ℕ)
    → (haircut_positive_pnl (pos n) haircut ≤ℤ pos n)
      × (pos 0 ≤ℤ haircut_positive_pnl (pos n) haircut)
      × (haircut_positive_pnl (negsuc n) haircut ≡ negsuc n)
unfolding haircut_positive_pnl
haircut_positive_pnl_bounds n haircut =
    ground (arith, haircut_of_gain n (10000 - min haircut 10000) (omega arith))

scaled_mono : (a b s : ℕ) → a ≤ b → saturating_mul u128 a s ≤ saturating_mul u128 b s
scaled_mono a b s h = ground (arith, product)
  where
    product : a * s ≤ b * s
    product = grind arith

capped_mono :
    (x y most : ℕ)
    → x ≤ y
    → most < u32
    → (min (min (x / 1000000) most % u32) most ≤ min (min (y / 1000000) most % u32) most)
      × (min (min (y / 1000000) most % u32) most ≤ most)
capped_mono x y most h m = omega arith

oi_extra_mono :
    (a b slope most : ℕ)
    → a ≤ b
    → most < u32
    → (oi_scaled_mmr_extra_bps a slope most ≤ oi_scaled_mmr_extra_bps b slope most)
      × (oi_scaled_mmr_extra_bps b slope most ≤ most)
unfolding oi_scaled_mmr_extra_bps
oi_extra_mono a b slope most h m = elim (Bool-cases (slope == 0)) [
  | inl none ↦ rw none (omega arith, omega arith)
  | inr some ↦ rw some (
      capped_mono (saturating_mul u128 a slope) (saturating_mul u128 b slope) most
        (scaled_mono a b slope h) m)
]

stacked_mono :
    (base x y : ℕ)
    → base < u32
    → x ≤ y
    → (base ≤ saturating_add u32 base x)
      × (saturating_add u32 base x ≤ saturating_add u32 base y)
      × (saturating_add u32 base x < u32)
stacked_mono base x y b h = ground arith

cap_of : ℕ → ℕ
cap_of most = if most == 0 then u32 - 1 else most

cap_of-lt : (most : ℕ) → most < u32 → cap_of most < u32
unfolding cap_of
cap_of-lt most h = ground arith

-- The maintenance ratio of a position is at least the market's base ratio, and a larger open
-- interest on its side never lowers it; it is a u32, if the base ratio and the cap are.
pub effective_mmr_bps_bounds :
    (m : MarketSnapshot) (size oi : ℕ)
    → m.maintenance_margin_bps < u32
    → m.oi_mmr_max_extra_bps < u32
    → m.side_oi_lots ≤ oi
    → (m.maintenance_margin_bps ≤ effective_mmr_bps m size)
      × (effective_mmr_bps m size ≤ effective_mmr_bps (record m { side_oi_lots = oi }) size)
      × (effective_mmr_bps m size < u32)
unfolding effective_mmr_bps cap_of
effective_mmr_bps_bounds m size oi fits cap_fits le =
    let extra =
      oi_extra_mono m.side_oi_lots oi m.oi_mmr_slope_bps_per_million_lots _ le
        (cap_of-lt m.oi_mmr_max_extra_bps cap_fits) in
    let base =
      if ltb 0 m.concentration_threshold_lots && leb m.concentration_threshold_lots size
      then saturating_add u32 m.maintenance_margin_bps m.concentration_extra_mmr_bps
      else m.maintenance_margin_bps in
    let grown : (m.maintenance_margin_bps ≤ base) × (base < u32) = ground arith in
    let stacked = stacked_mono base _ _ grown.1 extra.0 in
    (omega (arith, grown.0, stacked.0), stacked.1, stacked.2)
