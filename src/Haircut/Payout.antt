-- ===== src/Haircut/Payout.antt =====
-- What converting pays: exactness for one position, and solvency for all positions together and
-- for one position after another.
use flash_book.Common.{ℕ, ◌+◌, ◌*◌, ◌/◌, ◌≤◌, ◌<◌, ◌≡◌, List, [], ◌∷◌, arith, u64}
use flash_book.Common.Arith.{div-mul-le, div_mono}
use flash_book.Haircut.{
  h_denom, compute_h, convert_with_haircut, PositionHaircutSnapshot, apply_convert,
}
use flash_book.Haircut.Ratio.{
  IsExact, compute_h-le, compute_h-mul, compute_h_mono, convert_with_haircut_lem, credit-le,
}

-- A position's stored profit is a `u64`.
abbrev pub IsStored : PositionHaircutSnapshot → Type 0
IsStored p = p.matured_pos_quote_lots < u64

pub apply_convert_credit :
    (p : PositionHaircutSnapshot) (h : ℕ)
    → IsStored p
    → h ≤ h_denom
    → (apply_convert p h).1 ≡ p.matured_pos_quote_lots * h / h_denom
unfolding apply_convert convert_with_haircut
apply_convert_credit p h s hh = ground (
  arith,
  convert_with_haircut_lem p.matured_pos_quote_lots h s hh,
  credit-le p.matured_pos_quote_lots h s hh,
)

-- Converting pays out or turns into dust exactly what had matured, empties the matured amount, and
-- touches neither the reserve nor its warmup.
pub apply_convert_exact :
    (p : PositionHaircutSnapshot) (h : ℕ)
    → IsStored p
    → h ≤ h_denom
    → let (post, credit, dust) = apply_convert p h in
      (credit + dust ≡ p.matured_pos_quote_lots) × (post ≡ record p { matured_pos_quote_lots = 0 })
unfolding apply_convert convert_with_haircut
apply_convert_exact p h s hh = ground (
  arith,
  convert_with_haircut_lem p.matured_pos_quote_lots h s hh,
  credit-le p.matured_pos_quote_lots h s hh,
)

-- What the positions would be credited together, and what they have matured.
abbrev pub total_credit : List PositionHaircutSnapshot → ℕ → ℕ
total_credit [] h = 0
total_credit (p ∷ ps) h = (apply_convert p h).1 + total_credit ps h

abbrev pub total_matured : List PositionHaircutSnapshot → ℕ
total_matured [] = 0
total_matured (p ∷ ps) = p.matured_pos_quote_lots + total_matured ps

abbrev pub AllStored : List PositionHaircutSnapshot → Type 0
AllStored [] = Unit
AllStored (p ∷ ps) = IsStored p × AllStored ps

total_credit-mul :
    (ps : List PositionHaircutSnapshot) (h : ℕ)
    → AllStored ps
    → h ≤ h_denom
    → total_credit ps h * h_denom ≤ total_matured ps * h
total_credit-mul [] h s hh = omega arith
total_credit-mul (p ∷ ps) h s hh = omega (
  arith,
  total_credit-mul ps h s.1 hh,
  apply_convert_credit p h s.0 hh,
  div-mul-le (p.matured_pos_quote_lots * h) h_denom,
)

-- Solvency: at the ratio that the market's totals give, any positions together are credited no
-- more than the residual, if their matured profits are u64s and sum to no more than the market's
-- total, and the ratio's numerator fits in a u128.
pub total_credit-le-residual :
    (ps : List PositionHaircutSnapshot) (residual matured_total : ℕ)
    → AllStored ps
    → total_matured ps ≤ matured_total
    → IsExact residual matured_total
    → total_credit ps (compute_h residual matured_total) ≤ residual
total_credit-le-residual ps residual matured_total s le exact = grind (
  arith,
  total_credit-mul ps (compute_h residual matured_total) s (compute_h-le residual matured_total),
  compute_h-mul residual matured_total exact,
)

-- Floor monotonicity: for a u64 matured profit, a larger residual never lowers a position's
-- credit, at the same matured total.
pub credit_mono :
    (p : PositionHaircutSnapshot) (r s matured_total : ℕ)
    → IsStored p
    → r ≤ s
    → (apply_convert p (compute_h r matured_total)).1
      ≤ (apply_convert p (compute_h s matured_total)).1
credit_mono p r s matured_total st h = grind (
  arith,
  apply_convert_credit p (compute_h r matured_total) st (compute_h-le r matured_total),
  apply_convert_credit p (compute_h s matured_total) st (compute_h-le s matured_total),
  compute_h_mono r s matured_total h,
  div_mono (p.matured_pos_quote_lots * compute_h r matured_total)
      (p.matured_pos_quote_lots * compute_h s matured_total) h_denom,
)
