-- ===== src/Envelope.antt =====
-- The price and funding envelope of a market: programs/clober/src/matcher/envelope.rs.
pub mod Bound
pub mod Gate
mod Tests
use flash_book.Common.{
  ℕ, ◌+◌, ◌-◌, ◌*◌, ◌/◌, ◌%◌, ◌^◌, max, Bool, true, false, not, List, [], ◌∷◌, ltb, leb, ◌==◌,
  if◌then◌else◌, Result, ok, err, ok_or, ◌>>=◌, ◌>>◌, require, u128, checked_add, checked_mul,
  saturating_mul, abs_diff,
}
use flash_book.Common.Int.{ℤ, magnitude}
use flash_book.Accrual.{funding_den}
use flash_book.Risk.{bps_denom}

abbrev pub max_account_notional_lots : ℕ
max_account_notional_lots = 10 ^ 15

abbrev pub abs_max_price_move_bps_per_slot : ℕ
abs_max_price_move_bps_per_slot = 1000

abbrev pub abs_max_accrual_dt_slots : ℕ
abs_max_accrual_dt_slots = 10000

abbrev pub abs_max_funding_e9_per_slot : ℕ
abs_max_funding_e9_per_slot = 10000

pub record EnvelopeParams : Type 0 where
  pub max_price_move_bps_per_slot : ℕ
  pub max_accrual_dt_slots : ℕ
  pub max_abs_funding_e9_per_slot : ℤ
  pub maintenance_bps : ℕ
  pub liquidation_fee_bps : ℕ
  pub min_liquidation_abs_lots : ℕ
  pub min_nonzero_mm_req_lots : ℕ

pub data EnvelopeError : Type 0 where
  price_cap_zero price_cap_too_large accrual_dt_zero accrual_dt_too_large : EnvelopeError
  funding_cap_too_large maintenance_zero maintenance_too_large liq_fee_too_large : EnvelopeError
  overflow same_slot_move price_move_exceeds_cap : EnvelopeError
  envelope_violated : (n loss fee mm : ℕ) → EnvelopeError

unfoldable pub ceil_div : ℕ → ℕ → ℕ
ceil_div num den = if den == 0 then 0 else num / den + (if num % den == 0 then 0 else 1)

unfoldable pub breakpoint_notional : EnvelopeParams → ℕ
breakpoint_notional p =
    if p.maintenance_bps == 0
    then 0
    else saturating_mul u128 p.min_nonzero_mm_req_lots bps_denom / p.maintenance_bps

unfoldable pub check_ranges : EnvelopeParams → Result EnvelopeError (Unit {0})
check_ranges p = do
  require (not (p.max_price_move_bps_per_slot == 0)) price_cap_zero
  require (leb p.max_price_move_bps_per_slot abs_max_price_move_bps_per_slot) price_cap_too_large
  require (not (p.max_accrual_dt_slots == 0)) accrual_dt_zero
  require (leb p.max_accrual_dt_slots abs_max_accrual_dt_slots) accrual_dt_too_large
  require (leb (magnitude p.max_abs_funding_e9_per_slot) abs_max_funding_e9_per_slot)
      funding_cap_too_large
  require (not (p.maintenance_bps == 0)) maintenance_zero
  require (ltb p.maintenance_bps bps_denom) maintenance_too_large
  require (ltb p.liquidation_fee_bps bps_denom) liq_fee_too_large

-- The budgets, whose products are checked.
unfoldable pub price_budget : EnvelopeParams → Result EnvelopeError ℕ
price_budget p =
    ok_or (checked_mul u128 p.max_price_move_bps_per_slot p.max_accrual_dt_slots) overflow

unfoldable pub loss_budget : EnvelopeParams → ℕ → Result EnvelopeError ℕ
loss_budget p price_budget_bps = do
  funded ←
      ok_or (checked_mul u128 (magnitude p.max_abs_funding_e9_per_slot) p.max_accrual_dt_slots)
        overflow
  fund_budget_num ← ok_or (checked_mul u128 funded bps_denom) overflow
  scaled ← ok_or (checked_mul u128 price_budget_bps funding_den) overflow
  ok_or (checked_add u128 scaled fund_budget_num) overflow

-- The body of the loop over the probes.
unfoldable pub check_probe : EnvelopeParams → ℕ → ℕ → ℕ → Result EnvelopeError (Unit {0})
check_probe p price_budget_bps loss_budget_num n = if n == 0 then ok tt else (do
  loss_num ← ok_or (checked_mul u128 n loss_budget_num) overflow
  let loss = ceil_div loss_num (bps_denom * funding_den)
  liq_num ← ok_or (checked_mul u128 n (bps_denom + price_budget_bps)) overflow
  fee_num ← ok_or (checked_mul u128 (ceil_div liq_num bps_denom) p.liquidation_fee_bps) overflow
  let fee = max (ceil_div fee_num bps_denom) p.min_liquidation_abs_lots
  mm_num ← ok_or (checked_mul u128 n p.maintenance_bps) overflow
  let mm = max (mm_num / bps_denom) p.min_nonzero_mm_req_lots
  total ← ok_or (checked_add u128 loss fee) overflow
  if ltb mm total then err (envelope_violated n loss fee mm) else ok tt)

unfoldable pub check_probes : EnvelopeParams → ℕ → ℕ → List ℕ → Result EnvelopeError (Unit {0})
check_probes p price_budget_bps loss_budget_num [] = ok tt
check_probes p price_budget_bps loss_budget_num (n ∷ ns) = do
  check_probe p price_budget_bps loss_budget_num n
  check_probes p price_budget_bps loss_budget_num ns

unfoldable pub prove_envelope : EnvelopeParams → Result EnvelopeError (Unit {0})
prove_envelope p = do
  check_ranges p
  price_budget_bps ← price_budget p
  loss_budget_num ← loss_budget p price_budget_bps
  check_probes p price_budget_bps loss_budget_num
      (1 ∷ breakpoint_notional p ∷ max_account_notional_lots ∷ [])

unfoldable pub gate_price_move : ℕ → ℕ → ℕ → ℕ → Result EnvelopeError (Unit {0})
gate_price_move p_last p_new dt_slots max_price_move_bps_per_slot =
    if p_last == 0 then ok tt else (do
      require (not (dt_slots == 0)) same_slot_move
      lhs ← ok_or (checked_mul u128 (abs_diff p_new p_last) bps_denom) overflow
      window ← ok_or (checked_mul u128 max_price_move_bps_per_slot dt_slots) overflow
      rhs ← ok_or (checked_mul u128 window p_last) overflow
      require (leb lhs rhs) price_move_exceeds_cap)
