-- ===== src/Solvency.antt =====
-- The solvency checks: programs/clober/src/matcher/insurance.rs, and the instructions of
-- programs/clober/src/lib.rs that run them or move the insurance fund.
pub mod Sweep
pub mod Floor
mod Tests
use flash_book.Common.{
  ℕ, ◌+◌, ◌-◌, Bool, true, false, not, Option, none, some, List, [], ◌∷◌, ltb, leb, ◌==◌,
  if◌then◌else◌, Result, ok, err, ok_or, require, ◌>>=◌, ◌>>◌, u64, u128, checked_add, checked_sub,
  saturating_add, saturating_sub, map_err,
}
use flash_book.Common.Distinct.{contains}
use flash_book.Errors.{
  CloberError, arithmetic_overflow, arithmetic_underflow, unauthorized, unexpected_account_type,
  zero_size, insufficient_collateral, haircut_residual_unbacked, haircut_residual_underflow,
  protocol_insolvent,
}

-- Whether the vault covers what is required of it, and by how much.
abbrev pub surplus_over : ℕ → ℕ → Bool × ℕ
surplus_over vault required =
    (leb required vault, if leb required vault then vault - required else 0)

unfoldable pub assess_solvency : ℕ → ℕ → ℕ → Result (Unit {0}) (Bool × ℕ)
assess_solvency vault insurance lp_capital = do
  minimum_required ← ok_or (checked_add u64 insurance lp_capital) tt
  ok (surplus_over vault minimum_required)

unfoldable pub partial_collateral_proves_insolvent : ℕ → ℕ → ℕ → ℕ → Result (Unit {0}) Bool
partial_collateral_proves_insolvent partial_collateral lp_capital insurance vault = do
  buckets ← ok_or (checked_add u64 lp_capital insurance) tt
  ok (ltb (saturating_sub vault buckets) partial_collateral)

unfoldable pub residual_exceeds_backed_surplus : ℕ → ℕ → ℕ → ℕ → ℕ → Bool
residual_exceeds_backed_surplus partial_collateral lp_capital insurance residual vault =
    let collateral_and_lp = saturating_add u128 partial_collateral lp_capital in
    let buckets = saturating_add u128 collateral_and_lp insurance in
    ltb vault (saturating_add u128 buckets residual)

unfoldable pub insurance_deposit_credit : ℕ → ℕ → Option ℕ
insurance_deposit_credit balance amount = checked_add u64 balance amount

-- What `remaining_accounts` holds: the key, whether this program owns the account, and what it
-- loads as.
pub data AccountData : Type 0 where
  trader_state : ℕ → AccountData
  position : ℕ → AccountData
  other : AccountData

pub record AccountInfo : Type 0 where
  pub key : ℕ
  pub is_owned : Bool
  pub loads_as : AccountData

abbrev pub collateral_of : AccountData → Result CloberError ℕ
collateral_of (trader_state c) = ok c
collateral_of (position c) = ok c
collateral_of other = err unexpected_account_type

-- One turn of the loop over the accounts, on the keys seen and the sum so far.
unfoldable pub sweep_account : AccountInfo → List ℕ → ℕ → Result CloberError (List ℕ × ℕ)
sweep_account a seen partial_collateral = do
  require a.is_owned unauthorized
  if contains seen a.key then ok (seen, partial_collateral) else (do
    c ← collateral_of a.loads_as
    sum ← ok_or (checked_add u64 partial_collateral c) arithmetic_overflow
    ok (a.key ∷ seen, sum))

unfoldable pub sweep_accounts : List AccountInfo → List ℕ → ℕ → Result CloberError (List ℕ × ℕ)
sweep_accounts [] seen partial_collateral = ok (seen, partial_collateral)
sweep_accounts (a ∷ rest) seen partial_collateral = do
  (seen, sum) ← sweep_account a seen partial_collateral
  sweep_accounts rest seen sum

abbrev pub overflow_error : Unit {0} → CloberError
overflow_error u = arithmetic_overflow

-- The protocol's own quantities, as the accounts and the quote vault hold them.
pub record Protocol : Type 0 where
  pub vault : ℕ
  pub balance_quote_lots : ℕ
  pub pause_threshold_quote_lots : ℕ
  pub total_contributions : ℕ
  pub total_payouts : ℕ
  pub total_fee_accrued_lots : ℕ
  pub lp_capital : ℕ

-- With the Residual, if a haircut state is supplied.
unfoldable pub verify_collateral_solvency :
    Protocol → Option ℕ → List AccountInfo → Result CloberError (Unit {0})
verify_collateral_solvency p residual accounts = do
  (seen, partial) ← sweep_accounts accounts [] 0
  insolvent ←
      map_err overflow_error
        (partial_collateral_proves_insolvent partial p.lp_capital p.balance_quote_lots p.vault)
  require (not (unbacked partial residual)) haircut_residual_unbacked
  require (not insolvent) protocol_insolvent
  where
    unbacked : ℕ → Option ℕ → Bool
    unbacked partial none = false
    unbacked partial (some r) =
        residual_exceeds_backed_surplus partial p.lp_capital p.balance_quote_lots r p.vault

unfoldable pub verify_protocol_solvency : Protocol → Result CloberError (Unit {0})
verify_protocol_solvency p = do
  backing_required ←
      ok_or (checked_add u64 p.lp_capital p.total_fee_accrued_lots) arithmetic_overflow
  (solvent, surplus) ←
      map_err overflow_error (assess_solvency p.vault p.balance_quote_lots backing_required)
  minimum_required ←
      ok_or (checked_add u64 p.balance_quote_lots backing_required) arithmetic_overflow
  require solvent haircut_residual_underflow

-- A token transfer that the token program refuses reverts the whole instruction, and one that goes
-- through moves the amount into the vault or out of it.
unfoldable pub deposit_insurance_fund : ℕ → Protocol → Result CloberError Protocol
deposit_insurance_fund amount p = do
  require (ltb 0 amount) zero_size
  balance ← ok_or (insurance_deposit_credit p.balance_quote_lots amount) arithmetic_overflow
  contributions ← ok_or (checked_add u64 p.total_contributions amount) arithmetic_overflow
  ok (record p {
    vault = p.vault + amount;
    balance_quote_lots = balance;
    total_contributions = contributions;
  })

unfoldable pub withdraw_insurance_fund : Bool → ℕ → Protocol → Result CloberError Protocol
withdraw_insurance_fund is_authority amount p = do
  require (ltb 0 amount) zero_size
  require is_authority unauthorized
  balance ← ok_or (checked_sub p.balance_quote_lots amount) arithmetic_underflow
  require (leb p.pause_threshold_quote_lots balance) insufficient_collateral
  require (leb amount p.vault) insufficient_collateral
  payouts ← ok_or (checked_add u64 p.total_payouts amount) arithmetic_overflow
  ok (record p { vault = p.vault - amount; balance_quote_lots = balance; total_payouts = payouts })

-- The recipient's accrued share is paid out whole and becomes zero.
unfoldable pub claim_fee_accrual : ℕ → Protocol → Result CloberError (ℕ × Protocol)
claim_fee_accrual accrued p = do
  require (ltb 0 accrued) zero_size
  require (leb accrued p.vault) insufficient_collateral
  vault_after ← ok_or (checked_sub p.vault accrued) arithmetic_overflow
  fee_accrued_after ← ok_or (checked_sub p.total_fee_accrued_lots accrued) arithmetic_overflow
  required_backing ← ok_or (checked_add u64 p.lp_capital fee_accrued_after) arithmetic_overflow
  (solvent, surplus) ←
      map_err overflow_error (assess_solvency vault_after p.balance_quote_lots required_backing)
  require solvent haircut_residual_underflow
  ok (0, record p { vault = vault_after; total_fee_accrued_lots = fee_accrued_after })
