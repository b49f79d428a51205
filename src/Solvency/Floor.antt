-- ===== src/Solvency/Floor.antt =====
-- The floor of `verify_protocol_solvency` in programs/clober/src/lib.rs: the vault covers the fund,
-- the LP capital and the accrued fees.
use flash_book.Common.{ℕ, ◌+◌, ◌≤◌, ◌<◌, ◌≡◌, ◌↔◌, refl, Bool, ok, u64, arith, Ensures, Ensures-ok}
use flash_book.Solvency.{
  Protocol, verify_protocol_solvency, assess_solvency, deposit_insurance_fund,
  withdraw_insurance_fund, claim_fee_accrual, insurance_deposit_credit,
}

-- What the protocol owes out of its own buckets.
abbrev pub required : Protocol → ℕ
required p = p.balance_quote_lots + (p.lp_capital + p.total_fee_accrued_lots)

pub verify_protocol_solvency_iff :
    (p : Protocol)
    → required p < u64
    → (verify_protocol_solvency p ≡ ok tt) ↔ (required p ≤ p.vault)
unfolding verify_protocol_solvency assess_solvency
verify_protocol_solvency_iff p h = ground arith

-- Vault and obligations move together, and so do the fund's balance and its two tallies.
abbrev pub Kept : Protocol → Protocol → Type 0
Kept p q =
    (q.vault + required p ≡ p.vault + required q)
    × (q.balance_quote_lots + q.total_payouts + p.total_contributions
        ≡ p.balance_quote_lots + p.total_payouts + q.total_contributions)
    × (q.pause_threshold_quote_lots ≡ p.pause_threshold_quote_lots)

deposit_insurance_fund-Kept :
    (amount : ℕ) (p : Protocol) → Ensures (deposit_insurance_fund amount p) (Kept p)
unfolding deposit_insurance_fund insurance_deposit_credit
deposit_insurance_fund-Kept amount p = ground arith

withdraw_insurance_fund-Kept :
    (auth : Bool) (amount : ℕ) (p : Protocol)
    → Ensures
        (withdraw_insurance_fund auth amount p)
        λ q. Kept p q × (q.pause_threshold_quote_lots ≤ q.balance_quote_lots)
unfolding withdraw_insurance_fund
withdraw_insurance_fund-Kept auth amount p = ground arith

claim_fee_accrual-Kept :
    (accrued : ℕ) (p : Protocol) → Ensures (claim_fee_accrual accrued p) λ q. Kept p q.1
unfolding claim_fee_accrual assess_solvency
claim_fee_accrual-Kept accrued p = ground arith

-- An instruction on the fund or on an accrued fee share that succeeds, by any signer.
pub data Step (p q : Protocol) : Type 0 where
  deposit : (amount : ℕ) → deposit_insurance_fund amount p ≡ ok q → Step p q
  withdraw : (auth : Bool) (amount : ℕ) → withdraw_insurance_fund auth amount p ≡ ok q → Step p q
  claim : (accrued left : ℕ) → claim_fee_accrual accrued p ≡ ok (left, q) → Step p q

pub data Reach (p : Protocol) : Protocol → Type 0 where
  here : Reach p p
  next : {q r : Protocol} → Reach p q → Step q r → Reach p r

Step-Kept : (p q : Protocol) → Step p q → Kept p q
Step-Kept p q (deposit amount e) = Ensures-ok _ _ (deposit_insurance_fund-Kept amount p) e
Step-Kept p q (withdraw auth amount e) =
    (Ensures-ok _ _ (withdraw_insurance_fund-Kept auth amount p) e).0
Step-Kept p q (claim accrued left e) = Ensures-ok _ _ (claim_fee_accrual-Kept accrued p) e

-- No sequence of successful deposits to the insurance fund, withdrawals from it and fee-share
-- claims changes the vault's surplus over the fund, the LP capital and the accrued fees, the
-- balance's difference to contributions less payouts, or the pause threshold.
pub surplus-Kept : (p q : Protocol) → Reach p q → Kept p q
surplus-Kept p q here = (refl, refl, refl)
surplus-Kept p q (next {q = m} r s) =
    let before = surplus-Kept p m r in
    let step = Step-Kept m q s in
    (omega (arith, before, step), omega (arith, before, step), omega (arith, before, step))
