-- ===== src/Solvency/Tests.antt =====
-- The theorems on the solvency checks at a concrete protocol, and runs.
use flash_book.Common.{
  ℕ, ◌+◌, ◌≤◌, ◌<◌, ◌≡◌, refl, arith, ok, err, none, some, true, List, [], ◌∷◌, ◌==◌, if◌then◌else◌,
}
use flash_book.Common.Distinct.{sum_of, AreIn}
use flash_book.Errors.{protocol_insolvent, haircut_residual_unbacked}
use flash_book.Solvency.{
  Protocol, AccountInfo, trader_state, position, verify_collateral_solvency, sweep_account,
  sweep_accounts, partial_collateral_proves_insolvent, residual_exceeds_backed_surplus,
  deposit_insurance_fund, insurance_deposit_credit, withdraw_insurance_fund,
}
use flash_book.Solvency.Sweep.{AllExist, keys, insolvency_is_real, full_sweep_is_solvent}

abbrev protocol : ℕ → Protocol
protocol vault = record {
  vault = vault;
  balance_quote_lots = 100;
  pause_threshold_quote_lots = 20;
  total_contributions = 100;
  total_payouts = 0;
  total_fee_accrued_lots = 5;
  lp_capital = 200;
}

-- Two accounts exist; the first one is presented twice.
abbrev holds : ℕ → ℕ
holds k = if k == 1 then 400 else 60

abbrev all : List ℕ
all = 1 ∷ 2 ∷ []

abbrev trader : AccountInfo
trader = record { key = 1; is_owned = true; loads_as = trader_state 400 }

abbrev isolated : AccountInfo
isolated = record { key = 2; is_owned = true; loads_as = position 60 }

abbrev presented : List AccountInfo
presented = trader ∷ trader ∷ isolated ∷ []

presented-AllExist : AllExist all holds presented
presented-AllExist = ((refl, refl), ((refl, refl), ((refl, refl), tt)))

all-AreIn : AreIn all (keys presented)
unfolding AreIn
all-AreIn k h = ground arith

short_run : verify_collateral_solvency (protocol 759) none presented ≡ err protocol_insolvent
unfolding verify_collateral_solvency sweep_accounts sweep_account
    partial_collateral_proves_insolvent
short_run = refl

unbacked_run :
    verify_collateral_solvency (protocol 800) (some 41) presented ≡ err haircut_residual_unbacked
unfolding verify_collateral_solvency sweep_accounts sweep_account
    partial_collateral_proves_insolvent residual_exceeds_backed_surplus
unbacked_run = refl

full_run : verify_collateral_solvency (protocol 800) (some 40) presented ≡ ok tt
unfolding verify_collateral_solvency sweep_accounts sweep_account
    partial_collateral_proves_insolvent residual_exceeds_backed_surplus
full_run = refl

insolvency_is_real_example : 759 < sum_of holds all + 200 + 100
insolvency_is_real_example =
    insolvency_is_real all holds (protocol 759) none presented presented-AllExist short_run

full_sweep_is_solvent_example : sum_of holds all + 200 + 100 ≤ 800
full_sweep_is_solvent_example =
    full_sweep_is_solvent all holds (protocol 800) (some 40) presented presented-AllExist
      (refl, (refl, tt)) all-AreIn (omega arith) full_run

abbrev topped_up : Protocol
topped_up = record (protocol 407) { balance_quote_lots = 107; total_contributions = 107 }

abbrev paid_out : Protocol
paid_out = record topped_up { vault = 377; balance_quote_lots = 77; total_payouts = 30 }

top_up_run : deposit_insurance_fund 7 (protocol 400) ≡ ok topped_up
unfolding deposit_insurance_fund insurance_deposit_credit
top_up_run = refl

pay_out_run : withdraw_insurance_fund true 30 topped_up ≡ ok paid_out
unfolding withdraw_insurance_fund
pay_out_run = refl
