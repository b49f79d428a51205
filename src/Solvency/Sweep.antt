-- ===== src/Solvency/Sweep.antt =====
-- What `verify_collateral_solvency` of programs/clober/src/lib.rs says of the accounts that it did
-- not see.
use flash_book.Common.{
  ℕ, ◌+◌, ◌≤◌, ◌<◌, ◌≡◌, ◌≢◌, ◌⊎◌, refl, inl, inr, true, Option, some, List, [], ◌∷◌, ok, err, u64,
  arith, Ensures, Ensures-map, Ensures-both, Ensures->>=, err->>=,
}
use flash_book.Common.Distinct.{
  contains, AreDistinct, AreIn, sum_of, sum_of-le, AreIn-cons, AreIn-nil, AreIn-self, AreIn-weaken,
  AreIn-trans, contains-AreIn,
}
use flash_book.Errors.{CloberError, protocol_insolvent, haircut_residual_unbacked}
use flash_book.Solvency.{
  AccountInfo, sweep_account, sweep_accounts, Protocol, verify_collateral_solvency, collateral_of,
  partial_collateral_proves_insolvent, residual_exceeds_backed_surplus,
}

sweep_account-err :
    (a : AccountInfo) (seen : List ℕ) (sum : ℕ) (e : CloberError)
    → (e ≡ protocol_insolvent) ⊎ (e ≡ haircut_residual_unbacked)
    → sweep_account a seen sum ≢ err e
unfolding sweep_account
sweep_account-err a seen sum e h p = ground arith

-- The loop raises neither of the errors that report insolvency.
sweep_accounts-err :
    (accounts : List AccountInfo) (seen : List ℕ) (sum : ℕ) (e : CloberError)
    → (e ≡ protocol_insolvent) ⊎ (e ≡ haircut_residual_unbacked)
    → sweep_accounts accounts seen sum ≢ err e
unfolding sweep_accounts
sweep_accounts-err [] seen sum e h = λ p. ground arith
sweep_accounts-err (a ∷ rest) seen sum e h =
    err->>= (sweep_account a seen sum) _ e (sweep_account-err a seen sum e h)
      (λ q. sweep_accounts-err rest q.0 q.1 e h)

abbrev pub keys : List AccountInfo → List ℕ
keys [] = []
keys (a ∷ rest) = a.key ∷ keys rest

sweep_account-seen :
    (a : AccountInfo) (seen : List ℕ) (sum : ℕ)
    → Ensures (sweep_account a seen sum) λ q. AreIn seen q.0 × (contains q.0 a.key ≡ true)
unfolding sweep_account
sweep_account-seen a seen sum = ground (arith, AreIn-self seen, AreIn-weaken a.key seen)

sweep_accounts-seen :
    (accounts : List AccountInfo) (seen : List ℕ) (sum : ℕ)
    → Ensures (sweep_accounts accounts seen sum) λ q. AreIn seen q.0 × AreIn (keys accounts) q.0
unfolding sweep_accounts
sweep_accounts-seen [] seen sum = (AreIn-self seen, AreIn-nil seen)
sweep_accounts-seen (a ∷ rest) seen sum =
    Ensures->>= (sweep_account a seen sum) _ _ _ (sweep_account-seen a seen sum) λ q w.
      Ensures-map (sweep_accounts rest q.0 q.1)
        (λ r v. (
          AreIn-trans seen q.0 r.0 w.0 v.0,
          AreIn-cons a.key (keys rest) r.0 (contains-AreIn q.0 r.0 a.key v.0 w.1) v.1,
        ))
        (sweep_accounts-seen rest q.0 q.1)

-- The collateral of every account that there is: the keys, and what each holds.
module _ (all : List ℕ) (holds : ℕ → ℕ) where
  -- An account that exists, and holds what it loads as.
  abbrev pub Exists : AccountInfo → Type 0
  Exists a = (contains all a.key ≡ true) × Ensures (collateral_of a.loads_as) (λ c. c ≡ holds a.key)

  abbrev pub AllExist : List AccountInfo → Type 0
  AllExist [] = Unit
  AllExist (a ∷ rest) = Exists a × AllExist rest

  -- The state of the loop: distinct keys of existing accounts, and the sum of what they hold.
  abbrev pub Swept : List ℕ × ℕ → Type 0
  Swept q = AreDistinct q.0 × AreIn q.0 all × (q.1 ≡ sum_of holds q.0)

  sweep_account-Swept :
      (a : AccountInfo) (seen : List ℕ) (sum : ℕ)
      → Exists a
      → Swept (seen, sum)
      → Ensures (sweep_account a seen sum) Swept
  unfolding sweep_account
  sweep_account-Swept a seen sum e w = ground (arith, AreIn-cons a.key seen all)

  sweep_accounts-Swept :
      (accounts : List AccountInfo) (seen : List ℕ) (sum : ℕ)
      → AllExist accounts
      → Swept (seen, sum)
      → Ensures (sweep_accounts accounts seen sum) Swept
  unfolding sweep_accounts
  sweep_accounts-Swept [] seen sum e w = w
  sweep_accounts-Swept (a ∷ rest) seen sum e w =
      Ensures->>= (sweep_account a seen sum) _ Swept Swept (sweep_account-Swept a seen sum e.0 w)
        (λ q v. sweep_accounts-Swept rest q.0 q.1 e.1 v)

  sweep_accounts-le :
      (accounts : List AccountInfo)
      → AllExist accounts
      → Ensures (sweep_accounts accounts [] 0) (λ q. q.1 ≤ sum_of holds all)
  sweep_accounts-le accounts e =
      Ensures-map (sweep_accounts accounts [] 0)
        (λ q w. omega (arith, w.2, sum_of-le holds q.0 all w.0 w.1))
        (sweep_accounts-Swept accounts [] 0 e (tt, AreIn-nil all, refl))

  -- The collateral sweep never raises a false alarm: if the accounts presented exist and hold
  -- what they load as, repeated or not, and the sweep reports an insolvent protocol, then the
  -- vault holds less than the collateral of all accounts, the LP capital and the insurance fund
  -- together.
  pub insolvency_is_real :
      (p : Protocol) (residual : Option ℕ) (accounts : List AccountInfo)
      → AllExist accounts
      → verify_collateral_solvency p residual accounts ≡ err protocol_insolvent
      → p.vault < sum_of holds all + p.lp_capital + p.balance_quote_lots
  unfolding verify_collateral_solvency partial_collateral_proves_insolvent
  insolvency_is_real p residual accounts e h = ground (
    arith,
    sweep_accounts-le accounts e,
    sweep_accounts-err accounts [] 0 protocol_insolvent (inl refl),
  )

  -- If a sweep over existing accounts reports an unbacked Residual, and the vault is a u64, then
  -- the vault holds less than the collateral of all accounts, the LP capital, the insurance fund
  -- and that Residual together.
  pub unbacked_is_real :
      (p : Protocol) (residual : ℕ) (accounts : List AccountInfo)
      → AllExist accounts
      → p.vault < u64
      → verify_collateral_solvency p (some residual) accounts ≡ err haircut_residual_unbacked
      → p.vault < sum_of holds all + p.lp_capital + p.balance_quote_lots + residual
  unfolding verify_collateral_solvency partial_collateral_proves_insolvent
      residual_exceeds_backed_surplus
  unbacked_is_real p residual accounts e v h = ground (
    arith,
    sweep_accounts-le accounts e,
    sweep_accounts-err accounts [] 0 haircut_residual_unbacked (inr refl),
  )

  -- If a sweep over every existing account, whose keys are distinct, passes, and there is any
  -- collateral, then the vault covers the collateral of all accounts, the LP capital and the
  -- insurance fund.
  pub full_sweep_is_solvent :
      (p : Protocol) (residual : Option ℕ) (accounts : List AccountInfo)
      → AllExist accounts
      → AreDistinct all
      → AreIn all (keys accounts)
      → 0 < sum_of holds all
      → verify_collateral_solvency p residual accounts ≡ ok tt
      → sum_of holds all + p.lp_capital + p.balance_quote_lots ≤ p.vault
  unfolding verify_collateral_solvency partial_collateral_proves_insolvent
  full_sweep_is_solvent p residual accounts e d c z h = ground (arith, swept)
    where
      swept : Ensures (sweep_accounts accounts [] 0) (λ q. sum_of holds all ≤ q.1)
      swept =
          Ensures-map (sweep_accounts accounts [] 0)
            (λ q w. omega (
              arith,
              w.0.2,
              sum_of-le holds all q.0 d (AreIn-trans all (keys accounts) q.0 c w.1.1),
            ))
            (Ensures-both Swept _ (sweep_accounts accounts [] 0)
              (sweep_accounts-Swept accounts [] 0 e (tt, AreIn-nil all, refl))
              (sweep_accounts-seen accounts [] 0))
