-- ===== src/Vault/Holders.antt =====
-- A copy vault with its holders and its tokens, under every sequence of deposits and withdrawals.
use native.Mathlib.Nat.{mul-le-mul, mod-le}
use flash_book.Common.{
  Returns, ◌*◌, ◌/◌, ◌%◌, ℕ, zero, suc, ◌+◌, ◌-◌, ◌≤◌, ◌<◌, ◌≡◌, some, List, [], ◌∷◌, get_elem?,
  set, ok, u64, Ensures, Ensures-ok, arith,
}
use flash_book.Vault.{
  CopyVaultAccount, deposit_to_copy_vault, withdraw_from_copy_vault, assets_on_withdraw,
  shares_on_deposit,
}
use flash_book.Vault.Price.{
  IsSeeded, NotDiluted, assets_bound, deposit_not_diluting, withdraw_not_diluting,
  assets_on_withdraw_lem,
}

-- The shares of each holder, and the balance of the token vault.
pub record System : Type 0 where
  pub vault : CopyVaultAccount
  pub holders : List ℕ
  pub tokens : ℕ

-- An instruction that succeeds, and the token transfer that it asks for.
pub data Step (s t : System) : Type 0 where
  deposit :
      (i amount holder : ℕ) (q : CopyVaultAccount × ℕ × ℕ)
      → get_elem? s.holders i ≡ some holder
      → deposit_to_copy_vault amount s.vault holder ≡ ok q
      → t ≡ record { vault = q.0; holders = set s.holders i q.1; tokens = s.tokens + q.2 }
      → Step s t
  withdraw :
      (i shares holder : ℕ) (q : CopyVaultAccount × ℕ × ℕ)
      → get_elem? s.holders i ≡ some holder
      → withdraw_from_copy_vault shares s.tokens s.vault holder ≡ ok q
      → t ≡ record { vault = q.0; holders = set s.holders i q.1; tokens = s.tokens - q.2 }
      → Step s t

pub data Reach (s : System) : System → Type 0 where
  here : Reach s s
  next : {t u : System} → Reach s t → Step t u → Reach s u

abbrev pub sum : List ℕ → ℕ
sum [] = 0
sum (x ∷ xs) = x + sum xs

sum-set : (xs : List ℕ) (i x y : ℕ) → get_elem? xs i ≡ some x → sum (set xs i y) + x ≡ sum xs + y
sum-set [] i x y h = cc
sum-set (z ∷ xs) zero x y h = ground arith
sum-set (z ∷ xs) (suc i) x y h = omega (arith, sum-set xs i x y h)

-- The shares add up, the tokens back the accounted assets, and assets need shares.
pub record IsBacked (s : System) : Type 0 where
  pub shares_add_up : sum s.holders ≡ s.vault.total_shares
  pub backed : s.vault.total_assets_quote_lots ≤ s.tokens
  pub seeded : IsSeeded s.vault
  pub in_range : s.vault.total_assets_quote_lots < u64

deposit_moves :
    (amount : ℕ) (v : CopyVaultAccount) (holder : ℕ)
    → Ensures (deposit_to_copy_vault amount v holder) λ q.
      (q.0.total_shares + holder ≡ v.total_shares + q.1)
      × (q.0.total_assets_quote_lots ≡ v.total_assets_quote_lots + q.2)
      × (q.0.total_assets_quote_lots < u64)
unfolding deposit_to_copy_vault shares_on_deposit
deposit_moves amount v holder = ground arith

withdraw_moves :
    (shares tokens : ℕ) (v : CopyVaultAccount) (holder : ℕ)
    → v.total_assets_quote_lots < u64
    → Ensures (withdraw_from_copy_vault shares tokens v holder) λ q.
      (q.0.total_shares + holder ≡ v.total_shares + q.1)
      × (q.0.total_assets_quote_lots + q.2 ≡ v.total_assets_quote_lots)
unfolding withdraw_from_copy_vault
withdraw_moves shares tokens v holder h =
    ground (arith, assets_on_withdraw_lem shares v.total_shares v.total_assets_quote_lots h)

Step-IsBacked : (s t : System) → IsBacked s → Step s t → IsBacked t
Step-IsBacked s t b (deposit i amount holder q e h g) =
    let moved = Ensures-ok _ _ (deposit_moves amount s.vault holder) h in
    let priced = Ensures-ok _ _ (deposit_not_diluting amount s.vault holder b.seeded) h in
    rw g (record {
      shares_add_up = omega (arith, sum-set s.holders i holder q.1 e, moved.0, b.shares_add_up);
      backed = omega (arith, moved.1, b.backed);
      seeded = priced.1;
      in_range = moved.2;
    })
Step-IsBacked s t b (withdraw i shares holder q e h g) =
    let moved = Ensures-ok _ _ (withdraw_moves shares s.tokens s.vault holder b.in_range) h in
    let priced =
      Ensures-ok _ _ (withdraw_not_diluting shares s.tokens s.vault holder b.in_range) h in
    rw g (record {
      shares_add_up = omega (arith, sum-set s.holders i holder q.1 e, moved.0, b.shares_add_up);
      backed = omega (arith, moved.1, b.backed);
      seeded = priced.1;
      in_range = omega (arith, moved.1, b.in_range);
    })

-- From a copy vault whose holders' shares add up to its total, whose tokens cover its accounted
-- assets, a u64, and that has no assets without shares, every sequence of successful deposits
-- and withdrawals by any holders keeps all of that.
pub shares-IsBacked : (s t : System) → IsBacked s → Reach s t → IsBacked t
shares-IsBacked s t b here = b
shares-IsBacked s t b (next {t = u} r p) = Step-IsBacked u t (shares-IsBacked s u b r) p

elem-le-sum : (xs : List ℕ) (i x : ℕ) → get_elem? xs i ≡ some x → x ≤ sum xs
elem-le-sum [] i x h = cc
elem-le-sum (y ∷ xs) zero x h = ground arith
elem-le-sum (y ∷ xs) (suc i) x h = omega (arith, elem-le-sum xs i x h)

assets_on_withdraw-Returns :
    (shares total assets : ℕ)
    → shares ≤ total
    → 0 < shares
    → total < u64
    → assets < u64
    → Returns (assets_on_withdraw shares total assets) λ q. q ≤ assets
unfolding assets_on_withdraw
assets_on_withdraw-Returns shares total assets h k l m =
    ground (arith, product, payout, assets_bound shares total assets (omega arith) h)
  where
    product : shares * assets ≤ (u64 - 1) * (u64 - 1)
    product = mul-le-mul {n₂ = u64 - 1} {m₂ = u64 - 1} (omega arith) (omega arith)

    payout : shares * assets / total % u64 ≤ shares * assets / total
    payout = mod-le (shares * assets / total) u64

-- In a vault whose shares add up, whose tokens cover its assets, a u64, and whose total shares
-- fit in a u64, any holder can withdraw any positive number of the shares held: the instruction
-- succeeds, takes just those shares, and pays at most the assets.
pub withdrawal_never_blocked :
    (s : System) (i shares holder : ℕ)
    → IsBacked s
    → s.vault.total_shares < u64
    → get_elem? s.holders i ≡ some holder
    → 0 < shares
    → shares ≤ holder
    → Returns
        (withdraw_from_copy_vault shares s.tokens s.vault holder)
        λ q. (q.1 ≡ holder - shares) × (q.2 ≤ s.vault.total_assets_quote_lots)
unfolding withdraw_from_copy_vault
withdrawal_never_blocked s i shares holder b t e k l =
    let all = elem-le-sum s.holders i holder e in
    let paid =
      assets_on_withdraw-Returns shares s.vault.total_shares s.vault.total_assets_quote_lots
        (omega (arith, all, b.shares_add_up)) k t b.in_range in
    ground (arith, paid, b.backed)

-- No successful deposit or withdrawal by any holder lowers the assets of a share, in a vault
-- whose shares add up, whose tokens cover its assets, a u64, and that has no assets without
-- shares.
pub Step-NotDiluted : (s t : System) → IsBacked s → Step s t → NotDiluted s.vault t.vault
Step-NotDiluted s t b (deposit i amount holder q e h g) =
    rw g ((Ensures-ok _ _ (deposit_not_diluting amount s.vault holder b.seeded) h).0)
Step-NotDiluted s t b (withdraw i shares holder q e h g) =
    rw g ((Ensures-ok _ _ (withdraw_not_diluting shares s.tokens s.vault holder b.in_range) h).0)
