-- ===== src/Vault/Price.antt =====
-- The price of a share: neither deposits nor withdrawals dilute those who stay, and nobody takes out
-- more than was put in.
use native.Mathlib.Nat.{le_antisymm, mod-eq_of_lt, mul-le-mul_right}
use flash_book.Common.{Ensures-map, ℕ, ◌+◌, ◌-◌, ◌*◌, ◌/◌, ◌%◌, ◌≤◌, ◌<◌, ◌≡◌, u64, Ensures, arith}
use flash_book.Common.Arith.{div-mul-le, div_le, le_div, split_product}
use flash_book.Vault.{
  shares_on_deposit, assets_on_withdraw, CopyVaultAccount, deposit_to_copy_vault,
  withdraw_from_copy_vault,
}

-- A share of the first vault is worth no more than one of the second.
abbrev pub NotDiluted : CopyVaultAccount → CopyVaultAccount → Type 0
NotDiluted v w =
    v.total_assets_quote_lots * w.total_shares ≤ w.total_assets_quote_lots * v.total_shares

-- A vault without shares holds nothing, as it is created.
abbrev pub IsSeeded : CopyVaultAccount → Type 0
IsSeeded v = v.total_shares ≡ 0 → v.total_assets_quote_lots ≡ 0

-- A successful deposit never lowers the assets of a share, if the vault has no assets without
-- shares, and the vault still has none.
pub deposit_not_diluting :
    (amount : ℕ) (v : CopyVaultAccount) (holder : ℕ)
    → IsSeeded v
    → Ensures (deposit_to_copy_vault amount v holder) λ q. NotDiluted v q.0 × IsSeeded q.0
unfolding deposit_to_copy_vault shares_on_deposit
deposit_not_diluting amount v holder h =
    ground (arith, div-mul-le (amount * v.total_shares) v.total_assets_quote_lots)

pub assets_bound : (s t a : ℕ) → 0 < t → s ≤ t → s * a / t ≤ a
assets_bound s t a h k = div_le a (s * a) t h (omega (arith, mul-le-mul_right a k))

withdrawn_price : (s t a q : ℕ) → s ≤ t → q ≤ a → q * t ≤ s * a → a * (t - s) ≤ (a - q) * t
withdrawn_price s t a q h k l = omega (arith, split_product t s a h, split_product a q t k, l)

-- What a withdrawal pays, where it is not refused.
pub assets_on_withdraw_lem :
    (shares total_shares assets : ℕ)
    → assets < u64
    → Ensures (assets_on_withdraw shares total_shares assets) λ q.
      (q ≡ shares * assets / total_shares)
      × (q ≤ assets)
      × (shares ≤ total_shares)
      × (0 < total_shares)
unfolding assets_on_withdraw
assets_on_withdraw_lem s t a h = ground (arith, assets_bound s t a, fits)
  where
    fits : 0 < t → s ≤ t → s * a / t % u64 ≡ s * a / t
    fits k l = mod-eq_of_lt (omega (arith, assets_bound s t a k l))

-- A successful withdrawal from a vault whose assets fit in a u64 never lowers the assets of a
-- share, and leaves no assets without shares.
pub withdraw_not_diluting :
    (shares tokens : ℕ) (v : CopyVaultAccount) (holder : ℕ)
    → v.total_assets_quote_lots < u64
    → Ensures (withdraw_from_copy_vault shares tokens v holder) λ q. NotDiluted v q.0 × IsSeeded q.0
unfolding withdraw_from_copy_vault
withdraw_not_diluting s tokens v holder h =
    let t = v.total_shares in
    let a = v.total_assets_quote_lots in
    ground (
      arith,
      assets_on_withdraw_lem s t a h,
      div-mul-le (s * a) t,
      withdrawn_price s t a (s * a / t),
      all_out t a,
    )
  where
    all_out : (t a : ℕ) → 0 < t → t * a / t ≡ a
    all_out t a k =
        le_antisymm (div_le a (t * a) t k (omega arith)) (le_div a (t * a) t k (omega arith))

-- What a first deposit of a holder leaves.
deposited :
    (amount : ℕ) (v : CopyVaultAccount)
    → IsSeeded v
    → Ensures (deposit_to_copy_vault amount v 0) λ q.
      (q.0.total_assets_quote_lots ≡ v.total_assets_quote_lots + amount)
      × (q.0.total_shares ≡ v.total_shares + q.1)
      × (q.0.total_assets_quote_lots < u64)
      × (q.1 * (v.total_assets_quote_lots + amount) ≤ amount * (v.total_shares + q.1))
unfolding deposit_to_copy_vault shares_on_deposit
deposited amount v h =
    ground (arith, div-mul-le (amount * v.total_shares) v.total_assets_quote_lots)

redeemed :
    (amount tokens holder : ℕ) (w : CopyVaultAccount)
    → w.total_assets_quote_lots < u64
    → holder * w.total_assets_quote_lots ≤ amount * w.total_shares
    → Ensures (withdraw_from_copy_vault holder tokens w holder) λ r. r.2 ≤ amount
unfolding withdraw_from_copy_vault
redeemed amount tokens holder w h k = ground (
  arith,
  assets_on_withdraw_lem holder w.total_shares w.total_assets_quote_lots h,
  div_le amount (holder * w.total_assets_quote_lots) w.total_shares,
)

-- Whoever deposits into a vault that has no assets without shares and withdraws the shares
-- minted at once gets at most the deposit.
pub round_trip :
    (amount tokens : ℕ) (v : CopyVaultAccount)
    → IsSeeded v
    → Ensures
        (deposit_to_copy_vault amount v 0)
        λ q. Ensures (withdraw_from_copy_vault q.1 tokens q.0 q.1) λ r. r.2 ≤ amount
round_trip amount tokens v h =
    Ensures-map (deposit_to_copy_vault amount v 0)
      (λ q w. redeemed amount tokens q.1 q.0 w.2 (rw (w.0, w.1) w.3)) (deposited amount v h)
