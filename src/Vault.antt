-- ===== src/Vault.antt =====
-- The copy vault: share arithmetic of programs/clober/src/matcher/vault_math.rs, and the two
-- instructions of programs/clober/src/lib.rs that move its money.
pub mod Price
pub mod Holders
mod Tests
use flash_book.Common.{
  ℕ, ◌-◌, ◌*◌, ◌/◌, ◌%◌, Bool, true, false, Option, ltb, leb, ◌==◌, if◌then◌else◌, Result, ok, err,
  ok_or, require, ◌>>=◌, ◌>>◌, u64, u128, checked_add, checked_mul, saturating_sub,
}
use flash_book.Errors.{
  CloberError, arithmetic_overflow, division_by_zero, out_of_range, zero_size,
  insufficient_collateral,
}

unfoldable pub shares_on_deposit : ℕ → ℕ → ℕ → Result CloberError ℕ
shares_on_deposit deposit total_shares total_assets = if total_shares == 0 then ok deposit else (do
  require (ltb 0 total_assets) division_by_zero
  product ← ok_or (checked_mul u128 deposit total_shares) arithmetic_overflow
  if ltb (u64 - 1) (product / total_assets)
      then err arithmetic_overflow
      else ok (product / total_assets))

unfoldable pub assets_on_withdraw : ℕ → ℕ → ℕ → Result CloberError ℕ
assets_on_withdraw shares total_shares total_assets = do
  require (ltb 0 total_shares) division_by_zero
  require (leb shares total_shares) out_of_range
  product ← ok_or (checked_mul u128 shares total_assets) arithmetic_overflow
  ok (product / total_shares % u64)

pub record CopyVaultAccount : Type 0 where
  pub total_shares : ℕ
  pub total_assets_quote_lots : ℕ

-- The vault, the holder's shares, and the tokens that are to move into the token vault.
unfoldable pub deposit_to_copy_vault :
    ℕ → CopyVaultAccount → ℕ → Result CloberError (CopyVaultAccount × ℕ × ℕ)
deposit_to_copy_vault amount v holder_shares = do
  require (ltb 0 amount) zero_size
  minted ← shares_on_deposit amount v.total_shares v.total_assets_quote_lots
  require (ltb 0 minted) zero_size
  assets ← ok_or (checked_add u64 v.total_assets_quote_lots amount) arithmetic_overflow
  shares ← ok_or (checked_add u64 v.total_shares minted) arithmetic_overflow
  holder ← ok_or (checked_add u64 holder_shares minted) arithmetic_overflow
  ok (record { total_shares = shares; total_assets_quote_lots = assets }, holder, amount)

-- The vault, the holder's shares, and the tokens that are to move out of the token vault, which
-- holds `token_vault_amount`. The two plain subtractions are below their guards.
unfoldable pub withdraw_from_copy_vault :
    ℕ → ℕ → CopyVaultAccount → ℕ → Result CloberError (CopyVaultAccount × ℕ × ℕ)
withdraw_from_copy_vault shares token_vault_amount v holder_shares = do
  require (ltb 0 shares) zero_size
  require (leb shares holder_shares) insufficient_collateral
  assets ← assets_on_withdraw shares v.total_shares v.total_assets_quote_lots
  require (leb assets token_vault_amount) insufficient_collateral
  ok (
    record {
      total_shares = v.total_shares - shares;
      total_assets_quote_lots = saturating_sub v.total_assets_quote_lots assets;
    },
    holder_shares - shares,
    assets,
  )
