-- ===== src/Vault/Tests.antt =====
-- The theorems on the copy vault at concrete vaults, and runs.
use flash_book.Common.{Returns, ◌≤◌, ◌≡◌, refl, arith, ok, [], ◌∷◌}
use flash_book.Vault.{
  CopyVaultAccount, deposit_to_copy_vault, withdraw_from_copy_vault, shares_on_deposit,
  assets_on_withdraw,
}
use flash_book.Vault.Price.{NotDiluted, IsSeeded}
use flash_book.Vault.Holders.{
  System, here, next, deposit, withdraw, IsBacked, shares-IsBacked, withdrawal_never_blocked,
  Step-NotDiluted,
}

-- 30 shares on 100 quote lots.
abbrev vault : CopyVaultAccount
vault = record { total_shares = 30; total_assets_quote_lots = 100 }

vault-IsSeeded : IsSeeded vault
vault-IsSeeded e = absurd (omega arith)

abbrev start : System
start = record { vault = vault; holders = 26 ∷ 4 ∷ []; tokens = 101 }

abbrev after_deposit : System
after_deposit = record {
  vault = record { total_shares = 32; total_assets_quote_lots = 107 };
  holders = 26 ∷ 6 ∷ [];
  tokens = 108;
}

abbrev after_withdrawal : System
after_withdrawal = record {
  vault = record { total_shares = 27; total_assets_quote_lots = 91 };
  holders = 21 ∷ 6 ∷ [];
  tokens = 92;
}

deposit_run :
    deposit_to_copy_vault 7 vault 4
    ≡ ok (record { total_shares = 32; total_assets_quote_lots = 107 }, 6, 7)
unfolding deposit_to_copy_vault shares_on_deposit
deposit_run = refl

withdraw_run :
    withdraw_from_copy_vault 5 108 after_deposit.vault 26
    ≡ ok (record { total_shares = 27; total_assets_quote_lots = 91 }, 21, 16)
unfolding withdraw_from_copy_vault assets_on_withdraw
withdraw_run = refl

start-IsBacked : IsBacked start
start-IsBacked = record {
  shares_add_up = refl;
  backed = omega arith;
  seeded = vault-IsSeeded;
  in_range = omega arith;
}

shares-IsBacked_example : IsBacked after_withdrawal
shares-IsBacked_example = shares-IsBacked start after_withdrawal start-IsBacked (
    next
      (next here (
        deposit 1 7 4 (record { total_shares = 32; total_assets_quote_lots = 107 }, 6, 7) refl
          deposit_run refl))
      (withdraw 0 5 26 (record { total_shares = 27; total_assets_quote_lots = 91 }, 21, 16) refl
        withdraw_run refl))

withdrawal_never_blocked_example :
    Returns (withdraw_from_copy_vault 26 101 vault 26) λ q. (q.1 ≡ 0) × (q.2 ≤ 100)
withdrawal_never_blocked_example =
    withdrawal_never_blocked start 0 26 26 start-IsBacked (omega arith) refl (omega arith)
      (omega arith)

Step-NotDiluted_example : NotDiluted vault after_deposit.vault
Step-NotDiluted_example = Step-NotDiluted start after_deposit start-IsBacked (
    deposit 1 7 4 (record { total_shares = 32; total_assets_quote_lots = 107 }, 6, 7) refl
      deposit_run refl)
