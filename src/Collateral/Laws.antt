-- ===== src/Collateral/Laws.antt =====
-- What one move keeps, by the cores of programs/clober/src/xmargin.rs and lib.rs.
use flash_book.Common.{ℕ, ◌+◌, ◌≤◌, ◌≡◌, Ensures, arith}
use flash_book.Common.Int.{ℤ, pos_part, neg_part}
use flash_book.Collateral.{
  check_simple_withdraw, apply_collateral_transfer, split_to_isolated, merge_to_cross,
  apply_liquidation_reward, force_close_against_insurance, force_reduce_settle,
}

pub apply_collateral_transfer_lem :
    (src dst amount er : ℕ)
    → Ensures
        (apply_collateral_transfer src dst amount er)
        λ q. (q.0 + q.1 ≡ src + dst) × (q.1 ≡ dst + amount) × (er ≤ q.0)
unfolding apply_collateral_transfer check_simple_withdraw
apply_collateral_transfer_lem src dst amount er = ground arith

pub split_to_isolated_lem :
    (cross amount : ℕ) → Ensures (split_to_isolated cross amount) λ q. q.0 + q.1 ≡ cross
unfolding split_to_isolated
split_to_isolated_lem cross amount = ground arith

pub merge_to_cross_lem : (cross iso : ℕ) → Ensures (merge_to_cross cross iso) λ q. q ≡ cross + iso
unfolding merge_to_cross
merge_to_cross_lem cross iso = ground arith

pub apply_liquidation_reward_lem :
    (src caller reward : ℕ)
    → Ensures
        (apply_liquidation_reward src caller reward)
        λ q. (q.0 + q.1 ≡ src + caller) × (q.2 ≤ reward) × (q.1 ≡ caller + q.2)
unfolding apply_liquidation_reward
apply_liquidation_reward_lem src caller reward = ground arith

pub force_close_against_insurance_lem :
    (pnl : ℤ) (bucket insurance : ℕ)
    → let q = force_close_against_insurance pnl bucket insurance in
      (q.0 + q.1 ≡ bucket + insurance)
      × (q.0 ≤ bucket + pos_part pnl)
      × (bucket ≤ q.0 + neg_part pnl)
unfolding force_close_against_insurance
force_close_against_insurance_lem pnl bucket insurance = ground arith

pub force_reduce_settle_lem :
    (pnl : ℤ) (iso cross insurance : ℕ)
    → Ensures
        (force_reduce_settle pnl iso cross insurance)
        λ q. (q.0 + q.1 + q.2 ≡ iso + cross + insurance) × (q.0 ≡ 0)
unfolding force_reduce_settle merge_to_cross
force_reduce_settle_lem pnl iso cross insurance = ground (
  arith,
  force_close_against_insurance_lem pnl iso insurance,
  force_close_against_insurance_lem pnl cross insurance,
)
