-- ===== src/Collateral/Ledger.antt =====
-- A trader's main and sub-account, an isolated position, a liquidator and the insurance fund, under
-- every sequence of moves between them.
use flash_book.Common.{
  ℕ, ◌+◌, ◌≡◌, refl, ◌∙◌, List, [], ◌∷◌, ltb, if◌then◌else◌, Result, ok, err, require, ◌==◌, ◌>>=◌,
  ◌>>◌, Ensures, arith,
}
use flash_book.Common.Int.{ℤ}
use flash_book.Errors.{CloberError, out_of_range}
use flash_book.Collateral.{
  apply_collateral_transfer, split_to_isolated, merge_to_cross, apply_liquidation_reward,
  force_reduce_settle,
}
use flash_book.Collateral.Laws.{
  apply_collateral_transfer_lem, split_to_isolated_lem, merge_to_cross_lem,
  apply_liquidation_reward_lem, force_reduce_settle_lem,
}

pub record Books : Type 0 where
  pub main : ℕ
  pub sub : ℕ
  pub iso : ℕ
  pub liquidator : ℕ
  pub fund : ℕ

-- The handlers that call the cores. A transfer is given the reservation that the rollup attests.
pub data Move : Type 0 where
  main_to_sub sub_to_main : ℕ → ℕ → Move
  isolate : ℕ → Move
  unisolate : Move
  reward : ℕ → Move
  force_reduce : ℤ → Move

-- The checks of margin health are left out: they only refuse moves. A position is isolated only
-- where it has no collateral of its own, and pays a reward itself where it has some.
unfoldable pub apply_move : Move → Books → Result CloberError Books
apply_move (main_to_sub amount er) b = do
  (m, s) ← apply_collateral_transfer b.main b.sub amount er
  ok (record b { main = m; sub = s })
apply_move (sub_to_main amount er) b = do
  (s, m) ← apply_collateral_transfer b.sub b.main amount er
  ok (record b { main = m; sub = s })
apply_move (isolate amount) b = do
  require (b.iso == 0) out_of_range
  (m, i) ← split_to_isolated b.main amount
  ok (record b { main = m; iso = i })
apply_move unisolate b = do
  require (ltb 0 b.iso) out_of_range
  m ← merge_to_cross b.main b.iso
  ok (record b { main = m; iso = 0 })
apply_move (reward amount) b =
    if ltb 0 b.iso
    then (do
      (i, l, paid) ← apply_liquidation_reward b.iso b.liquidator amount
      ok (record b { iso = i; liquidator = l }))
    else (do
      (m, l, paid) ← apply_liquidation_reward b.main b.liquidator amount
      ok (record b { main = m; liquidator = l }))
apply_move (force_reduce pnl) b = do
  (i, m, f) ← force_reduce_settle pnl b.iso b.main b.fund
  ok (record b { iso = i; main = m; fund = f })

-- A move that fails reverts.
abbrev pub settled : Result CloberError Books → Books → Books
settled (ok c) b = c
settled (err e) b = b

unfoldable pub apply_moves : List Move → Books → Books
apply_moves [] b = b
apply_moves (m ∷ ms) b = apply_moves ms (settled (apply_move m b) b)

abbrev pub sum : Books → ℕ
sum b = b.main + b.sub + b.iso + b.liquidator + b.fund

apply_move_sum : (m : Move) (b : Books) → Ensures (apply_move m b) λ c. sum c ≡ sum b
unfolding apply_move
apply_move_sum (main_to_sub amount er) b =
    ground (arith, apply_collateral_transfer_lem b.main b.sub amount er)
apply_move_sum (sub_to_main amount er) b =
    ground (arith, apply_collateral_transfer_lem b.sub b.main amount er)
apply_move_sum (isolate amount) b = ground (arith, split_to_isolated_lem b.main amount)
apply_move_sum unisolate b = ground (arith, merge_to_cross_lem b.main b.iso)
apply_move_sum (reward amount) b = ground (
  arith,
  apply_liquidation_reward_lem b.iso b.liquidator amount,
  apply_liquidation_reward_lem b.main b.liquidator amount,
)
apply_move_sum (force_reduce pnl) b =
    ground (arith, force_reduce_settle_lem pnl b.iso b.main b.fund)

settled_sum :
    (r : Result CloberError Books) (b : Books)
    → Ensures r (λ c. sum c ≡ sum b)
    → sum (settled r b) ≡ sum b
settled_sum (ok c) b h = h
settled_sum (err e) b h = refl

-- No sequence of transfers between a trader's main and sub-account, isolations and their
-- returns, liquidation rewards and forced closes by the oracle changes what the trader's two
-- accounts, the isolated position, the liquidator and the insurance fund hold together. A move
-- that fails changes nothing.
pub apply_moves_conserve : (ms : List Move) (b : Books) → sum (apply_moves ms b) ≡ sum b
unfolding apply_moves
apply_moves_conserve [] b = refl
apply_moves_conserve (m ∷ ms) b =
    apply_moves_conserve ms (settled (apply_move m b) b)
    ∙ settled_sum (apply_move m b) b (apply_move_sum m b)
