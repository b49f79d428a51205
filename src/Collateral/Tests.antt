-- ===== src/Collateral/Tests.antt =====
-- A run of moves of collateral, and the theorem on it.
use flash_book.Common.{◌≡◌, refl, List, [], ◌∷◌}
use flash_book.Common.Int.{negsuc}
use flash_book.Collateral.Ledger.{
  Books, Move, main_to_sub, isolate, reward, force_reduce, apply_move, apply_moves, sum,
  apply_moves_conserve,
}
use flash_book.Collateral.{
  apply_collateral_transfer, check_simple_withdraw, split_to_isolated, merge_to_cross,
  apply_liquidation_reward, force_close_against_insurance, force_reduce_settle,
}

abbrev books : Books
books = record { main = 100; sub = 0; iso = 0; liquidator = 5; fund = 40 }

-- The second transfer would leave less than the reservation, and is refused.
abbrev moves : List Move
moves = main_to_sub 30 50 ∷ main_to_sub 30 50 ∷ isolate 20 ∷ reward 3 ∷ force_reduce (negsuc 9) ∷ []

moves_run :
    apply_moves moves books ≡ record { main = 57; sub = 30; iso = 0; liquidator = 8; fund = 50 }
unfolding apply_moves apply_move apply_collateral_transfer check_simple_withdraw split_to_isolated
    merge_to_cross apply_liquidation_reward force_close_against_insurance force_reduce_settle
moves_run = refl

apply_moves_conserve_example : sum (apply_moves moves books) ≡ 145
apply_moves_conserve_example = apply_moves_conserve moves books
