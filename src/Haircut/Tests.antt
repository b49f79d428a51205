-- ===== src/Haircut/Tests.antt =====
-- Runs of the haircut functions, and the theorems at concrete inputs.
use flash_book.Common.{◌≡◌, ◌≤◌, refl, [], ◌∷◌, ok, arith}
use flash_book.Haircut.{
  compute_h, h_denom, mature_delta, PositionHaircutSnapshot, apply_release, apply_mature,
  matured_fraction,
}
use flash_book.Haircut.Payout.{total_credit, total_credit-le-residual}
use flash_book.Haircut.Pipeline.{IsWarming}

-- 600 of a pool of 1000 is still warming, since slot 50; 100 has matured and is not converted.
abbrev warm : PositionHaircutSnapshot
warm = record {
  released_reserve_quote_lots = 600;
  released_attached_at_slot = 50;
  matured_pos_quote_lots = 100;
  original_reserve_at_attach = 1000;
}

abbrev fresh : PositionHaircutSnapshot
fresh = record {
  released_reserve_quote_lots = 0;
  released_attached_at_slot = 0;
  matured_pos_quote_lots = 70;
  original_reserve_at_attach = 0;
}

warm-IsWarming : IsWarming warm
warm-IsWarming = omega arith

compute_h-run : (compute_h 50 200 ≡ 250_000_000) × (compute_h 300 200 ≡ h_denom)
unfolding compute_h
compute_h-run = (refl, refl)

-- At slot 155 half of the window from 10 to 200 is over.
apply_mature-run :
    apply_mature warm 155 10 200
    ≡ ok (record warm { released_reserve_quote_lots = 500; matured_pos_quote_lots = 200 }, 100)
unfolding apply_mature mature_delta matured_fraction
apply_mature-run = refl

total_credit-le-residual_example : total_credit (warm ∷ fresh ∷ []) (compute_h 50 200) ≤ 50
total_credit-le-residual_example =
    total_credit-le-residual (warm ∷ fresh ∷ []) 50 200 (omega arith, (omega arith, tt))
      (omega arith) (omega arith)

abbrev restarted : PositionHaircutSnapshot
restarted = record {
  released_reserve_quote_lots = 800;
  released_attached_at_slot = 155;
  matured_pos_quote_lots = 100;
  original_reserve_at_attach = 800;
}

apply_release-run : apply_release warm 200 155 10 ≡ ok restarted
unfolding apply_release
apply_release-run = refl
