-- ===== src/Accrual/Tests.antt =====
-- The theorems on the side indices at concrete sides, and runs.
use flash_book.Common.{◌*◌, ◌≡◌, refl, [], ◌∷◌, arith}
use flash_book.Common.Int.{pos}
use flash_book.Accrual.{
  SideAccrual, PositionSnapshot, drain_only, reset_pending, default_side, adl_one,
}
use flash_book.Accrual.Cycle.{Wave, waves, reset_is_missed}

abbrev running : SideAccrual
running = record default_side { k = pos (5 * adl_one); slot_last = 100; price_last = 70 }

abbrev drained : SideAccrual
drained = record running { a = 7; mode = drain_only }

abbrev waiting : SideAccrual
waiting = record default_side { mode = reset_pending; epoch = 1 }

abbrev third_closed : Wave
third_closed = record { oi = 2; closed = 1 }

abbrev all_closed : Wave
all_closed = record { oi = 0; closed = 2 }

abbrev snapshot : PositionSnapshot
snapshot = record {
  a_snap = adl_one;
  k_snap = pos adl_one;
  f_snap = pos 0;
  b_snap = pos 0;
  epoch_snap = 0;
}

reset_is_missed_example :
    let t = waves waiting (third_closed ∷ all_closed ∷ []) in
    (t.mode ≡ reset_pending) × (t.epoch ≡ 1)
reset_is_missed_example =
    reset_is_missed waiting third_closed (all_closed ∷ []) refl (omega arith)
      (omega arith, omega arith) ((omega arith, omega arith), tt) (omega arith) (omega arith)
