-- ===== src/Envelope/Tests.antt =====
-- Runs of the envelope check, programs/clober/src/matcher/envelope.rs.
use flash_book.Common.{◌+◌, ◌*◌, ◌≤◌, ◌≡◌, refl, arith, inl, ok}
use flash_book.Common.Int.{pos}
use flash_book.Envelope.{
  EnvelopeParams, ceil_div, breakpoint_notional, check_ranges, price_budget, loss_budget,
  check_probe, check_probes, prove_envelope, gate_price_move,
}
use flash_book.Envelope.Bound.{IsCovered, loss_at, fee_at, mm_at, prove_envelope-IsCovered}
use flash_book.Envelope.Gate.{gate-IsSurvived}

abbrev default : EnvelopeParams
default = record {
  max_price_move_bps_per_slot = 14;
  max_accrual_dt_slots = 100;
  max_abs_funding_e9_per_slot = pos 10000;
  maintenance_bps = 3000;
  liquidation_fee_bps = 50;
  min_liquidation_abs_lots = 1;
  min_nonzero_mm_req_lots = 100;
}

default-passes : prove_envelope default ≡ ok tt
unfolding prove_envelope check_ranges price_budget loss_budget check_probes check_probe ceil_div
    breakpoint_notional
default-passes = refl

breakpoint_of_default : breakpoint_notional default ≡ 333
unfolding breakpoint_notional
breakpoint_of_default = refl

prove_envelope-IsCovered_example : IsCovered default 250
prove_envelope-IsCovered_example =
    prove_envelope-IsCovered default 250 default-passes (omega arith)
      (inl (omega (arith, breakpoint_of_default)))

gate_passes : gate_price_move 100 105 50 14 ≡ ok tt
unfolding gate_price_move
gate_passes = refl

gate-IsSurvived_example : 2 * 5 + fee_at default (2 * 100) ≤ mm_at default (2 * 100)
gate-IsSurvived_example =
    gate-IsSurvived default 100 105 50 2 default-passes gate_passes (omega arith) (omega arith)
      (omega arith) (omega (arith, breakpoint_of_default))

-- Parameters that pass, although a notional past the breakpoint is not covered.
abbrev sharp : EnvelopeParams
sharp = record {
  max_price_move_bps_per_slot = 1;
  max_accrual_dt_slots = 1;
  max_abs_funding_e9_per_slot = pos 0;
  maintenance_bps = 1;
  liquidation_fee_bps = 0;
  min_liquidation_abs_lots = 0;
  min_nonzero_mm_req_lots = 1;
}

sharp-passes : prove_envelope sharp ≡ ok tt
unfolding prove_envelope check_ranges price_budget loss_budget check_probes check_probe ceil_div
    breakpoint_notional
sharp-passes = refl

sharp-uncovered : (loss_at sharp 10001 ≡ 2) × (fee_at sharp 10001 ≡ 0) × (mm_at sharp 10001 ≡ 1)
unfolding ceil_div
sharp-uncovered = (refl, refl, refl)
