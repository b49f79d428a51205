-- ===== src/Envelope/Gate.antt =====
-- The gate of a price move, programs/clober/src/matcher/envelope.rs, with the envelope.
use native.Mathlib.Nat.{div-add-mod, mod-lt}
use flash_book.Common.{
  abs_diff, ℕ, zero, suc, ◌+◌, ◌*◌, ◌%◌, ◌≤◌, ◌<◌, ◌≡◌, ◌≢◌, arith, ◌==◌, ok, ==_false, Bool-cases,
  inl, inr, Ensures, Ensures-ok,
}
use flash_book.Accrual.{funding_den}
use flash_book.Risk.{bps_denom}
use flash_book.Envelope.{
  EnvelopeParams, ceil_div, breakpoint_notional, prove_envelope, gate_price_move,
}
use flash_book.Envelope.Bound.{
  price_budget_of, loss_budget_of, loss_at, fee_at, mm_at, prove_envelope-IsCovered,
}

gate_price_move_lem :
    (p_last p_new dt cap : ℕ)
    → p_last ≢ 0
    → Ensures
        (gate_price_move p_last p_new dt cap)
        λ u. abs_diff p_new p_last * bps_denom ≤ cap * dt * p_last
unfolding gate_price_move
gate_price_move_lem p_last p_new dt cap h = ground arith

le-ceil_div-mul : (a d : ℕ) → 0 < d → a ≤ ceil_div a d * d
unfolding ceil_div
le-ceil_div-mul a zero h = absurd (omega arith)
le-ceil_div-mul a (suc d) h = elim (Bool-cases (a % suc d == 0)) [
  | inl none ↦ rw (==_false (suc d) 0 (omega arith), none) (grind (arith, div-add-mod a (suc d)))
  | inr some ↦
      rw (==_false (suc d) 0 (omega arith), some)
        (grind (arith, div-add-mod a (suc d), mod-lt a {m = suc d} h))
]

mul_mono : (a b c : ℕ) → a ≤ b → c * a ≤ c * b
mul_mono a b c h = grind arith

scaled-le :
    (size p_last delta budget funded : ℕ)
    → delta * 10000 ≤ budget * p_last
    → size * delta * 10000000000000 ≤ size * p_last * (budget * 1000000000 + funded)
scaled-le size p_last delta budget funded h =
    let moved = mul_mono (delta * 10000) (budget * p_last) size h in grind arith

-- A loss that is within the price budget is within the loss of the envelope.
move-le :
    (p : EnvelopeParams) (size p_last delta : ℕ)
    → delta * bps_denom ≤ price_budget_of p * p_last
    → size * delta ≤ loss_at p (size * p_last)
move-le p size p_last delta h = omega (
  arith,
  scaled-le size p_last delta (price_budget_of p) _ h,
  le-ceil_div-mul (size * p_last * loss_budget_of p) (bps_denom * funding_den) (omega arith),
)

-- Where the parameters pass the check and the gate admits a price within an accrual window, a
-- position whose notional at the last price is at most the breakpoint, and which had its
-- maintenance margin, can bear the move and its liquidation fee.
pub gate-IsSurvived :
    (p : EnvelopeParams) (p_last p_new dt size : ℕ)
    → prove_envelope p ≡ ok tt
    → gate_price_move p_last p_new dt p.max_price_move_bps_per_slot ≡ ok tt
    → p_last ≢ 0
    → 0 < size
    → dt ≤ p.max_accrual_dt_slots
    → size * p_last ≤ breakpoint_notional p
    → size * abs_diff p_new p_last + fee_at p (size * p_last) ≤ mm_at p (size * p_last)
gate-IsSurvived p p_last p_new dt size passed gated priced some within small = omega (
  arith,
  prove_envelope-IsCovered p (size * p_last) passed held (inl small),
  move-le p size p_last (abs_diff p_new p_last) moved,
)
  where
    held : size * p_last ≢ 0
    held = grind arith

    window :
        p.max_price_move_bps_per_slot * dt * p_last
        ≤ p.max_price_move_bps_per_slot * p.max_accrual_dt_slots * p_last
    window = grind (arith, mul_mono dt p.max_accrual_dt_slots p.max_price_move_bps_per_slot within)

    moved : abs_diff p_new p_last * bps_denom ≤ price_budget_of p * p_last
    moved = omega (
      arith,
      Ensures-ok (gate_price_move p_last p_new dt p.max_price_move_bps_per_slot) _
          (gate_price_move_lem p_last p_new dt p.max_price_move_bps_per_slot priced) gated,
      window,
    )
