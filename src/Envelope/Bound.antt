-- ===== src/Envelope/Bound.antt =====
-- Up to where the envelope of programs/clober/src/matcher/envelope.rs holds.
use native.Mathlib.Nat.{div-add-mod}
use flash_book.Common.{
  ℕ, zero, suc, ◌+◌, ◌*◌, ◌/◌, ◌≤◌, ◌≡◌, ◌≢◌, refl, max, arith, Result, ok, err, u128,
  saturating_mul, ◌⊎◌, ==_false, inl, inr, Ensures, Ensures-ok, Ensures->>=,
}
use flash_book.Common.Arith.{div-mul-le, div_mono, div_le}
use flash_book.Common.Int.{magnitude}
use flash_book.Accrual.{funding_den}
use flash_book.Risk.{bps_denom}
use flash_book.Envelope.{
  EnvelopeParams, EnvelopeError, max_account_notional_lots, ceil_div, breakpoint_notional,
  check_ranges, price_budget, loss_budget, check_probe, check_probes, prove_envelope,
}

-- The parts of the envelope at a notional, without bounds on the numbers.
abbrev pub price_budget_of : EnvelopeParams → ℕ
price_budget_of p = p.max_price_move_bps_per_slot * p.max_accrual_dt_slots

abbrev pub loss_budget_of : EnvelopeParams → ℕ
loss_budget_of p =
    price_budget_of p * funding_den
    + magnitude p.max_abs_funding_e9_per_slot * p.max_accrual_dt_slots * bps_denom

abbrev pub loss_at : EnvelopeParams → ℕ → ℕ
loss_at p n = ceil_div (n * loss_budget_of p) (bps_denom * funding_den)

abbrev pub fee_at : EnvelopeParams → ℕ → ℕ
fee_at p n =
    max
      (ceil_div (ceil_div (n * (bps_denom + price_budget_of p)) bps_denom * p.liquidation_fee_bps)
        bps_denom)
      p.min_liquidation_abs_lots

abbrev pub mm_at : EnvelopeParams → ℕ → ℕ
mm_at p n = max (n * p.maintenance_bps / bps_denom) p.min_nonzero_mm_req_lots

abbrev pub IsCovered : EnvelopeParams → ℕ → Type 0
IsCovered p n = loss_at p n + fee_at p n ≤ mm_at p n

ceil_div_mono : (a b d : ℕ) → a ≤ b → ceil_div a d ≤ ceil_div b d
unfolding ceil_div
ceil_div_mono a b zero h = omega arith
ceil_div_mono a b (suc d) h =
    let q = div_mono a b (suc d) (omega arith) h in
    ground (arith, div-mul-le a (suc d), div-add-mod a (suc d), div-add-mod b (suc d))

check_probe-IsCovered :
    (p : EnvelopeParams) (n : ℕ)
    → n ≢ 0
    → check_probe p (price_budget_of p) (loss_budget_of p) n ≡ ok tt
    → IsCovered p n
unfolding check_probe
check_probe-IsCovered p n h e = ground arith

-- What the check finds out.
record IsProven (p : EnvelopeParams) : Type 0 where
  maintained : p.maintenance_bps ≢ 0
  probed :
      (n : ℕ)
      → (n ≡ 1) ⊎ (n ≡ breakpoint_notional p) ⊎ (n ≡ max_account_notional_lots)
      → check_probe p (price_budget_of p) (loss_budget_of p) n ≡ ok tt

check_ranges-maintained : (p : EnvelopeParams) → Ensures (check_ranges p) λ u. p.maintenance_bps ≢ 0
unfolding check_ranges
check_ranges-maintained p = ground arith

price_budget_lem : (p : EnvelopeParams) → Ensures (price_budget p) λ b. b ≡ price_budget_of p
unfolding price_budget
price_budget_lem p = ground arith

loss_budget_lem :
    (p : EnvelopeParams) → Ensures (loss_budget p (price_budget_of p)) λ l. l ≡ loss_budget_of p
unfolding loss_budget
loss_budget_lem p = ground arith

ok_tt : (r : Result EnvelopeError (Unit {0})) → Ensures r λ u. r ≡ ok tt
ok_tt (ok u) = refl
ok_tt (err e) = tt

prove_envelope-IsProven : (p : EnvelopeParams) → Ensures (prove_envelope p) λ u. IsProven p
unfolding prove_envelope check_probes
prove_envelope-IsProven p =
    Ensures->>= (check_ranges p) _ _ _ (check_ranges-maintained p) λ u maintained.
      Ensures->>= (price_budget p) _ _ _ (price_budget_lem p) λ b eb. rw eb (
        Ensures->>= (loss_budget p (price_budget_of p)) _ _ _ (loss_budget_lem p) λ l el. rw el (
          Ensures->>= (probe 1) _ _ _ (ok_tt (probe 1)) λ u1 one.
            Ensures->>= (probe bp) _ _ _ (ok_tt (probe bp)) λ u2 two.
              Ensures->>= (probe max_account_notional_lots) _ _ _
                (ok_tt (probe max_account_notional_lots))
                λ u3 three. record {
                  maintained = maintained;
                  probed = λ n h. elim h [
                    | inl e ↦ rw e one
                    | inr (inl e) ↦ rw e two
                    | inr (inr e) ↦ rw e three
                  ];
                }))
  where
    bp : ℕ
    bp = breakpoint_notional p

    probe : ℕ → Result EnvelopeError (Unit {0})
    probe n = check_probe p (price_budget_of p) (loss_budget_of p) n

-- Up to the breakpoint, the proportional margin is no more than the floor.
breakpoint-mul :
    (p : EnvelopeParams)
    → p.maintenance_bps ≢ 0
    → breakpoint_notional p * p.maintenance_bps ≤ p.min_nonzero_mm_req_lots * bps_denom
unfolding breakpoint_notional
breakpoint-mul p h = rw (==_false _ _ h) (
    omega (
      arith,
      capped,
      div-mul-le (saturating_mul u128 p.min_nonzero_mm_req_lots bps_denom) p.maintenance_bps,
    ))
  where
    capped :
        saturating_mul u128 p.min_nonzero_mm_req_lots bps_denom
        ≤ p.min_nonzero_mm_req_lots * bps_denom
    capped = ground arith

IsCovered-below :
    (p : EnvelopeParams) (n m : ℕ)
    → n ≤ m
    → m * p.maintenance_bps ≤ p.min_nonzero_mm_req_lots * bps_denom
    → IsCovered p m
    → IsCovered p n
IsCovered-below p n m le low h =
    let loss =
      ceil_div_mono (n * loss_budget_of p) (m * loss_budget_of p) (bps_denom * funding_den)
        (mul-le-mul_right n m (loss_budget_of p) le) in
    let liq =
      ceil_div_mono (n * (bps_denom + price_budget_of p)) (m * (bps_denom + price_budget_of p))
        bps_denom (mul-le-mul_right n m (bps_denom + price_budget_of p) le) in
    let fee = ceil_div_mono _ _ bps_denom (mul-le-mul_right _ _ p.liquidation_fee_bps liq) in
    let floor =
      div_le p.min_nonzero_mm_req_lots (m * p.maintenance_bps) bps_denom (omega arith) low in
    omega (arith, loss, fee, floor)
  where
    mul-le-mul_right : (a b c : ℕ) → a ≤ b → a * c ≤ b * c
    mul-le-mul_right a b c e = grind arith

-- Parameters that pass the check cover every notional from one lot up to the breakpoint, and the
-- largest one: the worst loss over an accrual window with the liquidation fee is at most the
-- maintenance margin.
pub prove_envelope-IsCovered :
    (p : EnvelopeParams) (n : ℕ)
    → prove_envelope p ≡ ok tt
    → n ≢ 0
    → (n ≤ breakpoint_notional p) ⊎ (n ≡ max_account_notional_lots)
    → IsCovered p n
prove_envelope-IsCovered p n passed some h =
    let proven =
      Ensures-ok (prove_envelope p) (λ u. IsProven p) (prove_envelope-IsProven p) passed in
    elim h [
      | inl below ↦
          IsCovered-below p n (breakpoint_notional p) below (breakpoint-mul p proven.maintained) (
            check_probe-IsCovered p (breakpoint_notional p) (omega arith)
              (proven.probed (breakpoint_notional p) (inr (inl refl))))
      | inr top ↦ check_probe-IsCovered p n some (proven.probed n (inr (inr top)))
    ]
