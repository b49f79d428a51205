-- ===== src/Position/Rate.antt =====
-- How far a tick of programs/clober/src/matcher/funding.rs moves the funding index.
use native.Mathlib.Nat.{mul-le-mul_right, mul-le-mul, le_trans}
use flash_book.Common.{
  inl, inr, Bool-cases, Ensures-any, saturating_mul, u64, ℕ, ◌*◌, ◌≤◌, min, max, ◌||◌, ◌==◌, ok,
  ◌>>=◌, Ensures, Ensures->>=, arith,
}
use flash_book.Common.Arith.{div-mul-le}
use flash_book.Common.Int.{
  ℤ, pos, sub_ℕ, ◌*ℤ◌, div_trunc, pos_part, neg_part, magnitude, magnitude-*ℤ, neg_parts,
}
use flash_book.Position.Account.{funding_index_one}
use flash_book.Position.Crank.{
  clamp, instant_rate, index_step, smooth, funding_index_delta, funding_index_delta_smoothed,
}

clamp-le : (r : ℤ) (bound : ℕ) → magnitude (clamp r bound) ≤ bound
unfolding clamp
clamp-le r bound = ground (arith, neg_parts (pos bound))

div_trunc-le : (a : ℤ) (d : ℕ) → magnitude (div_trunc a d) * d ≤ magnitude a
unfolding div_trunc
div_trunc-le a d = ground (arith, div-mul-le (pos_part a) d, div-mul-le (neg_part a) d)

-- The largest step at a capped rate, times the denominator.
abbrev pub cap : ℕ → ℕ → ℕ → ℕ → ℕ
cap rate_max dt mark tick = rate_max * dt * (mark * tick) * funding_index_one

index_step-le :
    (rate : ℤ) (rate_max dt mark tick : ℕ)
    → magnitude rate ≤ rate_max
    → Ensures (index_step rate dt mark tick) λ q. magnitude q * 10000 ≤ cap rate_max dt mark tick
unfolding index_step
index_step-le rate rate_max dt mark tick h = ground (arith, b4, div_trunc-le s 10000)
  where
    n : ℤ
    n = pos mark *ℤ pos tick

    t : ℤ
    t = rate *ℤ pos dt

    w : ℤ
    w = t *ℤ n

    s : ℤ
    s = w *ℤ pos funding_index_one

    b1 : magnitude n ≤ mark * tick
    b1 = omega (arith, magnitude-*ℤ (pos mark) (pos tick))

    b2 : magnitude t ≤ rate_max * dt
    b2 = omega (arith, magnitude-*ℤ rate (pos dt), mul-le-mul_right dt h)

    b3 : magnitude w ≤ rate_max * dt * (mark * tick)
    b3 = le_trans (magnitude-*ℤ t n) (mul-le-mul b2 b1)

    b4 : magnitude s ≤ cap rate_max dt mark tick
    b4 =
        omega (arith, magnitude-*ℤ w (pos funding_index_one), mul-le-mul_right funding_index_one b3)

instant_rate-le :
    (mark oracle k rate_max : ℕ)
    → Ensures (instant_rate mark oracle k rate_max) λ r. magnitude r ≤ rate_max
unfolding instant_rate
instant_rate-le mark oracle k rate_max =
    ground (arith, clamp-le (div_trunc (sub_ℕ mark oracle *ℤ pos k) oracle) rate_max)

-- A step and a rate within the caps, for the time that counts.
abbrev pub IsCapped : ℕ → ℕ → ℕ → ℕ → ℕ → ℤ × ℤ → Type 0
IsCapped rate_max dt period mark tick q =
    (magnitude q.1 ≤ rate_max)
    × (magnitude q.0 * 10000 ≤ cap rate_max (min dt (max period 1)) mark tick)

stepped-IsCapped :
    (rate : ℤ) (rate_max dt period mark tick : ℕ)
    → magnitude rate ≤ rate_max
    → Ensures
        (do delta ← index_step rate (min dt (max period 1)) mark tick; ok (delta, rate))
        (IsCapped rate_max dt period mark tick)
stepped-IsCapped rate rate_max dt period mark tick h =
    Ensures->>= (index_step rate (min dt (max period 1)) mark tick) _ _ _
      (index_step-le rate rate_max (min dt (max period 1)) mark tick h) λ q g. (h, g)

pub funding_index_delta-IsCapped :
    (mark oracle dt k rate_max period tick : ℕ)
    → Ensures
        (funding_index_delta mark oracle dt k rate_max period tick)
        (IsCapped rate_max dt period mark tick)
unfolding funding_index_delta
funding_index_delta-IsCapped mark oracle dt k rate_max period tick =
    elim (Bool-cases (oracle == 0 || dt == 0)) [
      | inl e ↦ rw e (omega arith, omega arith)
      | inr e ↦ rw e (
          Ensures->>= (instant_rate mark oracle k rate_max) _ _ _
            (instant_rate-le mark oracle k rate_max)
            λ r h. stepped-IsCapped r rate_max dt period mark tick h)
    ]

-- Where a smoothed funding tick succeeds, after a rate within the market's cap, its rate is
-- within the cap, and the step of the index is at most what the cap gives on the notional of a
-- lot, for the time elapsed or for the period (at least a second), whichever is shorter.
pub funding_index_delta_smoothed-IsCapped :
    (mark oracle dt k rate_max period : ℕ) (prev : ℤ) (twap tick : ℕ)
    → magnitude prev ≤ rate_max
    → Ensures
        (funding_index_delta_smoothed mark oracle dt k rate_max period prev twap tick)
        (IsCapped rate_max dt period mark tick)
unfolding funding_index_delta_smoothed
funding_index_delta_smoothed-IsCapped mark oracle dt k rate_max period prev twap tick p =
    elim (Bool-cases (oracle == 0 || dt == 0)) [
      | inl e ↦ rw e (p, omega arith)
      | inr e ↦ rw e (
          Ensures->>= (instant_rate mark oracle k rate_max) _ _ _
            (instant_rate-le mark oracle k rate_max)
            λ r h.
              Ensures->>=
                (smooth r prev (min dt (max period 1)) (saturating_mul u64 twap (max period 1))) _
                (λ s. Unit {0}) _ (Ensures-any _)
                λ s g.
                  stepped-IsCapped (clamp s rate_max) rate_max dt period mark tick
                    (clamp-le s rate_max))
    ]
