-- ===== src/Position/Crank.antt =====
-- The funding crank: `funding_index_delta` and its smoothed form of
-- programs/clober/src/matcher/funding.rs.
use flash_book.Common.{
  ℕ, min, max, ◌||◌, ltb, leb, ◌==◌, if◌then◌else◌, Result, ok, err, ok_or, ◌>>=◌, u64,
  saturating_mul,
}
use flash_book.Common.Int.{
  ℤ, pos, neg, sub_ℕ, ◌+ℤ◌, ◌-ℤ◌, ◌*ℤ◌, checked, div_trunc, i128, pos_part, neg_part,
}
use flash_book.Errors.{CloberError, arithmetic_overflow, division_by_zero}
use flash_book.Position.Account.{funding_index_one}

-- `r.clamp(-bound, bound)`
unfoldable pub clamp : ℤ → ℕ → ℤ
clamp r bound =
    if ltb bound (pos_part r)
    then pos bound
    else if ltb bound (neg_part r)
    then neg (pos bound)
    else r

-- Division by an `i128` that is not negative.
abbrev pub checked_div : ℤ → ℕ → Result CloberError ℤ
checked_div a d = if d == 0 then err division_by_zero else ok (div_trunc a d)

-- The rate of the premium, clamped.
unfoldable pub instant_rate : ℕ → ℕ → ℕ → ℕ → Result CloberError ℤ
instant_rate mark_ticks oracle_ticks k_bps rate_max = do
  scaled ← ok_or (checked i128 (sub_ℕ mark_ticks oracle_ticks *ℤ pos k_bps)) arithmetic_overflow
  rate ← checked_div scaled oracle_ticks
  ok (clamp rate rate_max)

-- The step of the index at a rate.
unfoldable pub index_step : ℤ → ℕ → ℕ → ℕ → Result CloberError ℤ
index_step rate dt mark_ticks tick_size = do
  notional ← ok_or (checked i128 (pos mark_ticks *ℤ pos tick_size)) arithmetic_overflow
  over_time ← ok_or (checked i128 (rate *ℤ pos dt)) arithmetic_overflow
  weighted ← ok_or (checked i128 (over_time *ℤ notional)) arithmetic_overflow
  scaled ← ok_or (checked i128 (weighted *ℤ pos funding_index_one)) arithmetic_overflow
  checked_div scaled 10000

-- The step and the rate.
unfoldable pub funding_index_delta : ℕ → ℕ → ℕ → ℕ → ℕ → ℕ → ℕ → Result CloberError (ℤ × ℤ)
funding_index_delta mark_ticks oracle_ticks dt_seconds k_bps rate_max period_seconds tick_size =
    if oracle_ticks == 0 || dt_seconds == 0
    then ok (pos 0, pos 0)
    else (let dt = min dt_seconds (max period_seconds 1) in
        do
          rate ← instant_rate mark_ticks oracle_ticks k_bps rate_max
          delta ← index_step rate dt mark_ticks tick_size
          ok (delta, rate))

-- The average of the previous rate and the new one over the window.
unfoldable pub smooth : ℤ → ℤ → ℕ → ℕ → Result CloberError ℤ
smooth instant prev dt window_seconds =
    if window_seconds == 0 || leb window_seconds dt then ok instant else (do
      weighted ← ok_or (checked i128 ((instant -ℤ prev) *ℤ pos dt)) arithmetic_overflow
      part ← checked_div weighted window_seconds
      ok (prev +ℤ part))

unfoldable pub funding_index_delta_smoothed :
    ℕ → ℕ → ℕ → ℕ → ℕ → ℕ → ℤ → ℕ → ℕ → Result CloberError (ℤ × ℤ)
funding_index_delta_smoothed mark_ticks oracle_ticks dt_seconds k_bps rate_max period_seconds prev
      twap_window_periods tick_size =
    if oracle_ticks == 0 || dt_seconds == 0
    then ok (pos 0, prev)
    else (let dt = min dt_seconds (max period_seconds 1) in
        let window_seconds = saturating_mul u64 twap_window_periods (max period_seconds 1) in
        do
          instant ← instant_rate mark_ticks oracle_ticks k_bps rate_max
          smoothed ← smooth instant prev dt window_seconds
          let rate = clamp smoothed rate_max
          delta ← index_step rate dt mark_ticks tick_size
          ok (delta, rate))
