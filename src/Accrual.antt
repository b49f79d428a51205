-- ===== src/Accrual.antt =====
-- The side indices of auto-deleveraging: programs/clober/src/matcher/side_accrual.rs.
pub mod Shrink
pub mod Cycle
pub mod Settle
mod Tests
use flash_book.Common.{
  ℕ, suc, ◌+◌, ◌-◌, ◌*◌, ◌/◌, ◌%◌, ◌^◌, min, Bool, true, false, ◌||◌, ltb, leb, ◌==◌, if◌then◌else◌,
  u32, u64, u128, saturating_add, saturating_mul, saturating_sub,
}
use flash_book.Common.Int.{
  ℤ, pos, negsuc, pos_part, neg_part, sub_ℕ, neg, ◌+ℤ◌, ◌-ℤ◌, ◌*ℤ◌, saturated, is_pos, is_neg, i128,
}

abbrev pub adl_one : ℕ
adl_one = 10 ^ 15

abbrev pub min_a_side : ℕ
min_a_side = 10 ^ 14

abbrev pub pos_scale : ℕ
pos_scale = 10 ^ 6

abbrev pub funding_den : ℕ
funding_den = 10 ^ 9

pub data SideMode : Type 0 where
  normal drain_only reset_pending : SideMode

pub record SideAccrual : Type 0 where
  pub a : ℕ
  pub k : ℤ
  pub f : ℤ
  pub b : ℤ
  pub mode : SideMode
  pub epoch : ℕ
  pub slot_last : ℕ
  pub price_last : ℕ

-- `SideAccrual::default()`
abbrev pub default_side : SideAccrual
default_side = record {
  a = adl_one;
  k = pos 0;
  f = pos 0;
  b = pos 0;
  mode = normal;
  epoch = 0;
  slot_last = 0;
  price_last = 0;
}

pub record PositionSnapshot : Type 0 where
  pub a_snap : ℕ
  pub k_snap : ℤ
  pub f_snap : ℤ
  pub b_snap : ℤ
  pub epoch_snap : ℕ

pub data SideModeTransition : Type 0 where
  no_change entered_drain entered_reset_pending entered_normal : SideModeTransition

-- `match side.mode`
abbrev pub step_from : SideMode → SideAccrual → ℕ → SideModeTransition × SideAccrual
step_from normal side oi_lots =
    if ltb side.a min_a_side
    then (entered_drain, record side { mode = drain_only })
    else (no_change, side)
step_from drain_only side oi_lots =
    if oi_lots == 0
    then (entered_reset_pending, record side { mode = reset_pending })
    else (no_change, side)
step_from reset_pending side oi_lots =
    if side.a == adl_one then (entered_normal, record side { mode = normal }) else (no_change, side)

unfoldable pub step_mode : SideAccrual → ℕ → SideModeTransition × SideAccrual
step_mode side oi_lots = step_from side.mode side oi_lots

unfoldable pub epoch_advance : SideAccrual → SideAccrual
epoch_advance side = record side {
  epoch = (side.epoch + 1) % u32;
  a = adl_one;
  k = pos 0;
  f = pos 0;
  b = pos 0;
}

unfoldable pub effective_lots : ℕ → ℕ → ℕ → ℕ
effective_lots basis_lots a_now a_snap =
    if a_snap == 0 then 0 else min (saturating_mul u128 basis_lots a_now / a_snap) (u64 - 1)

-- `a as i128` of a `u128`.
abbrev pub as_i128 : ℕ → ℤ
as_i128 a = if ltb a i128 then pos a else negsuc (u128 - a - 1)

-- Rust's `/` on signed integers, the divisor not being zero.
abbrev pub quotient : ℤ → ℤ → ℤ
quotient a d =
    let q = (pos_part a + neg_part a) / (pos_part d + neg_part d) in
    if is_neg d
    then (if is_neg a then pos q else neg (pos q))
    else (if is_neg a then neg (pos q) else pos q)

abbrev pub is_zero : ℤ → Bool
is_zero a = pos_part a + neg_part a == 0

-- The profit that an index moved by `scaled` lots, over its scale.
abbrev pub over_scale : ℤ → ℤ → ℤ
over_scale scaled denom = if is_zero denom then pos 0 else quotient scaled denom

unfoldable pub pnl_delta_from_k : ℕ → ℤ → ℤ → ℕ → ℤ
pnl_delta_from_k basis_lots k_now k_snap a_snap =
    if a_snap == 0
    then pos 0
    else over_scale (saturated i128 (pos basis_lots *ℤ saturated i128 (k_now -ℤ k_snap)))
        (saturated i128 (as_i128 a_snap *ℤ pos pos_scale))

unfoldable pub pnl_delta_from_f : ℕ → ℤ → ℤ → ℕ → ℤ
pnl_delta_from_f basis_lots f_now f_snap a_snap =
    if a_snap == 0
    then pos 0
    else over_scale (saturated i128 (pos basis_lots *ℤ saturated i128 (f_now -ℤ f_snap)))
        (saturated i128 (saturated i128 (as_i128 a_snap *ℤ pos pos_scale) *ℤ pos funding_den))

-- The mark index and the funding index after time has passed.
abbrev pub next_k : SideAccrual → ℕ → ℤ
next_k side p_new =
    saturated i128 (side.k +ℤ saturated i128 (sub_ℕ p_new side.price_last *ℤ as_i128 side.a))

abbrev pub next_f : SideAccrual → ℤ → ℕ → ℤ
next_f side rate dt =
    if is_zero rate
    then side.f
    else (let per_slot = saturated i128 (pos side.price_last *ℤ rate) in
        let over_time = saturated i128 (per_slot *ℤ pos dt) in
        saturated i128 (side.f +ℤ saturated i128 (over_time *ℤ as_i128 side.a)))

unfoldable pub advance_indices : SideAccrual → ℕ → ℤ → ℕ → SideAccrual
advance_indices side p_new funding_rate_e9 now_slot =
    if side.slot_last == 0
    then record side { slot_last = now_slot; price_last = p_new }
    else if saturating_sub now_slot side.slot_last == 0
    then record side { price_last = p_new }
    else record side {
      k = next_k side p_new;
      f = next_f side funding_rate_e9 (saturating_sub now_slot side.slot_last);
      slot_last = now_slot;
      price_last = p_new;
    }

unfoldable pub settle_position_pnl : ℕ → SideAccrual → PositionSnapshot → ℤ → ℤ
settle_position_pnl basis_lots side p side_sign =
    if p.a_snap == 0 || basis_lots == 0
    then pos 0
    else (let from_k = pnl_delta_from_k basis_lots side.k p.k_snap p.a_snap in
        let from_f = pnl_delta_from_f basis_lots side.f p.f_snap p.a_snap in
        saturated i128 (saturated i128 (from_k -ℤ from_f) *ℤ side_sign))

unfoldable pub refresh_position_snapshot : SideAccrual → PositionSnapshot
refresh_position_snapshot side = record {
  a_snap = side.a;
  k_snap = side.k;
  f_snap = side.f;
  b_snap = side.b;
  epoch_snap = side.epoch;
}

-- The side with its new multiplier, which the source returns as well.
unfoldable pub reduce_a_pro_rata : SideAccrual → ℕ → ℕ → SideAccrual
reduce_a_pro_rata side numerator denominator =
    if denominator == 0 || leb denominator numerator
    then side
    else record side { a = saturating_mul u128 side.a numerator / denominator }

abbrev pub enters_reset : SideModeTransition → Bool
enters_reset entered_reset_pending = true
enters_reset t = false

-- The multiplier after a wave that left open interest.
unfoldable pub shrink : ℕ → ℕ → SideAccrual → SideAccrual
shrink counter_oi_post close_size_lots side =
    if ltb 0 counter_oi_post
    then reduce_a_pro_rata side counter_oi_post
        (saturating_add u128 counter_oi_post close_size_lots)
    else side

-- What `auto_deleverage` does to the counter side.
unfoldable pub adl_side : ℕ → ℕ → SideAccrual → SideAccrual
adl_side counter_oi_post close_size_lots side =
    let (transition, stepped) =
      step_mode (shrink counter_oi_post close_size_lots side) counter_oi_post in
    if enters_reset transition then epoch_advance stepped else stepped
