-- ===== src/Accrual/Settle.antt =====
-- `settle_position_pnl` of programs/clober/src/matcher/side_accrual.rs.
use flash_book.Common.{ℕ, ◌+◌, ◌≤◌, ◌≡◌, ◌⊎◌, ◌∙◌, refl, arith}
use flash_book.Common.Int.{
  *ℤ-zero, -ℤ-self, zero-*ℤ, *ℤ-one, *ℤ-minus_one, ℤ, pos, negsuc, pos_part, neg_part, neg, ◌-ℤ◌,
  ◌*ℤ◌, saturated, i128,
}
use flash_book.Accrual.{
  SideAccrual, PositionSnapshot, settle_position_pnl, refresh_position_snapshot, pnl_delta_from_k,
  pnl_delta_from_f, advance_indices, over_scale, as_i128, pos_scale, funding_den,
}

over_scale-zero : (d : ℤ) → over_scale (pos 0) d ≡ pos 0
unfolding neg
over_scale-zero d = ground arith

pnl_delta_from_k_self : (basis : ℕ) (k : ℤ) (a : ℕ) → pnl_delta_from_k basis k k a ≡ pos 0
unfolding pnl_delta_from_k
pnl_delta_from_k_self basis k a =
    ground (
      arith,
      -ℤ-self k,
      *ℤ-zero basis,
      over_scale-zero (saturated i128 (as_i128 a *ℤ pos pos_scale)),
    )

pnl_delta_from_f_self : (basis : ℕ) (f : ℤ) (a : ℕ) → pnl_delta_from_f basis f f a ≡ pos 0
unfolding pnl_delta_from_f
pnl_delta_from_f_self basis f a = ground (
  arith,
  -ℤ-self f,
  *ℤ-zero basis,
  over_scale-zero (saturated i128 (saturated i128 (as_i128 a *ℤ pos pos_scale) *ℤ pos funding_den)),
)

settle_refreshed :
    (basis : ℕ) (side : SideAccrual) (sign : ℤ)
    → settle_position_pnl basis side (refresh_position_snapshot side) sign ≡ pos 0
unfolding settle_position_pnl refresh_position_snapshot
settle_refreshed basis side sign = ground (
  arith,
  pnl_delta_from_k_self basis side.k side.a,
  pnl_delta_from_f_self basis side.f side.a,
  -ℤ-self (pos 0),
  zero-*ℤ sign,
)

-- The signs of the two sides.
abbrev pub long_sign : ℤ
long_sign = pos 1

abbrev pub short_sign : ℤ
short_sign = negsuc 0

-- Against the same indices, a short position pays exactly what a long one of the same basis and
-- snapshot gains, and it gains no more than the long one loses, and at most one quote lot less.
pub settle_zero_sum :
    (basis : ℕ) (side : SideAccrual) (p : PositionSnapshot)
    → let long = settle_position_pnl basis side p long_sign in
      let short = settle_position_pnl basis side p short_sign in
      (pos_part long ≡ neg_part short)
      × (pos_part short ≤ neg_part long)
      × (neg_part long ≤ pos_part short + 1)
unfolding settle_position_pnl
settle_zero_sum basis side p =
    let c = saturated i128 (
      pnl_delta_from_k basis side.k p.k_snap p.a_snap
      -ℤ pnl_delta_from_f basis side.f p.f_snap p.a_snap) in
    ground (arith, *ℤ-one c, *ℤ-minus_one c)

same_indices :
    (basis : ℕ) (s t : SideAccrual) (p : PositionSnapshot) (sign : ℤ)
    → s.k ≡ t.k
    → s.f ≡ t.f
    → settle_position_pnl basis s p sign ≡ settle_position_pnl basis t p sign
unfolding settle_position_pnl
same_indices basis s t p sign h g = rw (h, g) refl

same_slot :
    (side : SideAccrual) (p_new : ℕ) (rate : ℤ) (now : ℕ)
    → (side.slot_last ≡ 0) ⊎ (now ≤ side.slot_last)
    → let t = advance_indices side p_new rate now in (t.k ≡ side.k) × (t.f ≡ side.f)
unfolding advance_indices
same_slot side p_new rate now h = ground arith

-- A position whose snapshot was just refreshed is owed nothing, also after the indices were
-- advanced within the same slot or from the seed state.
pub settle_once :
    (basis p_new now : ℕ) (rate : ℤ) (side : SideAccrual) (sign : ℤ)
    → (side.slot_last ≡ 0) ⊎ (now ≤ side.slot_last)
    → settle_position_pnl basis
        (advance_indices side p_new rate now)
        (refresh_position_snapshot side)
        sign
      ≡ pos 0
settle_once basis p_new now rate side sign h =
    let kept = same_slot side p_new rate now h in
    same_indices basis (advance_indices side p_new rate now) side (refresh_position_snapshot side)
      sign kept.0 kept.1
    ∙ settle_refreshed basis side sign
