-- ===== src/Accrual/Cycle.antt =====
-- The cycle of a side under `auto_deleverage` of programs/clober/src/lib.rs: normal, drained, reset.
use native.Mathlib.Nat.{mul-le-mul_left}
use flash_book.Common.{
  ℕ, ◌+◌, ◌*◌, ◌%◌, ◌≤◌, ◌<◌, ◌≡◌, ◌⊎◌, refl, ap, ◌∙◌, u32, u64, u128, saturating_mul,
  saturating_add, arith, List, [], ◌∷◌,
}
use flash_book.Common.Arith.{div-mul-le, div_le}
use flash_book.Accrual.{
  SideAccrual, SideMode, normal, drain_only, reset_pending, step_mode, epoch_advance,
  reduce_a_pro_rata, adl_one, min_a_side, adl_side, shrink, step_from,
}

-- A wave of deleveraging: the open interest that it leaves, and what it closed.
pub record Wave : Type 0 where
  pub oi : ℕ
  pub closed : ℕ

abbrev pub InRange : Wave → Type 0
InRange w = (w.oi < u64) × (w.closed < u64)

unfoldable pub waves : SideAccrual → List Wave → SideAccrual
waves side [] = side
waves side (w ∷ ws) = waves (adl_side w.oi w.closed side) ws

abbrev pub AllInRange : List Wave → Type 0
AllInRange [] = Unit
AllInRange (w ∷ ws) = InRange w × AllInRange ws

-- A side that waits for its reset with its multiplier below the start.
abbrev pub IsWedged : SideAccrual → Type 0
IsWedged s = (s.mode ≡ reset_pending) × (s.a < adl_one)

-- A shrunk side has the same mode and epoch, and no more of the multiplier; strictly less of it
-- where the wave closed something and left something.
shrink_lem :
    (s : SideAccrual) (w : Wave)
    → InRange w
    → s.a ≤ adl_one
    → let t = shrink w.oi w.closed s in
      (t.mode ≡ s.mode)
      × (t.epoch ≡ s.epoch)
      × (t.a ≤ s.a)
      × (0 < w.oi → 0 < w.closed → t.a < adl_one)
unfolding shrink reduce_a_pro_rata
shrink_lem s w r h =
    let den = saturating_add u128 w.oi w.closed in
    let num = saturating_mul u128 s.a w.oi in
    ground (arith, div_le s.a num den, below, less, div-mul-le num den)
  where
    below : s.a * w.oi ≤ s.a * (w.oi + w.closed)
    below = mul-le-mul_left s.a (omega arith)

    less : adl_one * w.oi < adl_one * (w.oi + w.closed) ⊎ (w.closed ≡ 0)
    less = ground arith

IsWedged-adl_side :
    (s : SideAccrual) (w : Wave)
    → InRange w
    → IsWedged s
    → IsWedged (adl_side w.oi w.closed s) × ((adl_side w.oi w.closed s).epoch ≡ s.epoch)
unfolding adl_side step_mode
IsWedged-adl_side s w r h =
    let t = shrink w.oi w.closed s in
    let l = shrink_lem s w r (omega arith) in
    ground (arith, l.0, l.1, l.2, ap (λ m. step_from m t w.oi) (l.0 ∙ h.0))

-- A wave of deleveraging on a side in any mode, whose multiplier is at most the start and whose
-- lots are u64s, keeps the multiplier at most the start. It leaves the side normal only if it
-- was normal and has multiplier enough, or was to be reset and has the start multiplier. It
-- raises the multiplier or the epoch only where a drained side has no open interest left, which
-- then restarts in the next epoch.
pub adl_side_lem :
    (s : SideAccrual) (w : Wave)
    → InRange w
    → s.a ≤ adl_one
    → let t = adl_side w.oi w.closed s in
      (t.a ≤ adl_one)
      × (t.mode ≡ normal
          → ((s.mode ≡ normal) × (min_a_side ≤ t.a)) ⊎ ((s.mode ≡ reset_pending) × (t.a ≡ adl_one)))
      × (((t.a ≤ s.a) × (t.epoch ≡ s.epoch))
          ⊎ ((s.mode ≡ drain_only)
              × (w.oi ≡ 0)
              × (t.mode ≡ reset_pending)
              × (t.a ≡ adl_one)
              × (t.epoch ≡ (s.epoch + 1) % u32)))
unfolding adl_side step_mode epoch_advance
adl_side_lem s w r h = by_mode s.mode refl
  where
    t : SideAccrual
    t = shrink w.oi w.closed s

    l :
        (t.mode ≡ s.mode)
        × (t.epoch ≡ s.epoch)
        × (t.a ≤ s.a)
        × (0 < w.oi → 0 < w.closed → t.a < adl_one)
    l = shrink_lem s w r h

    by_mode :
        (m : SideMode)
        → s.mode ≡ m
        → let u = adl_side w.oi w.closed s in
          (u.a ≤ adl_one)
          × (u.mode ≡ normal
              → ((s.mode ≡ normal) × (min_a_side ≤ u.a))
                ⊎ ((s.mode ≡ reset_pending) × (u.a ≡ adl_one)))
          × (((u.a ≤ s.a) × (u.epoch ≡ s.epoch))
              ⊎ ((s.mode ≡ drain_only)
                  × (w.oi ≡ 0)
                  × (u.mode ≡ reset_pending)
                  × (u.a ≡ adl_one)
                  × (u.epoch ≡ (s.epoch + 1) % u32)))
    by_mode normal e = ground (arith, l.0, l.1, l.2, ap (λ m. step_from m t w.oi) (l.0 ∙ e))
    by_mode drain_only e = ground (arith, l.0, l.1, l.2, ap (λ m. step_from m t w.oi) (l.0 ∙ e))
    by_mode reset_pending e = ground (arith, l.0, l.1, l.2, ap (λ m. step_from m t w.oi) (l.0 ∙ e))

wedged_waves :
    (s : SideAccrual) (ws : List Wave)
    → AllInRange ws
    → IsWedged s
    → ((waves s ws).mode ≡ reset_pending) × ((waves s ws).epoch ≡ s.epoch)
unfolding waves
wedged_waves s [] r h = (h.0, refl)
wedged_waves s (w ∷ ws) r h =
    let step = IsWedged-adl_side s w r.0 h in
    let rest = wedged_waves (adl_side w.oi w.closed s) ws r.1 step.0 in (rest.0, rest.1 ∙ step.1)

-- If the first wave on a side that waits to return to normal closes some lots and leaves some,
-- the side stays in that mode and in that epoch, whatever waves follow, the lots being u64s and
-- the multiplier at most the start.
pub reset_is_missed :
    (s : SideAccrual) (w : Wave) (ws : List Wave)
    → s.mode ≡ reset_pending
    → s.a ≤ adl_one
    → InRange w
    → AllInRange ws
    → 0 < w.oi
    → 0 < w.closed
    → let t = waves s (w ∷ ws) in (t.mode ≡ reset_pending) × (t.epoch ≡ s.epoch)
unfolding waves adl_side step_mode
reset_is_missed s w ws m h r rs o c =
    let t = shrink w.oi w.closed s in
    let l = shrink_lem s w r h in
    let first : IsWedged (adl_side w.oi w.closed s) × ((adl_side w.oi w.closed s).epoch ≡ s.epoch) =
      ground (arith, l.0, l.1, l.3 o c, ap (λ m. step_from m t w.oi) (l.0 ∙ m)) in
    let rest = wedged_waves (adl_side w.oi w.closed s) ws rs first.0 in (rest.0, rest.1 ∙ first.1)
