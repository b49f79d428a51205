-- ===== src/Risk/Relief.antt =====
-- The relief of the correlation groups, programs/clober/src/matcher/risk.rs.
use flash_book.Common.{
  ℕ, ◌+◌, ◌-◌, ◌≤◌, ◌<◌, ◌≡◌, refl, min, max, Bool, true, false, List, [], ◌∷◌, arith, ◌==◌, ◌||◌,
  if◌then◌else◌, u64, saturating_add, Bool-cases, inl, inr,
}
use flash_book.Common.Int.{ℤ, pos, leb_ℤ, is_pos}
use flash_book.Risk.{PositionSnapshot, MarketSnapshot, offset_relief_le_cap}
use flash_book.Risk.Scenarios.{
  Group, add_to_group, group_of, net_lots, loss_of, decorrelate, relief_of, total_relief,
}
use flash_book.Risk.Assess.{required_margin}

-- The losses of the groups, and what they lose where each group's directions net.
abbrev pub group_losses : List Group → ℕ
group_losses [] = 0
group_losses (g ∷ gs) = g.down + g.up + group_losses gs

abbrev pub netted_losses : List Group → ℕ
netted_losses [] = 0
netted_losses (g ∷ gs) = max g.down g.up + netted_losses gs

abbrev overlaps : List Group → ℕ
overlaps [] = 0
overlaps (g ∷ gs) = min g.down g.up + overlaps gs

overlaps-netted : (gs : List Group) → overlaps gs + netted_losses gs ≡ group_losses gs
overlaps-netted [] = refl
overlaps-netted (g ∷ gs) = omega (arith, overlaps-netted gs)

relief_of-le : (g : Group) → relief_of g ≤ min g.down g.up
unfolding relief_of offset_relief_le_cap
relief_of-le g = omega arith

total_relief-le : (gs : List Group) (acc : ℕ) → total_relief gs acc ≤ acc + overlaps gs
unfolding total_relief
total_relief-le [] acc = omega arith
total_relief-le (g ∷ gs) acc =
    ground (arith, total_relief-le gs (saturating_add u64 acc (relief_of g)), relief_of-le g)

add_to_group-le :
    (gid : ℕ) (b : Bool) (loss rho : ℕ) (gs : List Group)
    → group_losses (add_to_group gid b loss rho gs) ≤ loss + group_losses gs
unfolding add_to_group
add_to_group-le gid true loss rho [] = omega arith
add_to_group-le gid false loss rho [] = omega arith
add_to_group-le gid true loss rho (g ∷ gs) = ground (arith, add_to_group-le gid true loss rho gs)
add_to_group-le gid false loss rho (g ∷ gs) = ground (arith, add_to_group-le gid false loss rho gs)

-- Whether or not a market belongs to a group, the groups' losses grow by no more than its loss.
grouped-le :
    (skip : Bool) (gid : ℕ) (b : Bool) (loss rho : ℕ) (gs : List Group)
    → group_losses (if skip then gs else add_to_group gid b loss rho gs) ≤ loss + group_losses gs
grouped-le true gid b loss rho gs = omega arith
grouped-le false gid b loss rho gs = add_to_group-le gid b loss rho gs

-- The sum of the losses only grows, and unless it saturates, the groups' losses are within it.
decorrelate-le :
    (markets : List MarketSnapshot) (ps : List PositionSnapshot) (ws : List (ℕ × ℤ)) (decorr : ℕ)
    (gs : List Group)
    → decorr < u64
    → (decorr + 1 < u64 → group_losses gs ≤ decorr)
    → let r = decorrelate markets ps ws decorr gs in
      (decorr ≤ r.0) × (r.0 + 1 < u64 → group_losses r.1 ≤ r.0)
unfolding decorrelate
decorrelate-le markets ps [] decorr gs fits h = (omega arith, h)
decorrelate-le markets ps ((k, w) ∷ rest) decorr gs fits h = elim (Bool-cases (is_pos w)) [
  | inl yes_loss ↦ rw yes_loss (
      let loss = loss_of w in
      let (gid, rho) = group_of markets k in
      let grouped =
        if gid == 0 || rho == 0
        then gs
        else add_to_group gid (leb_ℤ (pos 0) (net_lots k ps)) loss rho gs in
      let grown : group_losses grouped ≤ loss + group_losses gs =
        grouped-le (gid == 0 || rho == 0) gid (leb_ℤ (pos 0) (net_lots k ps)) loss rho gs in
      let ih =
        decorrelate-le markets ps rest (saturating_add u64 decorr loss) grouped (ground arith)
          (λ room. ground (arith, h (ground arith))) in
      (ground (arith, ih.0), ih.1))
  | inr no_loss ↦ rw no_loss (decorrelate-le markets ps rest decorr gs fits h)
]

-- Whatever the correlations, the margin required is at most the sum of the worst losses and,
-- unless that sum saturates, at least what remains when each group's net-long and net-short
-- losses net: the larger of the two, with the losses outside the groups.
pub required_margin_bounds :
    (markets : List MarketSnapshot) (ps : List PositionSnapshot) (ws : List (ℕ × ℤ))
    → let r = decorrelate markets ps ws 0 [] in
      r.0 + 1 < u64
      → (required_margin markets ps ws ≤ r.0)
        × (netted_losses r.1 + (r.0 - group_losses r.1) ≤ required_margin markets ps ws)
unfolding required_margin
required_margin_bounds markets ps ws room =
    let r = decorrelate markets ps ws 0 [] in
    omega (
      arith,
      (decorrelate-le markets ps ws 0 [] (omega arith) (λ k. omega arith)).1 room,
      total_relief-le r.1 0,
      overlaps-netted r.1,
    )
