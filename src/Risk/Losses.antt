-- ===== src/Risk/Losses.antt =====
-- Losses by market, as `assess_margin` of programs/clober/src/matcher/risk.rs keeps them: each
-- market stands in a list once, and the worst losses only grow.
use flash_book.Common.{
  ℕ, ◌+◌, ◌≤◌, ◌≡◌, refl, true, List, [], ◌∷◌, arith, ◌==◌, ◌||◌, if◌then◌else◌, Ensures,
  Ensures->>=, Ensures-any, Option-cases, inl, inr,
}
use flash_book.Common.Int.{ℤ, pos, ◌+ℤ◌, ◌≤ℤ◌, pos_part, +ℤ_parts}
use flash_book.Common.Distinct.{contains, AreDistinct, AreIn, sum_of, sum_of-le}
use flash_book.Risk.{PositionSnapshot, MarketSnapshot, Scenario, lookup_market}
use flash_book.Risk.Scenarios.{add_loss, scenario_losses, contribution}

abbrev pub keys : List (ℕ × ℤ) → List ℕ
keys [] = []
keys ((k, l) ∷ rest) = k ∷ keys rest

-- The losses added up, gains counted against them.
abbrev pub total : List (ℕ × ℤ) → ℤ
total [] = pos 0
total ((k, l) ∷ rest) = l +ℤ total rest

-- The losses added up, gains left out.
abbrev pub losses : List (ℕ × ℤ) → ℕ
losses [] = 0
losses ((k, l) ∷ rest) = pos_part l + losses rest

-- The loss of a market.
abbrev pub loss_at : List (ℕ × ℤ) → ℕ → ℕ
loss_at [] k = 0
loss_at ((j, l) ∷ rest) k = if j == k then pos_part l else loss_at rest k

pub total-losses : (ls : List (ℕ × ℤ)) → total ls ≤ℤ pos (losses ls)
total-losses [] = omega arith
total-losses ((k, l) ∷ rest) = omega (arith, total-losses rest, +ℤ_parts l (total rest))

-- Over distinct markets the losses are those of the markets.
sum_of-congr :
    (f g : ℕ → ℕ) (xs : List ℕ)
    → ((k : ℕ) → contains xs k ≡ true → f k ≤ g k)
    → sum_of f xs ≤ sum_of g xs
sum_of-congr f g [] h = omega arith
sum_of-congr f g (x ∷ xs) h =
    omega (arith, h x (ground arith), sum_of-congr f g xs (λ k e. h k (ground arith)))

losses-loss_at :
    (ls : List (ℕ × ℤ)) → AreDistinct (keys ls) → losses ls ≤ sum_of (loss_at ls) (keys ls)
losses-loss_at [] d = omega arith
losses-loss_at ((k, l) ∷ rest) d = ground (
  arith,
  losses-loss_at rest d.1,
  sum_of-congr (loss_at rest) (loss_at ((k, l) ∷ rest)) (keys rest) skip,
)
  where
    skip : (j : ℕ) → contains (keys rest) j ≡ true → loss_at rest j ≤ loss_at ((k, l) ∷ rest) j
    skip j e = ground (arith, d.0)

loss_at-losses :
    (ls : List (ℕ × ℤ)) → AreDistinct (keys ls) → sum_of (loss_at ls) (keys ls) ≤ losses ls
loss_at-losses [] d = omega arith
loss_at-losses ((k, l) ∷ rest) d = ground (
  arith,
  loss_at-losses rest d.1,
  sum_of-congr (loss_at ((k, l) ∷ rest)) (loss_at rest) (keys rest) skip,
)
  where
    skip : (j : ℕ) → contains (keys rest) j ≡ true → loss_at ((k, l) ∷ rest) j ≤ loss_at rest j
    skip j e = ground (arith, d.0)

-- The losses of one list are within those of another that has its markets, each with as much.
pub losses-le :
    (a b : List (ℕ × ℤ))
    → AreDistinct (keys a)
    → AreDistinct (keys b)
    → AreIn (keys a) (keys b)
    → ((k : ℕ) → contains (keys a) k ≡ true → loss_at a k ≤ loss_at b k)
    → losses a ≤ losses b
losses-le a b da db i h = omega (
  arith,
  losses-loss_at a da,
  sum_of-congr (loss_at a) (loss_at b) (keys a) h,
  sum_of-le (loss_at b) (keys a) (keys b) da i,
  loss_at-losses b db,
)

-- A market's loss is added to its entry, or gets one.
contains-add_loss :
    (k : ℕ) (l : ℤ) (ls : List (ℕ × ℤ)) (j : ℕ)
    → Ensures (add_loss k l ls) λ new. contains (keys new) j ≡ (k == j || contains (keys ls) j)
unfolding add_loss
contains-add_loss k l [] j = refl
contains-add_loss k l ((i, acc) ∷ rest) j = ground (arith, contains-add_loss k l rest j)

add_loss-AreDistinct :
    (k : ℕ) (l : ℤ) (ls : List (ℕ × ℤ))
    → AreDistinct (keys ls)
    → Ensures (add_loss k l ls) λ new. AreDistinct (keys new)
unfolding add_loss
add_loss-AreDistinct k l [] d = (refl, tt)
add_loss-AreDistinct k l ((i, acc) ∷ rest) d =
    ground (arith, contains-add_loss k l rest i, add_loss-AreDistinct k l rest d.1)

-- The losses of a scenario name each market once.
pub scenario_losses-AreDistinct :
    (markets : List MarketSnapshot) (s : Scenario) (ps : List PositionSnapshot) (ls : List (ℕ × ℤ))
    → AreDistinct (keys ls)
    → Ensures (scenario_losses markets s ps ls) λ new. AreDistinct (keys new)
unfolding scenario_losses
scenario_losses-AreDistinct markets s [] ls d = d
scenario_losses-AreDistinct markets s (p ∷ ps) ls d =
    elim (Option-cases (lookup_market markets p.market)) [
      | inl e ↦ rw (Ensures, e) (scenario_losses-AreDistinct markets s ps ls d)
      | inr (m, e) ↦
          rw (Ensures, e)
            (Ensures->>= (contribution s p m) _ _ _ (Ensures-any (contribution s p m)) λ loss u.
              Ensures->>= (add_loss p.market loss ls) _ _ _
                (add_loss-AreDistinct p.market loss ls d)
                λ new d'. scenario_losses-AreDistinct markets s ps new d')
    ]
