-- ===== src/Risk/Worst.antt =====
-- The worst loss of each market over the scenarios, programs/clober/src/matcher/risk.rs: they name
-- each market once, and only grow.
use flash_book.Common.{
  ℕ, ◌+◌, ◌≤◌, ◌≡◌, refl, true, List, [], ◌∷◌, ◌++◌, arith, ◌==◌, ◌||◌, Result, ok, err, ◌>>=◌,
  Ensures, Ensures->>=, Ensures-any, Ensures-map,
}
use flash_book.Common.Int.{ℤ, pos_part}
use flash_book.Common.Distinct.{
  contains, AreDistinct, AreIn, AreIn-nil, AreIn-cons, AreIn-self, AreIn-trans, contains-AreIn,
}
use flash_book.Errors.{CloberError}
use flash_book.Risk.{PositionSnapshot, MarketSnapshot, Scenario}
use flash_book.Risk.Scenarios.{scenario_losses, Worst, raise_worst, fold_worst, worst_over}
use flash_book.Risk.Losses.{keys, loss_at}

contains-raise :
    (k : ℕ) (l : ℤ) (ls : List (ℕ × ℤ)) (j : ℕ)
    → contains (keys (raise_worst k l ls)) j ≡ (k == j || contains (keys ls) j)
unfolding raise_worst
contains-raise k l [] j = refl
contains-raise k l ((i, w) ∷ rest) j = ground (arith, contains-raise k l rest j)

raise-AreDistinct :
    (k : ℕ) (l : ℤ) (ls : List (ℕ × ℤ))
    → AreDistinct (keys ls)
    → AreDistinct (keys (raise_worst k l ls))
unfolding raise_worst
raise-AreDistinct k l [] d = (refl, tt)
raise-AreDistinct k l ((i, w) ∷ rest) d =
    ground (arith, contains-raise k l rest i, raise-AreDistinct k l rest d.1)

loss_at-raise : (k : ℕ) (l : ℤ) (ls : List (ℕ × ℤ)) → pos_part l ≤ loss_at (raise_worst k l ls) k
unfolding raise_worst
loss_at-raise k l [] = ground arith
loss_at-raise k l ((i, w) ∷ rest) = ground (arith, loss_at-raise k l rest)

loss_at-raise_mono :
    (k : ℕ) (l : ℤ) (ls : List (ℕ × ℤ)) (j : ℕ)
    → contains (keys ls) j ≡ true
    → loss_at ls j ≤ loss_at (raise_worst k l ls) j
unfolding raise_worst
loss_at-raise_mono k l [] j h = omega arith
loss_at-raise_mono k l ((i, w) ∷ rest) j h = ground (arith, loss_at-raise_mono k l rest j)

-- Worst losses that have the markets of others, each with as much.
pub record Covers (old new : List (ℕ × ℤ)) : Type 0 where
  pub markets_kept : AreIn (keys old) (keys new)
  pub losses_kept : (k : ℕ) → contains (keys old) k ≡ true → loss_at old k ≤ loss_at new k

pub Covers-self : (ls : List (ℕ × ℤ)) → Covers ls ls
Covers-self ls = record { markets_kept = AreIn-self (keys ls); losses_kept = λ k h. omega arith }

pub Covers-trans : (a b c : List (ℕ × ℤ)) → Covers a b → Covers b c → Covers a c
Covers-trans a b c f g = record {
  markets_kept = AreIn-trans (keys a) (keys b) (keys c) f.markets_kept g.markets_kept;
  losses_kept = λ k h. omega (
    arith,
    f.losses_kept k h,
    g.losses_kept k (contains-AreIn (keys a) (keys b) k f.markets_kept h),
  );
}

raise-Covers : (k : ℕ) (l : ℤ) (ls : List (ℕ × ℤ)) → Covers ls (raise_worst k l ls)
unfolding AreIn
raise-Covers k l ls = record {
  markets_kept = λ j h. ground (arith, contains-raise k l ls j);
  losses_kept = loss_at-raise_mono k l ls;
}

fold-AreDistinct :
    (idx : ℕ) (ls : List (ℕ × ℤ)) (w : Worst)
    → AreDistinct (keys w.market_worst)
    → AreDistinct (keys (fold_worst idx ls w).market_worst)
unfolding fold_worst
fold-AreDistinct idx [] w d = d
fold-AreDistinct idx ((k, l) ∷ rest) w d =
    fold-AreDistinct idx rest _ (raise-AreDistinct k l w.market_worst d)

cons-Covers :
    (k : ℕ) (l : ℤ) (rest new : List (ℕ × ℤ))
    → contains (keys new) k ≡ true
    → pos_part l ≤ loss_at new k
    → Covers rest new
    → Covers ((k, l) ∷ rest) new
cons-Covers k l rest new known h c = record {
  markets_kept = AreIn-cons k (keys rest) (keys new) known c.markets_kept;
  losses_kept = λ j m. ground (arith, c.losses_kept j);
}

-- Folding in a scenario keeps the worst losses so far, and covers the scenario's.
pub fold-Covers :
    (idx : ℕ) (ls : List (ℕ × ℤ)) (w : Worst)
    → Covers w.market_worst (fold_worst idx ls w).market_worst
unfolding fold_worst
fold-Covers idx [] w = Covers-self w.market_worst
fold-Covers idx ((k, l) ∷ rest) w =
    Covers-trans w.market_worst (raise_worst k l w.market_worst) _ (raise-Covers k l w.market_worst)
      (fold-Covers idx rest _)

pub fold-Covers_scenario :
    (idx : ℕ) (ls : List (ℕ × ℤ)) (w : Worst) → Covers ls (fold_worst idx ls w).market_worst
unfolding fold_worst
fold-Covers_scenario idx [] w = record {
  markets_kept = AreIn-nil _;
  losses_kept = λ k h. absurd (ground arith);
}
fold-Covers_scenario idx ((k, l) ∷ rest) w =
    let known : contains (keys (raise_worst k l w.market_worst)) k ≡ true =
      ground (arith, contains-raise k l w.market_worst k) in
    let grown = fold-Covers idx rest _ in
    cons-Covers k l rest _
      (contains-AreIn (keys (raise_worst k l w.market_worst)) _ k grown.markets_kept known)
      (omega (arith, loss_at-raise k l w.market_worst, grown.losses_kept k known))
      (fold-Covers_scenario idx rest _)

pub worst_over-AreDistinct :
    (markets : List MarketSnapshot) (ps : List PositionSnapshot) (idx : ℕ) (ss : List Scenario)
    (w : Worst)
    → AreDistinct (keys w.market_worst)
    → Ensures (worst_over markets ps idx ss w) λ new. AreDistinct (keys new.market_worst)
unfolding worst_over
worst_over-AreDistinct markets ps idx [] w d = d
worst_over-AreDistinct markets ps idx (s ∷ ss) w d =
    Ensures->>= (scenario_losses markets s ps []) _ _ _
      (Ensures-any (scenario_losses markets s ps []))
      λ ls u. worst_over-AreDistinct markets ps (idx + 1) ss _ (fold-AreDistinct idx ls w d)

pub worst_over-Covers :
    (markets : List MarketSnapshot) (ps : List PositionSnapshot) (idx : ℕ) (ss : List Scenario)
    (w : Worst)
    → Ensures (worst_over markets ps idx ss w) λ new. Covers w.market_worst new.market_worst
unfolding worst_over
worst_over-Covers markets ps idx [] w = Covers-self w.market_worst
worst_over-Covers markets ps idx (s ∷ ss) w =
    Ensures->>= (scenario_losses markets s ps []) _ _ _
      (Ensures-any (scenario_losses markets s ps []))
      λ ls u.
        Ensures-map (worst_over markets ps (idx + 1) ss (fold_worst idx ls w))
          (λ new c.
            Covers-trans w.market_worst (fold_worst idx ls w).market_worst new.market_worst
              (fold-Covers idx ls w) c)
          (worst_over-Covers markets ps (idx + 1) ss (fold_worst idx ls w))

-- The worst losses over some scenarios cover each scenario's.
pub worst_over-Covers_scenario :
    (markets : List MarketSnapshot) (ps : List PositionSnapshot) (idx : ℕ) (before : List Scenario)
    (s : Scenario) (after : List Scenario) (w : Worst)
    → Ensures
        (worst_over markets ps idx (before ++ s ∷ after) w)
        λ new. Ensures (scenario_losses markets s ps []) λ ls. Covers ls new.market_worst
unfolding worst_over
worst_over-Covers_scenario markets ps idx [] s after w = split (scenario_losses markets s ps [])
  where
    split :
        (r : Result CloberError (List (ℕ × ℤ)))
        → Ensures
            (r >>= λ ls. worst_over markets ps (idx + 1) after (fold_worst idx ls w))
            λ new. Ensures r λ ls. Covers ls new.market_worst
    split (ok ls) =
        Ensures-map (worst_over markets ps (idx + 1) after (fold_worst idx ls w))
          (λ new c.
            Covers-trans ls (fold_worst idx ls w).market_worst new.market_worst
              (fold-Covers_scenario idx ls w) c)
          (worst_over-Covers markets ps (idx + 1) after (fold_worst idx ls w))
    split (err x) = tt
worst_over-Covers_scenario markets ps idx (b ∷ before) s after w =
    Ensures->>= (scenario_losses markets b ps []) _ _ _
      (Ensures-any (scenario_losses markets b ps []))
      λ ls u. worst_over-Covers_scenario markets ps (idx + 1) before s after (fold_worst idx ls w)
