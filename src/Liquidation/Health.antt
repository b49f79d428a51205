-- ===== src/Liquidation/Health.antt =====
-- The health price of programs/clober/src/matcher/liquidation.rs.
use flash_book.Common.{
  ℕ, ◌≤◌, ◌<◌, ◌≡◌, ◌⊎◌, Bool, true, false, Option, none, some, if◌then◌else◌, arith,
}
use flash_book.Liquidation.{worse_of_health_price, health_price_with_staleness}

-- A price is one of the two, and no better for the position than either that counts.
abbrev pub IsAdverse : ℕ → ℕ → Bool → ℕ → Type 0
IsAdverse mark oracle is_long price =
    ((price ≡ mark) ⊎ (price ≡ oracle))
    × (if is_long then price ≤ mark else mark ≤ price)
    × (0 < oracle → if is_long then price ≤ oracle else oracle ≤ price)
    × (0 < mark → 0 < price)

-- What a health price is, where there is one and where there is none.
abbrev pub Describes : ℕ → ℕ → Bool → Bool → Option (ℕ × ℕ) → Type 0
Describes mark oracle stale is_long none = (stale ≡ true) × (oracle ≡ 0)
Describes mark oracle stale is_long (some q) =
    if stale then (0 < oracle) × (q.0 ≡ oracle) else IsAdverse mark oracle is_long q.0

-- A fresh mark gives a price that is the mark or the oracle's, is no better for the position
-- than the mark, nor than the oracle where that is set, and is positive where the mark is. A
-- stale mark gives the oracle's price, and none exactly where the oracle is unset.
pub health_price_lem :
    (mark oracle : ℕ) (stale is_long : Bool)
    → Describes mark oracle stale is_long (health_price_with_staleness mark oracle stale is_long)
unfolding health_price_with_staleness worse_of_health_price
health_price_lem mark oracle true is_long = ground arith
health_price_lem mark oracle false true = ground arith
health_price_lem mark oracle false false = ground arith
