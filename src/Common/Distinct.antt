-- ===== src/Common/Distinct.antt =====
-- Lists of distinct keys: a list of distinct keys that all lie in another list weighs no more.
use flash_book.Common.{
  ℕ, ◌+◌, ◌≤◌, ◌≡◌, ◌≢◌, refl, Bool, true, false, List, [], ◌∷◌, ◌==◌, ◌||◌, if◌then◌else◌, arith,
  length, inl, inr, ◌⊎◌, Bool-cases, ◌<◌, ◌&&◌,
}

-- `keys.contains(&k)`
abbrev pub contains : List ℕ → ℕ → Bool
contains [] k = false
contains (x ∷ xs) k = x == k || contains xs k

abbrev pub AreDistinct : List ℕ → Type 0
AreDistinct [] = Unit
AreDistinct (x ∷ xs) = (contains xs x ≡ false) × AreDistinct xs

unfoldable pub AreIn : List ℕ → List ℕ → Type 0
AreIn xs ys = (k : ℕ) → contains xs k ≡ true → contains ys k ≡ true

pub AreIn-nil : (ys : List ℕ) → AreIn [] ys
unfolding AreIn
AreIn-nil ys k h = absurd (ground arith)

pub AreIn-cons : (x : ℕ) (xs ys : List ℕ) → contains ys x ≡ true → AreIn xs ys → AreIn (x ∷ xs) ys
unfolding AreIn
AreIn-cons x xs ys h i k e = ground (arith, i k)

pub AreIn-self : (xs : List ℕ) → AreIn xs xs
unfolding AreIn
AreIn-self xs k h = h

pub AreIn-weaken : (x : ℕ) (xs : List ℕ) → AreIn xs (x ∷ xs)
unfolding AreIn
AreIn-weaken x xs k h = ground arith

pub AreIn-trans : (xs ys zs : List ℕ) → AreIn xs ys → AreIn ys zs → AreIn xs zs
unfolding AreIn
AreIn-trans xs ys zs f g k h = g k (f k h)

pub contains-AreIn :
    (xs ys : List ℕ) (x : ℕ) → AreIn xs ys → contains xs x ≡ true → contains ys x ≡ true
unfolding AreIn
contains-AreIn xs ys x f h = f x h

abbrev remove : ℕ → List ℕ → List ℕ
remove k [] = []
remove k (x ∷ xs) = if x == k then xs else x ∷ remove k xs

contains-remove :
    (xs : List ℕ) (k j : ℕ) → j ≢ k → contains xs j ≡ true → contains (remove k xs) j ≡ true
contains-remove [] k j d h = h
contains-remove (x ∷ xs) k j d h = ground (arith, contains-remove xs k j d)

module _ (weight : ℕ → ℕ) where
  abbrev pub sum_of : List ℕ → ℕ
  sum_of [] = 0
  sum_of (x ∷ xs) = weight x + sum_of xs

  sum_of-remove :
      (xs : List ℕ) (k : ℕ) → contains xs k ≡ true → weight k + sum_of (remove k xs) ≡ sum_of xs
  sum_of-remove [] k h = absurd (ground arith)
  sum_of-remove (x ∷ xs) k h = ground (arith, sum_of-remove xs k)

  pub sum_of-le : (xs ys : List ℕ) → AreDistinct xs → AreIn xs ys → sum_of xs ≤ sum_of ys
  unfolding AreIn
  sum_of-le [] ys d h = omega arith
  sum_of-le (x ∷ xs) ys d h = omega (
    arith,
    sum_of-remove ys x (h x (ground arith)),
    sum_of-le xs (remove x ys) d.1
        λ k e. contains-remove ys x k (λ p. ground (arith, d.0)) (h k (ground arith)),
  )

length-sum_of : (xs : List ℕ) → sum_of (λ k. 1) xs ≡ length xs
length-sum_of [] = refl
length-sum_of (x ∷ xs) = omega (arith, length-sum_of xs)

pub length-le : (xs ys : List ℕ) → AreDistinct xs → AreIn xs ys → length xs ≤ length ys
length-le xs ys d h =
    omega (arith, length-sum_of xs, length-sum_of ys, sum_of-le (λ k. 1) xs ys d h)

-- The keys of a list that lie in another one, and those that do not.
abbrev pub shared : List ℕ → List ℕ → List ℕ
shared [] ys = []
shared (x ∷ xs) ys = if contains ys x then x ∷ shared xs ys else shared xs ys

-- Those that do not, before the other list.
abbrev union : List ℕ → List ℕ → List ℕ
union [] ys = ys
union (x ∷ xs) ys = if contains ys x then union xs ys else x ∷ union xs ys

length-union :
    (xs ys : List ℕ) → length (union xs ys) + length (shared xs ys) ≡ length xs + length ys
length-union [] ys = omega arith
length-union (x ∷ xs) ys = ground (arith, length-union xs ys)

contains-union :
    (xs ys : List ℕ) (k : ℕ) → contains (union xs ys) k ≡ (contains xs k || contains ys k)
contains-union [] ys k = refl
contains-union (x ∷ xs) ys k = ground (arith, contains-union xs ys k)

union-AreDistinct : (xs ys : List ℕ) → AreDistinct xs → AreDistinct ys → AreDistinct (union xs ys)
union-AreDistinct [] ys d e = e
union-AreDistinct (x ∷ xs) ys d e =
    ground (arith, contains-union xs ys x, union-AreDistinct xs ys d.1 e)

union-AreIn : (xs ys zs : List ℕ) → AreIn xs zs → AreIn ys zs → AreIn (union xs ys) zs
unfolding AreIn
union-AreIn xs ys zs f g k h = ground (arith, contains-union xs ys k, f k, g k)

-- Two lists of distinct keys of a third one overlap where they are long.
pub length-shared :
    (xs ys zs : List ℕ)
    → AreDistinct xs
    → AreDistinct ys
    → AreIn xs zs
    → AreIn ys zs
    → length xs + length ys ≤ length zs + length (shared xs ys)
length-shared xs ys zs d e f g = omega (
  arith,
  length-union xs ys,
  length-le (union xs ys) zs (union-AreDistinct xs ys d e) (union-AreIn xs ys zs f g),
)

pub contains-shared :
    (xs ys : List ℕ) (k : ℕ) → contains (shared xs ys) k ≡ (contains xs k && contains ys k)
contains-shared [] ys k = refl
contains-shared (x ∷ xs) ys k = ground (arith, contains-shared xs ys k)

pub shared-AreDistinct : (xs ys : List ℕ) → AreDistinct xs → AreDistinct (shared xs ys)
shared-AreDistinct [] ys d = tt
shared-AreDistinct (x ∷ xs) ys d =
    ground (arith, contains-shared xs ys x, shared-AreDistinct xs ys d.1)

-- A key of a list that does not lie in another one.
abbrev pub Outside : List ℕ → List ℕ → Type 0
Outside xs ys = (k : ℕ) × (contains xs k ≡ true) × (contains ys k ≡ false)

AreIn-or-Outside : (xs ys : List ℕ) → AreIn xs ys ⊎ Outside xs ys
AreIn-or-Outside [] ys = inl (AreIn-nil ys)
AreIn-or-Outside (x ∷ xs) ys = elim (Bool-cases (contains ys x)) [
  | inr e ↦ inr (x, ground arith, e)
  | inl e ↦ elim (AreIn-or-Outside xs ys) [
    | inl h ↦ inl (AreIn-cons x xs ys e h)
    | inr (k, h, o) ↦ inr (k, ground arith, o)
  ]
]

pub find-Outside : (xs ys : List ℕ) → AreDistinct xs → length ys < length xs → Outside xs ys
find-Outside xs ys d h = elim (AreIn-or-Outside xs ys) [
  | inl i ↦ absurd (omega (arith, length-le xs ys d i))
  | inr o ↦ o
]
