-- ===== src/Common/Outcome.antt =====
-- Rust's `Result`, with `?` as a bind.

use mathlib.Core.Bool.{Bool, true, false}
use mathlib.Core.Path.{◌≡◌, refl, sym, ap, subst}
use mathlib.Core.Logic.{◌≢◌}
use native.Mathlib.Omega.{arith}
use mathlib.Core.Option.{Option, none, some}

pub data Result {ℓ κ} (E : Type ℓ) (A : Type κ) : Type (ℓ ⊔ κ) where
  ok : A → Result E A
  err : E → Result E A

infixl 5 ◌>>=◌ ◌>>◌
abbrev pub ◌>>=◌ {ℓ κ ι} :
    {E : Type ℓ} {A : Type κ} {B : Type ι} → Result E A → (A → Result E B) → Result E B
ok a >>= f = f a
err e >>= f = err e

abbrev pub ◌>>◌ {ℓ ι} : {E : Type ℓ} {B : Type ι} → Result E (Unit {0}) → Result E B → Result E B
m >> k = m >>= λ _. k

-- `o.ok_or(e)`
abbrev pub ok_or {ℓ κ} : {E : Type ℓ} {A : Type κ} → Option A → E → Result E A
ok_or none e = err e
ok_or (some a) e = ok a

-- `require!(c, e)`
abbrev pub require {ℓ} : {E : Type ℓ} → Bool → E → Result E (Unit {0})
require true e = ok tt
require false e = err e

-- A call's result under a caller's error, as in `.map_err(f)?`.
abbrev pub map_err {ℓ κ ι} :
    {E : Type ℓ} {F : Type κ} {A : Type ι} → (E → F) → Result E A → Result F A
map_err f (ok a) = ok a
map_err f (err e) = err (f e)

abbrev pub map_ok {ℓ κ ι} :
    {E : Type ℓ} {A : Type κ} {B : Type ι} → (A → B) → Result E A → Result E B
map_ok f (ok a) = ok (f a)
map_ok f (err e) = err e

abbrev pub is_ok {ℓ κ} : {E : Type ℓ} {A : Type κ} → Result E A → Bool
is_ok (ok a) = true
is_ok (err e) = false

-- The value of a result satisfies a predicate, and there is one.
abbrev pub Returns {ℓ κ} : {E : Type ℓ} {A : Type κ} → Result E A → (A → Type 0) → Type 0
Returns (ok a) P = P a
Returns (err e) P = ⊥

-- If there is a value, it satisfies a predicate.
abbrev pub Ensures {ℓ κ} : {E : Type ℓ} {A : Type κ} → Result E A → (A → Type 0) → Type 0
Ensures (ok a) P = P a
Ensures (err e) P = Unit

pub Ensures-map {ℓ κ} :
    {E : Type ℓ} {A : Type κ} {P Q : A → Type 0} (r : Result E A)
    → ((a : A) → P a → Q a)
    → Ensures r P
    → Ensures r Q
Ensures-map (ok a) f h = f a h
Ensures-map (err e) f h = tt

-- What a result ensures holds of the value that it is.
pub Ensures-ok {ℓ κ} :
    {E : Type ℓ} {A : Type κ} (r : Result E A) {a : A} (P : A → Type 0)
    → Ensures r P
    → r ≡ ok a
    → P a
Ensures-ok r P h e = subst (λ q. Ensures q P) e h

pub Ensures->>= {ℓ κ ι} :
    {E : Type ℓ} {A : Type κ} {B : Type ι} (r : Result E A) (f : A → Result E B) (P : A → Type 0)
    (Q : B → Type 0)
    → Ensures r P
    → ((a : A) → P a → Ensures (f a) Q)
    → Ensures (r >>= f) Q
Ensures->>= (ok a) f P Q h k = k a h
Ensures->>= (err e) f P Q h k = tt

-- An error is not one of those that neither step raises.
pub err->>= {ℓ κ ι} :
    {E : Type ℓ} {A : Type κ} {B : Type ι} (r : Result E A) (f : A → Result E B) (e : E)
    → r ≢ err e
    → ((a : A) → f a ≢ err e)
    → (r >>= f) ≢ err e
err->>= (ok a) f e h k p = k a p
err->>= (err x) f e h k p = h (ground arith)

pub Ensures-both {ℓ κ} :
    {E : Type ℓ} {A : Type κ} (P Q : A → Type 0) (r : Result E A)
    → Ensures r P
    → Ensures r Q
    → Ensures r (λ a. P a × Q a)
Ensures-both P Q (ok a) h k = (h, k)
Ensures-both P Q (err e) h k = tt

pub Ensures-any {ℓ κ} : {E : Type ℓ} {A : Type κ} (r : Result E A) → Ensures r (λ a. Unit)
Ensures-any (ok a) = tt
Ensures-any (err e) = tt

pub Returns-map {ℓ κ} :
    {E : Type ℓ} {A : Type κ} {P Q : A → Type 0} (r : Result E A)
    → Returns r P
    → ((a : A) → P a → Q a)
    → Returns r Q
Returns-map (ok a) h f = f a h
Returns-map (err e) h f = elim h [ ]

-- A result is its own value.
pub Ensures-self : {E A : Type 0} (r : Result E A) → Ensures r λ a. r ≡ ok a
Ensures-self (ok a) = refl
Ensures-self (err e) = tt

-- A step of which nothing is asked.
pub Ensures-skip {ℓ κ ι} :
    {E : Type ℓ} {A : Type κ} {B : Type ι} (r : Result E A) (f : A → Result E B) (Q : B → Type 0)
    → ((a : A) → Ensures (f a) Q)
    → Ensures (r >>= f) Q
Ensures-skip (ok a) f Q k = k a
Ensures-skip (err e) f Q k = tt

pub Ensures-map_err {ℓ κ ι} :
    {E : Type ℓ} {F : Type κ} {A : Type ι} (f : E → F) (r : Result E A) (P : A → Type 0)
    → Ensures r P
    → Ensures (map_err f r) P
Ensures-map_err f (ok a) P h = h
Ensures-map_err f (err e) P h = tt

pub Ensures-map_ok :
    {E A B : Type 0} (f : A → B) (r : Result E A) (q : Result E B)
    → map_ok f r ≡ q
    → Ensures r λ a. q ≡ ok (f a)
Ensures-map_ok f (ok a) q e = sym e
Ensures-map_ok f (err x) q e = tt

pub Ensures-all :
    {E A I : Type 0} {C : I → Type 0} (r : Result E A) (P : I → A → Type 0)
    → ((i : I) → C i → Ensures r (P i))
    → Ensures r λ a. (i : I) → C i → P i a
Ensures-all (ok a) P h = h
Ensures-all (err e) P h = tt

pub Returns-Ensures : {E A : Type 0} (r : Result E A) (P : A → Type 0) → Returns r P → Ensures r P
Returns-Ensures (ok a) P h = h
Returns-Ensures (err e) P h = tt

pub Returns->>= {ℓ κ ι} :
    {E : Type ℓ} {A : Type κ} {B : Type ι} (r : Result E A) (f : A → Result E B) (P : A → Type 0)
    (Q : B → Type 0)
    → Returns r P
    → ((a : A) → P a → Returns (f a) Q)
    → Returns (r >>= f) Q
Returns->>= (ok a) f P Q h k = k a h
Returns->>= (err e) f P Q h k = elim h [ ]

pub Returns-both {ℓ κ} :
    {E : Type ℓ} {A : Type κ} (P Q : A → Type 0) (r : Result E A)
    → Returns r P
    → Ensures r Q
    → Returns r (λ a. P a × Q a)
Returns-both P Q (ok a) h k = (h, k)
Returns-both P Q (err e) h k = elim h [ ]

-- A result that is a value also under another error and another view.
pub Returns-under :
    {E F A B : Type 0} (f : E → F) (g : A → B) (r : Result E A) (q : Result E B)
    → map_ok g r ≡ q
    → is_ok q ≡ true
    → Returns (map_err f r) λ a. Unit
Returns-under f g (ok a) q e h = tt
Returns-under f g (err x) q e h = ground (arith, ap is_ok e)
