-- ===== src/Ring/Fifo.antt =====
-- The pending window of the ring of programs/clober/src/matcher/fill_commitment.rs.
use native.Mathlib.Decide.{dec_lt}
use mathlib.Core.Path.{ap₂, subst}
use native.Mathlib.Nat.{add_assoc, add-zero, mod-lt, mod-add-mod, mod-eq_of_lt, mod-eq-sub-mod}
use flash_book.Common.{
  ℕ, zero, suc, ◌+◌, ◌-◌, ◌%◌, ◌≤◌, ◌<◌, ◌≡◌, ◌≢◌, refl, sym, ap, List, [], ◌∷◌, ◌++◌, arith,
  Result, ok, ◌>>=◌, Ensures, length, get_or, set,
}
use flash_book.Ring.{FillCommit, FillRingError, zero_commit, ring_push, ring_settle}

pub mod-ne : (a d size : ℕ) → 0 < d → d < size → (a + d) % size ≢ a % size
mod-ne a d size h k = rw (← mod-add-mod a size d) (elim (dec_lt (a % size + d) size) [
  | yes p ↦ omega (arith, mod-eq_of_lt p)
  | no p ↦ omega (
    arith,
    mod-lt a {m = size} (omega arith),
    mod-eq-sub-mod {n = a % size + d} {m = size} (omega arith),
    mod-eq_of_lt {n = a % size + d - size} {m = size}
        (omega (arith, mod-lt a {m = size} (omega arith))),
  )
])

get_or-set_self :
    (xs : List FillCommit) (i : ℕ) (v d : FillCommit) → i < length xs → get_or (set xs i v) i d ≡ v
get_or-set_self [] i v d h = absurd (omega arith)
get_or-set_self (x ∷ xs) zero v d h = refl
get_or-set_self (x ∷ xs) (suc i) v d h = get_or-set_self xs i v d (omega arith)

get_or-set_ne :
    (xs : List FillCommit) (i j : ℕ) (v d : FillCommit)
    → i ≢ j
    → get_or (set xs i v) j d ≡ get_or xs j d
get_or-set_ne [] i j v d h = refl
get_or-set_ne (x ∷ xs) zero zero v d h = absurd (h refl)
get_or-set_ne (x ∷ xs) zero (suc j) v d h = refl
get_or-set_ne (x ∷ xs) (suc i) zero v d h = refl
get_or-set_ne (x ∷ xs) (suc i) (suc j) v d h = get_or-set_ne xs i j v d (λ e. h (ap suc e))

-- The `n` commitments with the indices from `i` on.
abbrev pub window : List FillCommit → ℕ → ℕ → ℕ → List FillCommit
window slots size i zero = []
window slots size i (suc n) = get_or slots (i % size) zero_commit ∷ window slots size (i + 1) n

pub length-window : (slots : List FillCommit) (size i n : ℕ) → length (window slots size i n) ≡ n
length-window slots size i zero = refl
length-window slots size i (suc n) = ap suc (length-window slots size (i + 1) n)

-- A write to a slot behind the window does not show in it.
pub window-set_behind :
    (slots : List FillCommit) (size i n d : ℕ) (v : FillCommit)
    → 0 < d
    → d + n ≤ size
    → window (set slots (i % size) v) size (i + d) n ≡ window slots size (i + d) n
window-set_behind slots size i zero d v h k = refl
window-set_behind slots size i (suc n) d v h k =
    ap₂ ◌∷◌
      (get_or-set_ne slots (i % size) ((i + d) % size) v zero_commit
        (λ e. mod-ne i d size h (omega arith) (sym e)))
      (rw (add_assoc i d 1)
        (window-set_behind slots size i n (d + 1) v (omega arith) (omega arith)))

-- A write just past the window extends it.
pub window-set_end :
    (slots : List FillCommit) (size i n : ℕ) (v : FillCommit)
    → size ≡ length slots
    → n < size
    → window (set slots ((i + n) % size) v) size i (suc n) ≡ window slots size i n ++ v ∷ []
window-set_end slots size i zero v e h = rw (
  add-zero,
  get_or-set_self slots (i % size) v zero_commit (omega (arith, mod-lt i {m = size} h)),
)
window-set_end slots size i (suc n) v e h =
    ap₂ ◌∷◌
      (get_or-set_ne slots ((i + suc n) % size) (i % size) v zero_commit
        (mod-ne i (suc n) size (omega arith) h))
      (subst
        (λ j.
          window (set slots (j % size) v) size (i + 1) (suc n)
          ≡ window slots size (i + 1) n ++ v ∷ [])
        shift (window-set_end slots size (i + 1) n v e (omega arith)))
  where
    shift : i + 1 + n ≡ i + suc n
    shift = omega arith

-- A ring, as the account stores it.
pub record Ring : Type 0 where
  pub produced : ℕ
  pub settled : ℕ
  pub slots : List FillCommit

pub record IsValid (r : Ring) : Type 0 where
  pub open_slots : 0 < length r.slots
  pub ordered : r.settled ≤ r.produced
  pub bounded : r.produced ≤ r.settled + length r.slots

-- The commitments that are pushed and not yet settled, oldest first.
abbrev pub pending : Ring → List FillCommit
pending r = window r.slots (length r.slots) r.settled (r.produced - r.settled)

abbrev pub push : Ring → FillCommit → Result FillRingError Ring
push r c = do
  (produced, slots) ← ring_push r.produced r.settled r.slots c
  ok (record r { produced = produced; slots = slots })

abbrev pub settle : Ring → FillCommit → Result FillRingError Ring
settle r c = do
  (settled, slots) ← ring_settle r.produced r.settled r.slots c
  ok (record r { settled = settled; slots = slots })

-- The produced cursor moves by one on a push that succeeds, and never on a settlement.
pub produced-push :
    (r : Ring) (c : FillCommit) → Ensures (push r c) λ q. q.produced ≡ r.produced + 1
unfolding ring_push
produced-push r c = ground arith

pub produced-settle :
    (r : Ring) (c : FillCommit) → Ensures (settle r c) λ q. q.produced ≡ r.produced
unfolding ring_settle
produced-settle r c = ground arith
