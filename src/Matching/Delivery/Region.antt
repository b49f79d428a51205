-- ===== src/Matching/Delivery/Region.antt =====
-- The map of reductions in flight and the flags stand behind the ring's slots in its account,
-- programs/clober/src/matcher/fill_commitment.rs: their writes leave the ring as it was.
use flash_book.Common.{
  ℕ, zero, suc, ◌+◌, ◌*◌, ◌%◌, ◌≤◌, ◌≡◌, refl, ap, ◌∙◌, Bool, true, false, List, [], ◌∷◌, Option,
  none, some, arith, length, set, Ensures, Bool-cases, inl, inr, ltb, ◌==◌,
}
use flash_book.Common.Bytes.{
  bytes_eq, slice, splice, length-splice, slice-splice_before, to_le_bytes,
}
use flash_book.Ring.Buffer.{buffer_check, slot_view}
use flash_book.Ring.Buffer.View.{ring_of}
use flash_book.Ring.Inflight.{
  flags_off, map_off, slot_at, reduce_flag_set, place_new, first_free, all_zero, add_from,
  inflight_add,
}

-- The bytes before an end are as they were.
pub record IsKept (end : ℕ) (old new : List ℕ) : Type 0 where
  pub same_len : length new ≡ length old
  pub before : (j n : ℕ) → j + n ≤ end → slice new j n ≡ slice old j n

pub IsKept-refl : (end : ℕ) (buf : List ℕ) → IsKept end buf buf
IsKept-refl end buf = record { same_len = refl; before = λ j n h. refl }

pub IsKept-trans : (end : ℕ) (a b c : List ℕ) → IsKept end a b → IsKept end b c → IsKept end a c
IsKept-trans end a b c f g = record {
  same_len = g.same_len ∙ f.same_len;
  before = λ j n h. g.before j n h ∙ f.before j n h;
}

pub splice-IsKept :
    (end : ℕ) (buf : List ℕ) (off : ℕ) (v : List ℕ) → end ≤ off → IsKept end buf (splice buf off v)
splice-IsKept end buf off v h = record {
  same_len = length-splice buf off v;
  before = λ j n k. slice-splice_before buf off v j n (omega arith);
}

length-set_lem : (buf : List ℕ) (i v : ℕ) → length (set buf i v) ≡ length buf
length-set_lem [] i v = refl
length-set_lem (x ∷ xs) zero v = refl
length-set_lem (x ∷ xs) (suc i) v = ap suc (length-set_lem xs i v)

slice-set_before :
    (buf : List ℕ) (i v j n : ℕ) → j + n ≤ i → slice (set buf i v) j n ≡ slice buf j n
slice-set_before [] i v j n h = refl
slice-set_before (x ∷ xs) i v zero zero h = refl
slice-set_before (x ∷ xs) zero v zero (suc n) h = absurd (omega arith)
slice-set_before (x ∷ xs) (suc i) v zero (suc n) h =
    ap (λ l. x ∷ l) (slice-set_before xs i v zero n (omega arith))
slice-set_before (x ∷ xs) zero v (suc j) n h = absurd (omega arith)
slice-set_before (x ∷ xs) (suc i) v (suc j) n h = slice-set_before xs i v j n (omega arith)

pub flag_set-IsKept :
    (buf : List ℕ) (capacity idx : ℕ)
    → IsKept (flags_off capacity) buf (reduce_flag_set buf capacity idx)
unfolding reduce_flag_set
flag_set-IsKept buf capacity idx = record {
  same_len = length-set_lem buf (flags_off capacity + idx % capacity) 1;
  before = λ j n h. slice-set_before buf (flags_off capacity + idx % capacity) 1 j n (omega arith);
}

-- The free slot that was found is in the map.
IsInside : ℕ → Option ℕ → Type 0
IsInside base none = Unit
IsInside base (some off) = base ≤ off

place_new-IsKept :
    (buf : List ℕ) (base : ℕ) (position : List ℕ) (delta : ℕ) (free : Option ℕ)
    → IsInside base free
    → Ensures (place_new buf position delta free) (IsKept base buf)
unfolding place_new IsInside
place_new-IsKept buf base position delta none h = tt
place_new-IsKept buf base position delta (some off) h =
    IsKept-trans base buf (splice buf off position) _ (splice-IsKept base buf off position h)
      (splice-IsKept base (splice buf off position) (off + 32) (to_le_bytes 8 delta) (omega arith))

first_free-IsInside :
    (base : ℕ) (free : Option ℕ) (b : Bool) (off : ℕ)
    → base ≤ off
    → IsInside base free
    → IsInside base (first_free free b off)
unfolding IsInside
first_free-IsInside base none true off h k = h
first_free-IsInside base none false off h k = tt
first_free-IsInside base (some old) b off h k = k

add_from-IsKept :
    (buf : List ℕ) (base : ℕ) (position : List ℕ) (delta : ℕ) (free : Option ℕ) (n s : ℕ)
    → IsInside base free
    → Ensures (add_from buf base position delta free n s) (IsKept base buf)
unfolding add_from
add_from-IsKept buf base position delta free zero s h =
    place_new-IsKept buf base position delta free h
add_from-IsKept buf base position delta free (suc n) s h =
    elim (Bool-cases (ltb (length buf) (slot_at base s + 40))) [
      | inl out ↦ rw out (place_new-IsKept buf base position delta free h)
      | inr inside ↦ elim (Bool-cases (bytes_eq (slice buf (slot_at base s) 32) position)) [
        | inl here ↦
            rw (inside, here) (splice-IsKept base buf (slot_at base s + 32) _ (omega arith))
        | inr other ↦
            rw (inside, other)
              (add_from-IsKept buf base position delta
                (first_free free (all_zero (slice buf (slot_at base s) 32)) (slot_at base s)) n
                (s + 1) (first_free-IsInside base free _ (slot_at base s) (omega arith) h))
      ]
    ]

pub inflight_add-IsKept :
    (buf : List ℕ) (capacity : ℕ) (position : List ℕ) (delta : ℕ)
    → Ensures (inflight_add buf capacity position delta) (IsKept (map_off capacity) buf)
unfolding inflight_add IsInside
inflight_add-IsKept buf capacity position delta = elim (Bool-cases (delta == 0)) [
  | inl none_added ↦ rw none_added (IsKept-refl (map_off capacity) buf)
  | inr more ↦ rw more (add_from-IsKept buf (map_off capacity) position delta none 32 0 tt)
]

pub IsKept-le : (m n : ℕ) (a b : List ℕ) → m ≤ n → IsKept n a b → IsKept m a b
IsKept-le m n a b h k = record {
  same_len = k.same_len;
  before = λ j l f. k.before j l (omega arith);
}

-- The ring and its check read only what stands before the flags.
pub ring_of-IsKept :
    (capacity : ℕ) (a b : List ℕ)
    → IsKept (flags_off capacity) a b
    → ring_of capacity b ≡ ring_of capacity a
unfolding slot_view
ring_of-IsKept capacity a b k =
    rw
      (
        k.before 8 8 (omega arith),
        k.before 16 8 (omega arith),
        k.before 64 (capacity * 32) (omega arith),
      )
      refl

pub check-IsKept :
    (capacity : ℕ) (a b market : List ℕ)
    → IsKept (flags_off capacity) a b
    → buffer_check b market ≡ buffer_check a market
unfolding buffer_check
check-IsKept capacity a b market k =
    rw
      (
        k.same_len,
        k.before 0 8 (omega arith),
        k.before 24 4 (omega arith),
        k.before 32 32 (omega arith),
      )
      refl
