-- ===== src/Ring/Inflight/Laws.antt =====
-- What the reductions in flight are after an addition and a subtraction, fill_commitment.rs: the
-- map of the account as a function of the position.
use native.Mathlib.Decide.{ℕ_discrete}
use flash_book.Common.{
  ℕ, ◌-◌, ◌≤◌, ◌<◌, ◌≡◌, ◌≢◌, refl, sym, ap, ◌∙◌, true, false, List, arith, length, none,
  Bool-cases, inl, inr, Ensures, Ensures-map, u64, saturating_add, replicate, ◌==◌,
}
use flash_book.Ring.Inflight.{
  map_off, slot_at, all_zero, get_from, inflight_get, inflight_add, inflight_sub, add_from,
  sub_from,
}
use flash_book.Ring.Inflight.Slots.{
  key_at, lots_at, WrittenAt, Unmatched, get_from-first, get_from-none, get_from-other,
}
use flash_book.Ring.Inflight.Adding.{Added, raised, placed, add_from-Added}
use flash_book.Ring.Inflight.Subtracting.{Subtracted, absent, lowered, freed, sub_from-Subtracted}

-- No two slots of the map hold the key.
abbrev pub IsOneSlot : List ℕ → ℕ → List ℕ → Type 0
IsOneSlot buf base p =
    (i j : ℕ) → i < 32 → j < 32 → key_at buf base i ≡ p → key_at buf base j ≡ p → i ≡ j

-- A key that is all zero marks a free slot.
ne_of_zero : (k q : List ℕ) → all_zero k ≡ true → all_zero q ≡ false → k ≢ q
ne_of_zero k q h z e = ground (arith, ap all_zero e)

module _ (base t : ℕ) (key : List ℕ) (lots : ℕ) (old new : List ℕ)
    (w : WrittenAt base t key lots old new) where
  Unmatched-written : (p : List ℕ) (s : ℕ) → s ≤ t → Unmatched old base p s → Unmatched new base p s
  Unmatched-written p s h u i lt e = u i lt (sym (w.others i (omega arith)).0 ∙ e)

  get_written :
      slot_at base 32 ≤ length old
      → t < 32
      → Unmatched old base key t
      → get_from new base key 32 0 ≡ lots
  get_written room lt u =
      get_from-first new base key 32 0 t (omega (arith, w.same_len)) (omega arith) lt
        (Unmatched-written key t (omega arith) u) w.key_new
      ∙ w.lots_new

  -- A key that the slot neither held nor holds stands in as many slots as before.
  IsOneSlot-other : (q : List ℕ) → key ≢ q → IsOneSlot old base q → IsOneSlot new base q
  IsOneSlot-other q ne one i j li lj a b = elim (ℕ_discrete i t) [
    | yes e ↦ absurd (ne (sym w.key_new ∙ rw (← e) a))
    | no ni ↦ elim (ℕ_discrete j t) [
      | yes e ↦ absurd (ne (sym w.key_new ∙ rw (← e) b))
      | no nj ↦ one i j li lj (sym (w.others i ni).0 ∙ a) (sym (w.others j nj).0 ∙ b)
    ]
  ]

  -- If the key stood in no other slot, it stands in this one only.
  pub IsOneSlot-written :
      ((i : ℕ) → i < 32 → i ≢ t → key_at old base i ≢ key) → IsOneSlot new base key
  IsOneSlot-written alone i j li lj a b = at_t i li a ∙ sym (at_t j lj b)
    where
      at_t : (k : ℕ) → k < 32 → key_at new base k ≡ key → k ≡ t
      at_t k lk e = elim (ℕ_discrete k t) [
        | yes same ↦ same
        | no ne ↦ absurd (alone k lk ne (sym (w.others k ne).0 ∙ e))
      ]

module _ (base : ℕ) (p : List ℕ) (delta : ℕ) (buf : List ℕ)
    (room : slot_at base 32 ≤ length buf) where
  -- The first slot with the key is the only one.
  alone_of :
      (t : ℕ)
      → t < 32
      → key_at buf base t ≡ p
      → IsOneSlot buf base p
      → (i : ℕ) → i < 32
      → i ≢ t
      → key_at buf base i ≢ p
  alone_of t lt e one i li ne k = ne (one i t li lt k e)

  abbrev pub AddLaw : List ℕ → Type 0
  AddLaw new =
      (length new ≡ length buf)
      × (get_from new base p 32 0 ≡ saturating_add u64 (get_from buf base p 32 0) delta)
      × (IsOneSlot buf base p → IsOneSlot new base p)
      × ((q : List ℕ)
          → p ≢ q
          → all_zero q ≡ false
          → (get_from new base q 32 0 ≡ get_from buf base q 32 0)
            × (IsOneSlot buf base q → IsOneSlot new base q))

  Added-AddLaw : (new : List ℕ) → delta < u64 → Added base p delta buf new → AddLaw new
  Added-AddLaw new fits (raised t lt u e w) = (
    w.same_len,
    get_written base t p _ buf new w room lt u
        ∙ ap (λ g. saturating_add u64 g delta)
            (sym (get_from-first buf base p 32 0 t room (omega arith) lt u e)),
    λ one. IsOneSlot-written base t p _ buf new w (alone_of t lt e one),
    λ q ne z. (
      get_from-other base t p _ buf new q 32 0 w room ne (λ k. ne (sym e ∙ k)),
      IsOneSlot-other base t p _ buf new w q ne,
    ),
  )
  Added-AddLaw new fits (placed t lt u z w) = (
    w.same_len,
    get_written base t p _ buf new w room lt (λ i h. u i (omega arith))
        ∙ rw (get_from-none buf base p 32 0 room u) (ground arith),
    λ one. IsOneSlot-written base t p _ buf new w (λ i li ne. u i li),
    λ q ne nz. (
      get_from-other base t p _ buf new q 32 0 w room ne (ne_of_zero (key_at buf base t) q z nz),
      IsOneSlot-other base t p _ buf new w q ne,
    ),
  )

  abbrev pub SubLaw : List ℕ → Type 0
  SubLaw new =
      (length new ≡ length buf)
      × (get_from new base p 32 0 ≡ get_from buf base p 32 0 - delta)
      × IsOneSlot new base p
      × ((q : List ℕ)
          → p ≢ q
          → all_zero q ≡ false
          → (get_from new base q 32 0 ≡ get_from buf base q 32 0)
            × (IsOneSlot buf base q → IsOneSlot new base q))

  Subtracted-SubLaw :
      (new : List ℕ)
      → all_zero p ≡ false
      → IsOneSlot buf base p
      → Subtracted base p delta buf new
      → SubLaw new
  Subtracted-SubLaw new z one (absent u e) = rw e (
    refl,
    rw (get_from-none buf base p 32 0 room u) (omega arith),
    one,
    λ q ne nz. (refl, λ k. k),
  )
  Subtracted-SubLaw new z one (lowered t lt u e w) = (
    w.same_len,
    get_written base t p _ buf new w room lt u
        ∙ ap (λ g. g - delta) (sym (get_from-first buf base p 32 0 t room (omega arith) lt u e)),
    IsOneSlot-written base t p _ buf new w (alone_of t lt e one),
    λ q ne nz. (
      get_from-other base t p _ buf new q 32 0 w room ne (λ k. ne (sym e ∙ k)),
      IsOneSlot-other base t p _ buf new w q ne,
    ),
  )
  Subtracted-SubLaw new z one (freed t lt u e small w) = (
    w.same_len,
    get_from-none new base p 32 0 (omega (arith, w.same_len)) gone
        ∙ rw (get_from-first buf base p 32 0 t room (omega arith) lt u e) (omega arith),
    λ i j li lj a b. absurd (gone i li a),
    λ q ne nz. (
      get_from-other base t _ 0 buf new q 32 0 w room (ne_of_zero (replicate 32 0) q refl nz)
          (λ k. ne (sym e ∙ k)),
      IsOneSlot-other base t _ 0 buf new w q (ne_of_zero (replicate 32 0) q refl nz),
    ),
  )
    where
      gone : Unmatched new base p 32
      gone i li k = elim (ℕ_discrete i t) [
        | yes same ↦ ne_of_zero (replicate 32 0) p refl z (sym w.key_new ∙ rw (← same) k)
        | no ne ↦ alone_of t lt e one i li ne (sym (w.others i ne).0 ∙ k)
      ]

-- In an account with room for the map, an addition for a position of 32 bytes that succeeds
-- raises what is in flight for the position by the delta, up to the largest u64; it changes what
-- is in flight for no other position, the zero key apart, and a position in one slot stays in
-- one.
pub get-add :
    (buf : List ℕ) (capacity : ℕ) (p : List ℕ) (delta : ℕ)
    → slot_at (map_off capacity) 32 ≤ length buf
    → length p ≡ 32
    → delta < u64
    → inflight_get buf capacity p < u64
    → Ensures (inflight_add buf capacity p delta) λ new.
      (length new ≡ length buf)
      × (inflight_get new capacity p ≡ saturating_add u64 (inflight_get buf capacity p) delta)
      × (IsOneSlot buf (map_off capacity) p → IsOneSlot new (map_off capacity) p)
      × ((q : List ℕ)
          → p ≢ q
          → all_zero q ≡ false
          → (inflight_get new capacity q ≡ inflight_get buf capacity q)
            × (IsOneSlot buf (map_off capacity) q → IsOneSlot new (map_off capacity) q))
unfolding inflight_get inflight_add
get-add buf capacity p delta room l fits typed = elim (Bool-cases (delta == 0)) [
  | inl none_added ↦ rw none_added (refl, ground arith, λ k. k, λ q ne nz. (refl, λ k. k))
  | inr some_added ↦ rw some_added (
      Ensures-map (add_from buf (map_off capacity) p delta none 32 0)
        (λ new h. Added-AddLaw (map_off capacity) p delta buf room new fits h)
        (add_from-Added (map_off capacity) p delta buf none 32 0 refl room l fits
          (λ i h. absurd (omega arith)) tt))
]

-- In an account with room for the map, whose lots are u64s and where the position, which is not
-- the zero key, stands in one slot at most, a subtraction lowers what is in flight for the
-- position by the delta, down to zero; it changes nothing for any other position, the zero key
-- apart, and a position in one slot stays in one.
pub get-sub :
    (buf : List ℕ) (capacity : ℕ) (p : List ℕ) (delta : ℕ)
    → slot_at (map_off capacity) 32 ≤ length buf
    → all_zero p ≡ false
    → ((i : ℕ) → i < 32 → lots_at buf (map_off capacity) i < u64)
    → IsOneSlot buf (map_off capacity) p
    → let new = inflight_sub buf capacity p delta in
      (length new ≡ length buf)
      × (inflight_get new capacity p ≡ inflight_get buf capacity p - delta)
      × IsOneSlot new (map_off capacity) p
      × ((q : List ℕ)
          → p ≢ q
          → all_zero q ≡ false
          → (inflight_get new capacity q ≡ inflight_get buf capacity q)
            × (IsOneSlot buf (map_off capacity) q → IsOneSlot new (map_off capacity) q))
unfolding inflight_get inflight_sub
get-sub buf capacity p delta room z typed one =
    Subtracted-SubLaw (map_off capacity) p delta buf room
      (sub_from buf (map_off capacity) p delta 32 0) z one
      (sub_from-Subtracted (map_off capacity) p delta buf 32 0 refl room typed
        (λ i h. absurd (omega arith)))
