-- ===== src/Ring/Inflight/Slots.antt =====
-- One slot of the map of reductions in flight, fill_commitment.rs: what a search finds before and
-- after the slot is written.
use mathlib.Core.Path.{subst}
use native.Mathlib.Decide.{ℕ_discrete}
use flash_book.Common.{
  ℕ, zero, suc, ◌+◌, ◌≤◌, ◌<◌, ◌≡◌, ◌≢◌, refl, sym, ap, ◌∙◌, List, arith, length, u64, inl, inr,
  ◌⊎◌, if◌then◌else◌,
}
use flash_book.Common.Bytes.{
  bytes_eq, bytes_eq_iff, slice, splice, length-splice, slice-splice, slice-splice_before,
  slice-splice_after, from_le_bytes, to_le_bytes,
}
use flash_book.Common.Fields.{rd_u64, wr_u64, rd_u64-wr_self}
use flash_book.Ring.Inflight.{slot_at, get_from}

abbrev pub key_at : List ℕ → ℕ → ℕ → List ℕ
key_at buf base s = slice buf (slot_at base s) 32

abbrev pub lots_at : List ℕ → ℕ → ℕ → ℕ
lots_at buf base s = rd_u64 buf (slot_at base s + 32)

-- Slot `t` holds a key and lots, and every other slot is as it was.
pub record WrittenAt (base t : ℕ) (key : List ℕ) (lots : ℕ) (old new : List ℕ) : Type 0 where
  pub same_len : length new ≡ length old
  pub key_new : key_at new base t ≡ key
  pub lots_new : lots_at new base t ≡ lots
  pub others :
      (s : ℕ)
      → s ≢ t
      → (key_at new base s ≡ key_at old base s) × (lots_at new base s ≡ lots_at old base s)

-- No slot before `s` holds the key.
abbrev pub Unmatched : List ℕ → ℕ → List ℕ → ℕ → Type 0
Unmatched buf base p s = (i : ℕ) → i < s → key_at buf base i ≢ p

pub Unmatched-suc :
    (buf : List ℕ) (base : ℕ) (p : List ℕ) (s : ℕ)
    → Unmatched buf base p s
    → key_at buf base s ≢ p
    → Unmatched buf base p (s + 1)
Unmatched-suc buf base p s before here i h = elim (ℕ_discrete i s) [
  | yes e ↦ rw e here
  | no n ↦ before i (omega arith)
]

-- The step of the search, in an account with room for the slot.
get_from-suc :
    (buf : List ℕ) (base : ℕ) (p : List ℕ) (n s : ℕ)
    → slot_at base s + 40 ≤ length buf
    → get_from buf base p (suc n) s ≡ (
        if bytes_eq (key_at buf base s) p
        then lots_at buf base s
        else get_from buf base p n (s + 1))
unfolding get_from
get_from-suc buf base p n s room = ground arith

get_from-hit :
    (buf : List ℕ) (base : ℕ) (p : List ℕ) (n s : ℕ)
    → slot_at base s + 40 ≤ length buf
    → key_at buf base s ≡ p
    → get_from buf base p (suc n) s ≡ lots_at buf base s
get_from-hit buf base p n s room e =
    ground (arith, get_from-suc buf base p n s room, bytes_eq_iff (key_at buf base s) p)

get_from-miss :
    (buf : List ℕ) (base : ℕ) (p : List ℕ) (n s : ℕ)
    → slot_at base s + 40 ≤ length buf
    → key_at buf base s ≢ p
    → get_from buf base p (suc n) s ≡ get_from buf base p n (s + 1)
get_from-miss buf base p n s room ne =
    ground (arith, get_from-suc buf base p n s room, bytes_eq_iff (key_at buf base s) p)

-- The search returns the lots of the first slot with the key.
pub get_from-first :
    (buf : List ℕ) (base : ℕ) (p : List ℕ) (n s t : ℕ)
    → slot_at base (s + n) ≤ length buf
    → s ≤ t
    → t < s + n
    → Unmatched buf base p t
    → key_at buf base t ≡ p
    → get_from buf base p n s ≡ lots_at buf base t
get_from-first buf base p zero s t room lo hi u e = absurd (omega arith)
get_from-first buf base p (suc n) s t room lo hi u e = elim (ℕ_discrete s t) [
  | yes same ↦ rw same (get_from-hit buf base p n t (omega arith) e)
  | no ne ↦
      get_from-miss buf base p n s (omega arith) (u s (omega arith))
      ∙ get_from-first buf base p n (s + 1) t (omega arith) (omega arith) (omega arith) u e
]

pub get_from-none :
    (buf : List ℕ) (base : ℕ) (p : List ℕ) (n s : ℕ)
    → slot_at base (s + n) ≤ length buf
    → Unmatched buf base p (s + n)
    → get_from buf base p n s ≡ 0
unfolding get_from
get_from-none buf base p zero s room u = refl
get_from-none buf base p (suc n) s room u =
    get_from-miss buf base p n s (omega arith) (u s (omega arith))
    ∙ get_from-none buf base p n (s + 1) (omega arith) (λ i h. u i (omega arith))

-- A write to a slot that neither held the key nor holds it does not show in its search.
pub get_from-other :
    (base t : ℕ) (key : List ℕ) (lots : ℕ) (old new q : List ℕ) (n s : ℕ)
    → WrittenAt base t key lots old new
    → slot_at base (s + n) ≤ length old
    → key ≢ q
    → key_at old base t ≢ q
    → get_from new base q n s ≡ get_from old base q n s
unfolding get_from
get_from-other base t key lots old new q zero s w room a b = refl
get_from-other base t key lots old new q (suc n) s w room a b =
    let rest = get_from-other base t key lots old new q n (s + 1) w (omega arith) a b in
    elim (ℕ_discrete s t) [
      | yes e ↦
          get_from-miss new base q n s (omega (arith, w.same_len))
            (rw e (λ h. a (sym w.key_new ∙ h)))
          ∙ rest
          ∙ sym (get_from-miss old base q n s (omega arith) (rw e b))
      | no ne ↦
          get_from-suc new base q n s (omega (arith, w.same_len))
          ∙ rw ((w.others s ne).0, (w.others s ne).1, rest) refl
          ∙ sym (get_from-suc old base q n s (omega arith))
    ]

slots_apart :
    (base s t : ℕ)
    → s ≢ t
    → (slot_at base s + 40 ≤ slot_at base t) ⊎ (slot_at base t + 40 ≤ slot_at base s)
slots_apart base s t h = ground arith

-- A write of at most the slot's bytes shows in no other slot.
pub splice-others :
    (buf : List ℕ) (base t off : ℕ) (v : List ℕ)
    → slot_at base t ≤ off
    → off + length v ≤ slot_at base t + 40
    → (s : ℕ) → s ≢ t
    → (key_at (splice buf off v) base s ≡ key_at buf base s)
      × (lots_at (splice buf off v) base s ≡ lots_at buf base s)
splice-others buf base t off v lo hi s ne = elim (slots_apart base s t ne) [
  | inl before ↦ (
    slice-splice_before buf off v (slot_at base s) 32 (omega arith),
    ap from_le_bytes (slice-splice_before buf off v (slot_at base s + 32) 8 (omega arith)),
  )
  | inr after ↦ (
    slice-splice_after buf off v (slot_at base s) 32 (omega arith),
    ap from_le_bytes (slice-splice_after buf off v (slot_at base s + 32) 8 (omega arith)),
  )
]

-- The store of new lots in a slot.
pub wr-WrittenAt :
    (buf : List ℕ) (base t v : ℕ)
    → slot_at base t + 40 ≤ length buf
    → v < u64
    → WrittenAt base t (key_at buf base t) v buf (wr_u64 buf (slot_at base t + 32) v)
wr-WrittenAt buf base t v room fits = record {
  same_len = length-splice buf (slot_at base t + 32) (to_le_bytes 8 v);
  key_new =
      slice-splice_before buf (slot_at base t + 32) (to_le_bytes 8 v) (slot_at base t) 32
        (omega arith);
  lots_new = rd_u64-wr_self buf (slot_at base t + 32) v (omega arith) fits;
  others =
      splice-others buf base t (slot_at base t + 32) (to_le_bytes 8 v) (omega arith) (omega arith);
}

-- The store of a key and its lots in a slot.
pub new-WrittenAt :
    (buf : List ℕ) (base t : ℕ) (key : List ℕ) (v : ℕ)
    → slot_at base t + 40 ≤ length buf
    → length key ≡ 32
    → v < u64
    → WrittenAt base t key v buf (wr_u64 (splice buf (slot_at base t) key) (slot_at base t + 32) v)
new-WrittenAt buf base t key v room l fits =
    let keyed = splice buf (slot_at base t) key in
    let w =
      wr-WrittenAt keyed base t v (omega (arith, length-splice buf (slot_at base t) key)) fits in
    record {
      same_len = w.same_len ∙ length-splice buf (slot_at base t) key;
      key_new =
          w.key_new
          ∙ subst (λ n. slice keyed (slot_at base t) n ≡ key) l
              (slice-splice buf (slot_at base t) key (omega arith));
      lots_new = w.lots_new;
      others = λ s ne.
          let inner =
            splice-others buf base t (slot_at base t) key (omega arith) (omega arith) s ne in
          ((w.others s ne).0 ∙ inner.0, (w.others s ne).1 ∙ inner.1);
    }
