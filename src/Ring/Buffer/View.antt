-- ===== src/Ring/Buffer/View.antt =====
-- The slots of the ring's account, fill_commitment.rs: a write of the slots and of a cursor shows
-- in the decoded ring as that write, and the account still passes its check.
use mathlib.Core.Path.{subst, ap₂}
use flash_book.Common.{
  ℕ, zero, suc, ◌+◌, ◌*◌, ◌≤◌, ◌<◌, ◌≡◌, refl, ap, ◌∙◌, List, [], ◌∷◌, ◌++◌, arith, ok, length,
  take, drop, set, length-append, length-take, length-drop,
}
use flash_book.Common.Bytes.{
  slice, splice, length-slice, length-splice, slice-splice, slice-splice_before, slice-splice_after,
  to_le_bytes, from_le_bytes,
}
use flash_book.Common.Fields.{rd_u64, wr_u64}
use flash_book.Ring.{FillCommit}
use flash_book.Ring.Fifo.{Ring}
use flash_book.Ring.Buffer.{buffer_check, chunks, join, slot_view, put_slots}

-- Every slot has 32 bytes.
abbrev pub AreSlots : List FillCommit → Type 0
AreSlots [] = Unit
AreSlots (c ∷ cs) = (length c ≡ 32) × AreSlots cs

-- The ring that the account's bytes stand for.
abbrev pub ring_of : ℕ → List ℕ → Ring
ring_of capacity buf = record {
  produced = rd_u64 buf 8;
  settled = rd_u64 buf 16;
  slots = slot_view buf capacity;
}

take_of-append : (n : ℕ) (xs ys : List ℕ) → length xs ≡ n → take n (xs ++ ys) ≡ xs
take_of-append zero [] ys h = refl
take_of-append zero (x ∷ xs) ys h = absurd (omega arith)
take_of-append (suc n) [] ys h = absurd (omega arith)
take_of-append (suc n) (x ∷ xs) ys h = ap (λ l. x ∷ l) (take_of-append n xs ys (omega arith))

drop_of-append : (n : ℕ) (xs ys : List ℕ) → length xs ≡ n → drop n (xs ++ ys) ≡ ys
drop_of-append zero [] ys h = refl
drop_of-append zero (x ∷ xs) ys h = absurd (omega arith)
drop_of-append (suc n) [] ys h = absurd (omega arith)
drop_of-append (suc n) (x ∷ xs) ys h = drop_of-append n xs ys (omega arith)

length-join : (cs : List FillCommit) → AreSlots cs → length (join cs) ≡ length cs * 32
unfolding join
length-join [] h = refl
length-join (c ∷ cs) h = omega (arith, length-append c (join cs), length-join cs h.1)

chunks-join : (cs : List FillCommit) → AreSlots cs → chunks (length cs) (join cs) ≡ cs
unfolding chunks join
chunks-join [] h = refl
chunks-join (c ∷ cs) (l, h) =
    ap₂ ◌∷◌ (take_of-append 32 c (join cs) l)
      (ap (chunks (length cs)) (drop_of-append 32 c (join cs) l) ∙ chunks-join cs h)

pub length-chunks : (n : ℕ) (bytes : List ℕ) → length (chunks n bytes) ≡ n
unfolding chunks
length-chunks zero bytes = refl
length-chunks (suc n) bytes = ap suc (length-chunks n (drop 32 bytes))

chunks-AreSlots : (n : ℕ) (bytes : List ℕ) → n * 32 ≤ length bytes → AreSlots (chunks n bytes)
unfolding chunks
chunks-AreSlots zero bytes h = tt
chunks-AreSlots (suc n) bytes h = (
  omega (arith, length-take 32 bytes),
  chunks-AreSlots n (drop 32 bytes) (omega (arith, length-drop 32 bytes)),
)

pub slot_view-AreSlots :
    (buf : List ℕ) (capacity : ℕ)
    → 64 + capacity * 32 ≤ length buf
    → AreSlots (slot_view buf capacity)
unfolding slot_view
slot_view-AreSlots buf capacity h =
    chunks-AreSlots capacity (slice buf 64 (capacity * 32))
      (omega (arith, length-slice buf 64 (capacity * 32) h))

pub set-AreSlots :
    (cs : List FillCommit) (i : ℕ) (c : FillCommit)
    → length c ≡ 32
    → AreSlots cs
    → AreSlots (set cs i c)
set-AreSlots [] i c l h = tt
set-AreSlots (x ∷ xs) zero c l h = (l, h.1)
set-AreSlots (x ∷ xs) (suc i) c l h = (h.0, set-AreSlots xs i c l h.1)

pub slot_view-put :
    (buf : List ℕ) (capacity : ℕ) (cs : List FillCommit)
    → 64 + capacity * 32 ≤ length buf
    → length cs ≡ capacity
    → AreSlots cs
    → slot_view (put_slots buf cs) capacity ≡ cs
unfolding slot_view put_slots
slot_view-put buf capacity cs h l a =
    subst (λ n. chunks n (slice (splice buf 64 (join cs)) 64 (n * 32)) ≡ cs) l
      (ap (chunks (length cs)) (
          subst (λ n. slice (splice buf 64 (join cs)) 64 n ≡ join cs) (length-join cs a)
            (slice-splice buf 64 (join cs) (omega (arith, length-join cs a))))
        ∙ chunks-join cs a)

-- A write before the slots does not show in them, and one of the slots does not show before them.
pub slot_view-wr :
    (buf : List ℕ) (capacity off v : ℕ)
    → off + 8 ≤ 64
    → slot_view (wr_u64 buf off v) capacity ≡ slot_view buf capacity
unfolding slot_view
slot_view-wr buf capacity off v h =
    ap (chunks capacity)
      (slice-splice_after buf off (to_le_bytes 8 v) 64 (capacity * 32) (omega arith))

pub rd_u64-put :
    (buf : List ℕ) (cs : List FillCommit) (off : ℕ)
    → off + 8 ≤ 64
    → rd_u64 (put_slots buf cs) off ≡ rd_u64 buf off
unfolding put_slots
rd_u64-put buf cs off h = ap from_le_bytes (slice-splice_before buf 64 (join cs) off 8 h)

-- The check reads the length, the tag, the capacity and the market.
check-congr :
    (a b market : List ℕ)
    → length a ≡ length b
    → slice a 0 8 ≡ slice b 0 8
    → slice a 24 4 ≡ slice b 24 4
    → slice a 32 32 ≡ slice b 32 32
    → buffer_check a market ≡ buffer_check b market
unfolding buffer_check
check-congr a b market l t c m = rw (l, t, c, m) refl

pub check-put :
    (buf market : List ℕ) (cs : List FillCommit)
    → buffer_check (put_slots buf cs) market ≡ buffer_check buf market
unfolding put_slots
check-put buf market cs =
    check-congr (splice buf 64 (join cs)) buf market (length-splice buf 64 (join cs))
      (slice-splice_before buf 64 (join cs) 0 8 (omega arith))
      (slice-splice_before buf 64 (join cs) 24 4 (omega arith))
      (slice-splice_before buf 64 (join cs) 32 32 (omega arith))

pub check-wr :
    (buf market : List ℕ) (off v : ℕ)
    → 8 ≤ off
    → off + 8 ≤ 24
    → buffer_check (wr_u64 buf off v) market ≡ buffer_check buf market
check-wr buf market off v lo hi =
    check-congr (wr_u64 buf off v) buf market (length-splice buf off (to_le_bytes 8 v))
      (slice-splice_before buf off (to_le_bytes 8 v) 0 8 lo)
      (slice-splice_after buf off (to_le_bytes 8 v) 24 4 (omega arith))
      (slice-splice_after buf off (to_le_bytes 8 v) 32 32 (omega arith))

-- An account that passes its check has room for its slots.
pub check-room :
    (buf market : List ℕ) (capacity : ℕ)
    → buffer_check buf market ≡ ok capacity
    → (64 + capacity * 32 ≤ length buf) × (0 < capacity)
unfolding buffer_check
check-room buf market capacity h = ground arith

pub length-slot_view : (buf : List ℕ) (capacity : ℕ) → length (slot_view buf capacity) ≡ capacity
unfolding slot_view
length-slot_view buf capacity = length-chunks capacity (slice buf 64 (capacity * 32))

pub length-put : (buf : List ℕ) (cs : List FillCommit) → length (put_slots buf cs) ≡ length buf
unfolding put_slots
length-put buf cs = length-splice buf 64 (join cs)
