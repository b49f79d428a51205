-- ===== src/Ring/Preimage.antt =====
-- The serialisation of a fill that is hashed into its commitment, `fill_preimage` of
-- programs/clober/src/matcher/fill_commitment.rs.
use flash_book.Common.{
  ℕ, ◌<◌, ◌≡◌, refl, sym, ap, ◌∙◌, Bool, true, false, List, [], ◌∷◌, arith, ◌==◌, u64, length,
  get_or, replicate,
}
use flash_book.Common.Bytes.{slice, to_le_bytes}
use flash_book.Common.Fields.{
  write_fields, InOrder, AreRead, write_fields-read, rd_u64, rd_u64-field, get_or-slice,
}

-- The arguments of `fill_preimage`.
pub record Fill : Type 0 where
  pub market : List ℕ
  pub taker : List ℕ
  pub maker : List ℕ
  pub taker_side : ℕ
  pub size_lots : ℕ
  pub price_ticks : ℕ
  pub taker_sub_index : ℕ
  pub maker_sub_index : ℕ
  pub produced_index : ℕ
  pub taker_was_jit : Bool

pub record IsTyped (fill : Fill) : Type 0 where
  pub market_len : length fill.market ≡ 32
  pub taker_len : length fill.taker ≡ 32
  pub maker_len : length fill.maker ≡ 32
  pub size_lots_fits : fill.size_lots < u64
  pub price_ticks_fits : fill.price_ticks < u64
  pub produced_index_fits : fill.produced_index < u64

-- `b"FBfillC2"`
abbrev pub fill_commit_domain : List ℕ
fill_commit_domain = b'F' ∷ b'B' ∷ b'f' ∷ b'i' ∷ b'l' ∷ b'l' ∷ b'C' ∷ b'2' ∷ []

-- `b as u8`
abbrev pub byte_of : Bool → ℕ
byte_of true = 1
byte_of false = 0

-- The stores, in order.
abbrev pub preimage_fields : Fill → List (ℕ × List ℕ)
preimage_fields fill =
    (0, fill_commit_domain)
    ∷ (8, fill.market)
    ∷ (40, fill.taker)
    ∷ (72, fill.maker)
    ∷ (104, fill.taker_side ∷ [])
    ∷ (105, fill.taker_sub_index ∷ [])
    ∷ (106, fill.maker_sub_index ∷ [])
    ∷ (107, to_le_bytes 8 fill.size_lots)
    ∷ (115, to_le_bytes 8 fill.price_ticks)
    ∷ (123, to_le_bytes 8 fill.produced_index)
    ∷ (131, byte_of fill.taker_was_jit ∷ [])
    ∷ []

unfoldable pub fill_preimage : Fill → List ℕ
fill_preimage fill = write_fields (replicate 136 0) (preimage_fields fill)

-- The layout that the documentation gives, read back.
abbrev pub fill_of : List ℕ → Fill
fill_of p = record {
  market = slice p 8 32;
  taker = slice p 40 32;
  maker = slice p 72 32;
  taker_side = get_or p 104 0;
  size_lots = rd_u64 p 107;
  price_ticks = rd_u64 p 115;
  taker_sub_index = get_or p 105 0;
  maker_sub_index = get_or p 106 0;
  produced_index = rd_u64 p 123;
  taker_was_jit = get_or p 131 0 == 1;
}

preimage_fields-InOrder : (fill : Fill) → IsTyped fill → InOrder 0 136 (preimage_fields fill)
preimage_fields-InOrder fill t = ground arith

byte_of-eq_one : (b : Bool) → (byte_of b == 1) ≡ b
byte_of-eq_one true = refl
byte_of-eq_one false = refl

fill_of-read :
    (p : List ℕ) (fill : Fill)
    → IsTyped fill
    → AreRead p (preimage_fields fill)
    → (fill_of p ≡ fill) × (slice p 0 8 ≡ fill_commit_domain)
fill_of-read p fill t (r0, (r1, (r2, (r3, (r4, (r5, (r6, (r7, (r8, (r9, (r10, r11))))))))))) = (
  rw (
    r1 32 t.market_len,
    r2 32 t.taker_len,
    r3 32 t.maker_len,
    get_or-slice p 104 fill.taker_side (r4 1 refl),
    get_or-slice p 105 fill.taker_sub_index (r5 1 refl),
    get_or-slice p 106 fill.maker_sub_index (r6 1 refl),
    rd_u64-field p 107 fill.size_lots r7 t.size_lots_fits,
    rd_u64-field p 115 fill.price_ticks r8 t.price_ticks_fits,
    rd_u64-field p 123 fill.produced_index r9 t.produced_index_fits,
    get_or-slice p 131 (byte_of fill.taker_was_jit) (r10 1 refl),
    byte_of-eq_one fill.taker_was_jit,
  ),
  r0 8 refl,
)

-- The serialisation of a fill whose fields are in the ranges of their types reads back as the
-- fill at the documented offsets, and starts with the domain tag.
pub fill_of-preimage :
    (fill : Fill)
    → IsTyped fill
    → (fill_of (fill_preimage fill) ≡ fill) × (slice (fill_preimage fill) 0 8 ≡ fill_commit_domain)
unfolding fill_preimage
fill_of-preimage fill t = fill_of-read (fill_preimage fill) fill t (
    write_fields-read (replicate 136 0) 0 136 (preimage_fields fill)
      (preimage_fields-InOrder fill t) (omega arith))

-- Two fills with the same serialisation are the same fill.
pub preimage-inj : (f g : Fill) → IsTyped f → IsTyped g → fill_preimage f ≡ fill_preimage g → f ≡ g
preimage-inj f g s t e = sym (fill_of-preimage f s).0 ∙ ap fill_of e ∙ (fill_of-preimage g t).0
