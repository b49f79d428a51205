-- ===== src/Common/Fields.antt =====
-- Writing a record of fields into a byte array, one copy after another, and reading fields back.
use flash_book.Common.{
  ℕ, zero, suc, ◌+◌, ◌≤◌, ◌<◌, ◌≡◌, refl, ap, ◌∙◌, List, [], ◌∷◌, arith, length, get_or, u32, u64,
}
use flash_book.Common.Bytes.{
  slice, splice, length-splice, slice-splice, slice-splice_before, slice-splice_after, to_le_bytes,
  from_le_bytes, length-to_le_bytes, from_le-to_le,
}

-- `data[off .. off + bytes.len()].copy_from_slice(bytes)`, for each field in turn.
abbrev pub write_fields : List ℕ → List (ℕ × List ℕ) → List ℕ
write_fields buf [] = buf
write_fields buf ((off, bytes) ∷ fs) = write_fields (splice buf off bytes) fs

-- The fields stand one behind the other, from an offset on and before an end.
abbrev pub InOrder : ℕ → ℕ → List (ℕ × List ℕ) → Type 0
InOrder from end [] = from ≤ end
InOrder from end ((off, bytes) ∷ fs) = (from ≤ off) × InOrder (off + length bytes) end fs

-- Each field reads back, at its offset and in its length.
abbrev pub AreRead : List ℕ → List (ℕ × List ℕ) → Type 0
AreRead buf [] = Unit
AreRead buf ((off, bytes) ∷ fs) =
    ((n : ℕ) → length bytes ≡ n → slice buf off n ≡ bytes) × AreRead buf fs

InOrder-le : (from end : ℕ) (fs : List (ℕ × List ℕ)) → InOrder from end fs → from ≤ end
InOrder-le from end [] h = h
InOrder-le from end ((off, bytes) ∷ fs) h =
    omega (arith, h.0, InOrder-le (off + length bytes) end fs h.1)

pub length-write_fields :
    (buf : List ℕ) (fs : List (ℕ × List ℕ)) → length (write_fields buf fs) ≡ length buf
length-write_fields buf [] = refl
length-write_fields buf ((off, bytes) ∷ fs) =
    length-write_fields (splice buf off bytes) fs ∙ length-splice buf off bytes

-- What stands before the first field, or behind the last, is as it was.
pub slice-write_fields_before :
    (buf : List ℕ) (from end : ℕ) (fs : List (ℕ × List ℕ)) (j n : ℕ)
    → InOrder from end fs
    → j + n ≤ from
    → slice (write_fields buf fs) j n ≡ slice buf j n
slice-write_fields_before buf from end [] j n o h = refl
slice-write_fields_before buf from end ((off, bytes) ∷ fs) j n o h =
    slice-write_fields_before (splice buf off bytes) (off + length bytes) end fs j n o.1
      (omega (arith, o.0))
    ∙ slice-splice_before buf off bytes j n (omega (arith, o.0))

pub slice-write_fields_after :
    (buf : List ℕ) (from end : ℕ) (fs : List (ℕ × List ℕ)) (j n : ℕ)
    → InOrder from end fs
    → end ≤ j
    → slice (write_fields buf fs) j n ≡ slice buf j n
slice-write_fields_after buf from end [] j n o h = refl
slice-write_fields_after buf from end ((off, bytes) ∷ fs) j n o h =
    slice-write_fields_after (splice buf off bytes) (off + length bytes) end fs j n o.1 h
    ∙ slice-splice_after buf off bytes j n
        (omega (arith, InOrder-le (off + length bytes) end fs o.1))

-- Fields that are written in order into an array that holds them read back.
pub write_fields-read :
    (buf : List ℕ) (from end : ℕ) (fs : List (ℕ × List ℕ))
    → InOrder from end fs
    → end ≤ length buf
    → AreRead (write_fields buf fs) fs
write_fields-read buf from end [] o h = tt
write_fields-read buf from end ((off, bytes) ∷ fs) o h = (
  λ n e.
      slice-write_fields_before (splice buf off bytes) (off + length bytes) end fs off n o.1
        (omega (arith, e))
      ∙ rw (← e) (
          slice-splice buf off bytes
            (omega (arith, InOrder-le (off + length bytes) end fs o.1, h))),
  write_fields-read (splice buf off bytes) (off + length bytes) end fs o.1
      (omega (arith, h, length-splice buf off bytes)),
)

-- `data[i]`, where a slice of one byte is known.
pub get_or-slice : (buf : List ℕ) (i b : ℕ) → slice buf i 1 ≡ b ∷ [] → get_or buf i 0 ≡ b
get_or-slice [] zero b h = cc
get_or-slice [] (suc i) b h = cc
get_or-slice (x ∷ xs) zero b h = cc
get_or-slice (x ∷ xs) (suc i) b h = get_or-slice xs i b h

-- A `u64` at an offset, in little-endian bytes.
abbrev pub rd_u64 : List ℕ → ℕ → ℕ
rd_u64 buf off = from_le_bytes (slice buf off 8)

abbrev pub rd_u32 : List ℕ → ℕ → ℕ
rd_u32 buf off = from_le_bytes (slice buf off 4)

abbrev pub wr_u64 : List ℕ → ℕ → ℕ → List ℕ
wr_u64 buf off v = splice buf off (to_le_bytes 8 v)

pub rd_u64-field :
    (buf : List ℕ) (off v : ℕ)
    → ((n : ℕ) → length (to_le_bytes 8 v) ≡ n → slice buf off n ≡ to_le_bytes 8 v)
    → v < u64
    → rd_u64 buf off ≡ v
rd_u64-field buf off v h k = ap from_le_bytes (h 8 (length-to_le_bytes 8 v)) ∙ from_le-to_le 8 v k

pub rd_u32-field :
    (buf : List ℕ) (off v : ℕ)
    → ((n : ℕ) → length (to_le_bytes 4 v) ≡ n → slice buf off n ≡ to_le_bytes 4 v)
    → v < u32
    → rd_u32 buf off ≡ v
rd_u32-field buf off v h k = ap from_le_bytes (h 4 (length-to_le_bytes 4 v)) ∙ from_le-to_le 4 v k

pub rd_u64-wr_self :
    (buf : List ℕ) (off v : ℕ) → off + 8 ≤ length buf → v < u64 → rd_u64 (wr_u64 buf off v) off ≡ v
rd_u64-wr_self buf off v h k =
    rd_u64-field (wr_u64 buf off v) off v
      (write_fields-read buf off (off + 8) ((off, to_le_bytes 8 v) ∷ []) (omega arith, omega arith)
        h).0
      k

pub rd_u64-wr_before :
    (buf : List ℕ) (off v j : ℕ) → j + 8 ≤ off → rd_u64 (wr_u64 buf off v) j ≡ rd_u64 buf j
rd_u64-wr_before buf off v j h =
    ap from_le_bytes (slice-splice_before buf off (to_le_bytes 8 v) j 8 h)

pub rd_u64-wr_after :
    (buf : List ℕ) (off v j : ℕ) → off + 8 ≤ j → rd_u64 (wr_u64 buf off v) j ≡ rd_u64 buf j
rd_u64-wr_after buf off v j h =
    ap from_le_bytes (slice-splice_after buf off (to_le_bytes 8 v) j 8 h)
