-- ===== src/Ring/Inflight.antt =====
-- The reductions in flight for each position, kept behind the ring's slots, and the flags of the
-- slots: programs/clober/src/matcher/fill_commitment.rs.
pub mod Slots
pub mod Adding
pub mod Subtracting
pub mod Laws
mod Tests
use flash_book.Common.{
  ℕ, zero, suc, ◌+◌, ◌-◌, ◌*◌, ◌%◌, Bool, true, false, not, ◌&&◌, List, [], ◌∷◌, Option, none, some,
  ltb, leb, ◌==◌, if◌then◌else◌, Result, ok, err, length, set, get_or, replicate, u64,
  saturating_add,
}
use flash_book.Common.Bytes.{bytes_eq, slice, splice}
use flash_book.Common.Fields.{rd_u64, wr_u64}
use flash_book.Ring.{FillRingError, full}
use flash_book.Ring.Buffer.{fill_inflight_slots}

abbrev pub flags_off : ℕ → ℕ
flags_off capacity = 64 + capacity * 32

abbrev pub map_off : ℕ → ℕ
map_off capacity = 64 + capacity * 32 + capacity

-- A store past the end is the code's guard: it changes nothing.
unfoldable pub reduce_flag_set : List ℕ → ℕ → ℕ → List ℕ
reduce_flag_set buf capacity produced_index =
    set buf (flags_off capacity + produced_index % capacity) 1

-- The flag that was read, and the bytes with it cleared.
unfoldable pub reduce_flag_take : List ℕ → ℕ → ℕ → Bool × List ℕ
reduce_flag_take buf capacity settled_index =
    let off = flags_off capacity + settled_index % capacity in
    if ltb off (length buf) && not (get_or buf off 0 == 0)
    then (true, set buf off 0)
    else (false, buf)

-- The offset of the map's slot `s`.
abbrev pub slot_at : ℕ → ℕ → ℕ
slot_at base s = base + s * 40

-- The loop over the `n` slots from `s` on.
unfoldable pub get_from : List ℕ → ℕ → List ℕ → ℕ → ℕ → ℕ
get_from buf base position zero s = 0
get_from buf base position (suc n) s =
    let off = slot_at base s in
    let rest = get_from buf base position n (s + 1) in
    if leb (off + 40) (length buf) && bytes_eq (slice buf off 32) position
    then rd_u64 buf (off + 32)
    else rest

unfoldable pub inflight_get : List ℕ → ℕ → List ℕ → ℕ
inflight_get buf capacity position = get_from buf (map_off capacity) position fill_inflight_slots 0

-- `.iter().all(|&b| b == 0)`
abbrev pub all_zero : List ℕ → Bool
all_zero [] = true
all_zero (b ∷ bs) = b == 0 && all_zero bs

-- What follows the loop.
unfoldable pub place_new : List ℕ → List ℕ → ℕ → Option ℕ → Result FillRingError (List ℕ)
place_new buf position delta none = err full
place_new buf position delta (some off) = ok (wr_u64 (splice buf off position) (off + 32) delta)

abbrev pub first_free : Option ℕ → Bool → ℕ → Option ℕ
first_free none true off = some off
first_free none false off = none
first_free (some old) b off = some old

unfoldable pub add_from : List ℕ → ℕ → List ℕ → ℕ → Option ℕ → ℕ → ℕ → Result FillRingError (List ℕ)
add_from buf base position delta free zero s = place_new buf position delta free
add_from buf base position delta free (suc n) s =
    let off = slot_at base s in
    let key = slice buf off 32 in
    let rest = add_from buf base position delta (first_free free (all_zero key) off) n (s + 1) in
    if ltb (length buf) (off + 40)
    then place_new buf position delta free
    else if bytes_eq key position
    then ok (wr_u64 buf (off + 32) (saturating_add u64 (rd_u64 buf (off + 32)) delta))
    else rest

unfoldable pub inflight_add : List ℕ → ℕ → List ℕ → ℕ → Result FillRingError (List ℕ)
inflight_add buf capacity position delta =
    if delta == 0
    then ok buf
    else add_from buf (map_off capacity) position delta none fill_inflight_slots 0

-- A slot whose lots fall to zero is freed.
unfoldable pub lower : List ℕ → ℕ → ℕ → List ℕ
lower buf off v = if v == 0 then splice buf off (replicate 40 0) else wr_u64 buf (off + 32) v

unfoldable pub sub_from : List ℕ → ℕ → List ℕ → ℕ → ℕ → ℕ → List ℕ
sub_from buf base position delta zero s = buf
sub_from buf base position delta (suc n) s =
    let off = slot_at base s in
    let rest = sub_from buf base position delta n (s + 1) in
    if ltb (length buf) (off + 40)
    then buf
    else if bytes_eq (slice buf off 32) position
    then lower buf off (rd_u64 buf (off + 32) - delta)
    else rest

unfoldable pub inflight_sub : List ℕ → ℕ → List ℕ → ℕ → List ℕ
inflight_sub buf capacity position delta =
    sub_from buf (map_off capacity) position delta fill_inflight_slots 0
