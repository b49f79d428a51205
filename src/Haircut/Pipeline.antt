-- ===== src/Haircut/Pipeline.antt =====
-- The reserve and its warmup: what `apply_release` and `apply_mature` keep, and when profit can
-- mature.
use flash_book.Common.{ℕ, ◌+◌, ◌-◌, ◌*◌, ◌/◌, ◌≤◌, ◌<◌, ◌≡◌, arith, u64, u128, ok, Ensures, Returns}
use flash_book.Common.Arith.{le_div, div_le, div_mono}
use flash_book.Haircut.{
  PositionHaircutSnapshot, apply_release, matured_fraction, mature_delta, apply_mature,
}

-- The reserve is what is left of the warmup pool, and the fields are `u64`s.
pub record IsWarming (p : PositionHaircutSnapshot) : Type 0 where
  pub reserve_le : p.released_reserve_quote_lots ≤ p.original_reserve_at_attach
  pub original_fits : p.original_reserve_at_attach < u64
  pub attached_fits : p.released_attached_at_slot < u64

-- The warmup is between nothing and everything: nothing before `h_min`, everything from `h_max`.
pub matured_fraction_bounds :
    (reserve attached now h_min h_max : ℕ)
    → (matured_fraction reserve attached now h_min h_max ≤ reserve)
      × (now < attached + h_min → matured_fraction reserve attached now h_min h_max ≡ 0)
      × (attached + h_max ≤ now
          → h_min ≤ h_max
          → matured_fraction reserve attached now h_min h_max ≡ reserve)
unfolding matured_fraction
matured_fraction_bounds reserve attached now h_min h_max =
    (ground arith, λ h. ground arith, λ h k. ground arith)

-- Inside the window the matured part is the floor of the linear share.
linear_share-lt : (r e w : ℕ) → r < u64 → e < w → w < u64 → r * e < u128
linear_share-lt r e w hr he hw = grind arith

pub matured_fraction_linear :
    (reserve attached now h_min h_max : ℕ)
    → reserve < u64
    → h_max < u64
    → attached + h_min ≤ now
    → now < attached + h_max
    → matured_fraction reserve attached now h_min h_max
      ≡ reserve * (now - attached - h_min) / (h_max - h_min)
unfolding matured_fraction
matured_fraction_linear reserve attached now h_min h_max hr hm lo hi = ground (
  arith,
  linear_share-lt reserve (now - attached - h_min) (h_max - h_min),
  div_le reserve (reserve * (now - attached - h_min)) (h_max - h_min) (omega arith) (grind arith),
)

-- Time never takes matured profit back: for a u64 reserve and a well-formed window of u64 slots,
-- the matured part at a later slot is at least that at an earlier one.
pub matured_fraction_mono :
    (reserve attached now later h_min h_max : ℕ)
    → reserve < u64
    → h_max < u64
    → h_min ≤ h_max
    → now ≤ later
    → matured_fraction reserve attached now h_min h_max
      ≤ matured_fraction reserve attached later h_min h_max
matured_fraction_mono reserve attached now later h_min h_max hr hm hw h = ground (
  arith,
  matured_fraction_bounds reserve attached now h_min h_max,
  matured_fraction_bounds reserve attached later h_min h_max,
  matured_fraction_linear reserve attached now h_min h_max hr hm,
  matured_fraction_linear reserve attached later h_min h_max hr hm,
  div_mono (reserve * (now - attached - h_min)) (reserve * (later - attached - h_min))
      (h_max - h_min),
  shares,
)
  where
    shares : reserve * (now - attached - h_min) ≤ reserve * (later - attached - h_min)
    shares = grind arith

-- Maturing a warming position whose reserve and matured profit fit in a u64 together always
-- succeeds: it moves an amount from the reserve to the matured profit and loses none of it, and
-- the position is still warming.
pub apply_mature_lem :
    (p : PositionHaircutSnapshot) (now h_min h_max : ℕ)
    → IsWarming p
    → p.released_reserve_quote_lots + p.matured_pos_quote_lots < u64
    → Returns (apply_mature p now h_min h_max) λ out.
      IsWarming out.0
      × (out.0.released_reserve_quote_lots + out.1 ≡ p.released_reserve_quote_lots)
      × (out.0.matured_pos_quote_lots ≡ p.matured_pos_quote_lots + out.1)
unfolding apply_mature mature_delta
apply_mature_lem p now h_min h_max w fits = ground (
  arith,
  matured_fraction_bounds p.original_reserve_at_attach p.released_attached_at_slot now h_min h_max,
)

-- Maturing a warming position a second time in the same slot moves nothing and changes nothing.
pub apply_mature_idempotent :
    (p q : PositionHaircutSnapshot) (now h_min h_max d : ℕ)
    → IsWarming p
    → apply_mature p now h_min h_max ≡ ok (q, d)
    → apply_mature q now h_min h_max ≡ ok (q, 0)
unfolding apply_mature mature_delta
apply_mature_idempotent p q now h_min h_max d w e = ground (
  arith,
  matured_fraction_bounds p.original_reserve_at_attach p.released_attached_at_slot now h_min h_max,
  matured_fraction_bounds 0 0 now h_min h_max,
)

blend_between :
    (r a g n : ℕ)
    → 0 < g
    → a ≤ n
    → (a ≤ (r * a + g * n) / (r + g)) × ((r * a + g * n) / (r + g) ≤ n)
blend_between r a g n hg h = (
  le_div a (r * a + g * n) (r + g) (omega arith) (grind arith),
  div_le n (r * a + g * n) (r + g) (omega arith) (grind arith),
)

-- Whatever the state, a release adds its gain to the reserve and leaves the matured profit alone.
pub apply_release_moves :
    (p : PositionHaircutSnapshot) (gain now h_min : ℕ)
    → Ensures (apply_release p gain now h_min) λ q.
      (q.released_reserve_quote_lots ≡ p.released_reserve_quote_lots + gain)
      × (q.matured_pos_quote_lots ≡ p.matured_pos_quote_lots)
unfolding apply_release
apply_release_moves p gain now h_min = ground arith

blend_fits :
    (r a g n : ℕ)
    → a ≤ n
    → n < u64
    → r + g < u64
    → (r * a < u128) × (g * n < u128) × (r * a + g * n < u128)
blend_fits r a g n h hn hs = (omega (arith, sum), omega (arith, sum), omega (arith, sum))
  where
    sum : r * a + g * n < u128
    sum = grind arith

-- A release of a positive gain on a warming position succeeds, if the warmup pool with the gain
-- fits in a u64 and the position was attached no later than the slot, which is a u64: it adds
-- the gain to the reserve, leaves the matured profit alone, and keeps the position warming, with
-- an attach slot that is neither before the old one nor after the slot.
pub apply_release_lem :
    (p : PositionHaircutSnapshot) (gain now h_min : ℕ)
    → IsWarming p
    → p.released_attached_at_slot ≤ now
    → now < u64
    → 0 < gain
    → p.original_reserve_at_attach + gain < u64
    → Returns (apply_release p gain now h_min) λ q.
      IsWarming q
      × (q.released_reserve_quote_lots ≡ p.released_reserve_quote_lots + gain)
      × (q.matured_pos_quote_lots ≡ p.matured_pos_quote_lots)
      × (p.released_attached_at_slot ≤ q.released_attached_at_slot)
      × (q.released_attached_at_slot ≤ now)
unfolding apply_release
apply_release_lem p gain now h_min w past fits positive room = ground (
  arith,
  blend_between p.released_reserve_quote_lots p.released_attached_at_slot gain now,
  blend_fits p.released_reserve_quote_lots p.released_attached_at_slot gain now,
)

-- A fresh gain inherits no matured status: on a warming position that was not attached in the
-- future, in the slot of a successful release nothing matures, whatever the age of the reserve,
-- if the market's warmup floor is positive and the slot is a u64.
pub mature-release :
    (p q : PositionHaircutSnapshot) (gain now h_min h_max : ℕ)
    → IsWarming p
    → p.released_attached_at_slot ≤ now
    → now < u64
    → 0 < h_min
    → apply_release p gain now h_min ≡ ok q
    → apply_mature q now h_min h_max ≡ ok (q, 0)
unfolding apply_release apply_mature mature_delta
mature-release p q gain now h_min h_max w past fits floor e = ground (
  arith,
  blend_between p.released_reserve_quote_lots p.released_attached_at_slot gain now,
  matured_fraction_bounds q.original_reserve_at_attach q.released_attached_at_slot now h_min h_max,
)

-- Whatever the state, a maturing that succeeds moves its amount from the reserve to the matured
-- profit, which stays a `u64`.
pub apply_mature_moves :
    (p : PositionHaircutSnapshot) (now h_min h_max : ℕ)
    → p.matured_pos_quote_lots < u64
    → Ensures (apply_mature p now h_min h_max) λ out.
      (out.0.released_reserve_quote_lots + out.1 ≡ p.released_reserve_quote_lots)
      × (out.0.matured_pos_quote_lots ≡ p.matured_pos_quote_lots + out.1)
      × (out.0.matured_pos_quote_lots < u64)
unfolding apply_mature
apply_mature_moves p now h_min h_max h = ground arith
