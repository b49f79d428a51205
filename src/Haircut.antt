-- ===== src/Haircut.antt =====
-- The junior-claim profit haircut: programs/clober/src/matcher/haircut.rs, in full. Realised gains
-- enter a position's reserve (`apply_release`), warm up into its matured profit (`apply_mature`),
-- and are paid out at the ratio `compute_h` (`apply_convert`).
pub mod Ratio
pub mod Payout
pub mod Pipeline
mod Tests
use flash_book.Common.{
  ℕ, ◌+◌, ◌-◌, ◌*◌, ◌/◌, ◌%◌, min, Bool, true, false, ◌&&◌, ◌||◌, Option, none, some, ltb, leb,
  ◌==◌, if◌then◌else◌, Result, ok, err, ok_or, ◌>>=◌, u64, u128, checked_add, checked_mul,
  checked_sub, saturating_add, saturating_mul, saturating_sub,
}
use flash_book.Common.Int.{ℤ, pos, negsuc}

abbrev pub h_denom : ℕ
h_denom = 1_000_000_000

abbrev pub abs_max_h_max_slots : ℕ
abs_max_h_max_slots = 1_000_000

pub data HaircutError : Type 0 where
  overflow underflow inverted_window window_too_large zero_gain : HaircutError

-- The fallback for a product past 2 ^ 128 is the source's.
unfoldable pub compute_h : ℕ → ℕ → ℕ
compute_h residual matured_pos =
    if matured_pos == 0
    then h_denom
    else (let num = min residual matured_pos * h_denom in
        if ltb num u128 then num / matured_pos else h_denom)

-- The credit and the dust. Callers hand in a ratio of at most `h_denom`, for which the subtraction
-- cannot go below 0.
unfoldable pub convert_with_haircut : ℕ → ℕ → ℕ × ℕ
convert_with_haircut matured h_scaled =
    let credit = saturating_mul u128 matured h_scaled / h_denom in (credit, matured - credit)

pub record PositionHaircutSnapshot : Type 0 where
  pub released_reserve_quote_lots : ℕ
  pub released_attached_at_slot : ℕ
  pub matured_pos_quote_lots : ℕ
  pub original_reserve_at_attach : ℕ

pub record MarketHaircutSnapshot : Type 0 where
  pub residual_quote_lots : ℕ
  pub matured_pos_total_quote_lots : ℕ
  pub realized_loss_total_quote_lots : ℕ
  pub dust_accrued_quote_lots : ℕ
  pub h_min_slots : ℕ
  pub h_max_slots : ℕ

-- The reserve-weighted attach slot and the grown warmup pool, for a gain that lands on a reserve
-- of which nothing has matured.
blend : PositionHaircutSnapshot → ℕ → ℕ → Result HaircutError (ℕ × ℕ)
blend pre gain now_slot = do
  older ←
      ok_or (checked_mul u128 pre.released_reserve_quote_lots pre.released_attached_at_slot)
        overflow
  newer ← ok_or (checked_mul u128 gain now_slot) overflow
  numer ← ok_or (checked_add u128 older newer) overflow
  denom ← ok_or (checked_add u128 pre.released_reserve_quote_lots gain) overflow
  orig ← ok_or (checked_add u64 pre.original_reserve_at_attach gain) overflow
  ok ((numer / denom) % u64, orig)

pub apply_release :
    PositionHaircutSnapshot → ℕ → ℕ → ℕ → Result HaircutError PositionHaircutSnapshot
unfolding blend
apply_release pre gain now_slot h_min = if gain == 0 then err zero_gain else do
  new_reserve ← ok_or (checked_add u64 pre.released_reserve_quote_lots gain) overflow
  let reserve_empty = pre.released_reserve_quote_lots == 0
  let old_elapsed = saturating_sub now_slot pre.released_attached_at_slot
  (attached, original) ←
      if reserve_empty || leb h_min old_elapsed
      then ok (now_slot, new_reserve)
      else blend pre gain now_slot
  ok (record pre {
    released_reserve_quote_lots = new_reserve;
    released_attached_at_slot = attached;
    original_reserve_at_attach = original;
  })

-- The part of `reserve` that has matured at `now_slot`: nothing before `h_min`, all from `h_max`
-- on, and a linear share between.
pub matured_fraction : ℕ → ℕ → ℕ → ℕ → ℕ → ℕ
matured_fraction reserve attached now_slot h_min h_max =
    if reserve == 0 || ltb now_slot attached
    then 0
    else (let elapsed = now_slot - attached in
        if ltb elapsed h_min
        then 0
        else if leb h_max elapsed
        then reserve
        else if h_max - h_min == 0
        then reserve
        else min ((saturating_mul u128 reserve (elapsed - h_min) / (h_max - h_min)) % u64) reserve)

-- What matures at `now_slot`, beyond what matured before.
mature_delta : PositionHaircutSnapshot → ℕ → ℕ → ℕ → ℕ
mature_delta pre now_slot h_min h_max =
    saturating_sub
      (matured_fraction pre.original_reserve_at_attach pre.released_attached_at_slot now_slot h_min
        h_max)
      (saturating_sub pre.original_reserve_at_attach pre.released_reserve_quote_lots)

pub apply_mature :
    PositionHaircutSnapshot → ℕ → ℕ → ℕ → Result HaircutError (PositionHaircutSnapshot × ℕ)
apply_mature pre now_slot h_min h_max =
    let delta = mature_delta pre now_slot h_min h_max in
    if delta == 0 then ok (pre, 0) else do
      new_reserve ← ok_or (checked_sub pre.released_reserve_quote_lots delta) underflow
      new_matured ← ok_or (checked_add u64 pre.matured_pos_quote_lots delta) overflow
      ok (
        record {
          released_reserve_quote_lots = new_reserve;
          released_attached_at_slot = if new_reserve == 0 then 0 else pre.released_attached_at_slot;
          matured_pos_quote_lots = new_matured;
          original_reserve_at_attach =
              if new_reserve == 0 then 0 else pre.original_reserve_at_attach;
        },
        delta,
      )

-- The position afterwards, the credit and the dust.
unfoldable pub apply_convert : PositionHaircutSnapshot → ℕ → PositionHaircutSnapshot × ℕ × ℕ
apply_convert pre h_scaled =
    if pre.matured_pos_quote_lots == 0
    then (pre, 0, 0)
    else (let (credit, dust) = convert_with_haircut pre.matured_pos_quote_lots h_scaled in
        (record pre { matured_pos_quote_lots = 0 }, min credit (u64 - 1), min dust (u64 - 1)))

pub release_mature_convert_if_ripe :
    PositionHaircutSnapshot
    → ℕ
    → ℕ
    → MarketHaircutSnapshot
    → Result HaircutError (PositionHaircutSnapshot × ℕ × ℕ × ℕ)
release_mature_convert_if_ripe pre gain now_slot market = do
  after_release ← apply_release pre gain now_slot market.h_min_slots
  (after_mature, matured_delta) ←
      apply_mature after_release now_slot market.h_min_slots market.h_max_slots
  let prospective_total = saturating_add u128 market.matured_pos_total_quote_lots matured_delta
  let h_scaled = compute_h market.residual_quote_lots prospective_total
  let (after_convert, credit, dust) = apply_convert after_mature h_scaled
  if after_mature.matured_pos_quote_lots == 0
      then ok (after_mature, 0, 0, matured_delta)
      else ok (after_convert, credit, dust, matured_delta)

pub validate_market_params : ℕ → ℕ → Result HaircutError (Unit {0})
validate_market_params h_min h_max =
    if ltb h_max h_min
    then err inverted_window
    else if ltb abs_max_h_max_slots h_max
    then err window_too_large
    else ok tt

-- The delta is an `i128`.
pub apply_residual_delta : ℕ → ℤ → Result HaircutError ℕ
apply_residual_delta residual (pos d) = ok_or (checked_add u128 residual d) overflow
apply_residual_delta residual (negsuc d) = ok_or (checked_sub residual (d + 1)) underflow

pub record InvariantReport : Type 0 where
  pub residual_non_negative : Bool
  pub window_well_formed : Bool
  pub cached_h_in_range : Bool
  pub cached_h_consistent : Bool
  pub dust_within_pipeline_flow : Bool

pub all_ok : InvariantReport → Bool
all_ok r =
    r.residual_non_negative && r.window_well_formed && r.cached_h_in_range && r.cached_h_consistent
    && r.dust_within_pipeline_flow

-- `residual`, `matured_pos_total`, `realized_loss_total` and `dust_accrued` are those of the
-- market, and so is the window.
unfoldable pub verify_invariants : MarketHaircutSnapshot → ℕ → ℕ → InvariantReport
verify_invariants m h_scaled_cached h_cached_at_slot = record {
  residual_non_negative = true;
  window_well_formed = leb m.h_min_slots m.h_max_slots && leb m.h_max_slots abs_max_h_max_slots;
  cached_h_in_range = leb h_scaled_cached h_denom;
  cached_h_consistent =
      if h_cached_at_slot == 0
      then true
      else min (compute_h m.residual_quote_lots m.matured_pos_total_quote_lots) (u64 - 1)
        == h_scaled_cached;
  dust_within_pipeline_flow =
      leb m.dust_accrued_quote_lots
        (saturating_add u128 m.realized_loss_total_quote_lots m.matured_pos_total_quote_lots);
}
