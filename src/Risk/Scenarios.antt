-- ===== src/Risk/Scenarios.antt =====
-- The loops of `assess_margin`, programs/clober/src/matcher/risk.rs: the losses of each market in a
-- scenario, and the worst of them over the scenarios.
use flash_book.Common.{
  ℕ, ◌+◌, ◌-◌, ◌*◌, ◌%◌, min, Bool, List, [], ◌∷◌, none, some, ◌==◌, if◌then◌else◌, ◌||◌, Result,
  ok, ok_or, ◌>>=◌, u32, u64, saturating_add,
}
use flash_book.Common.Int.{
  ℤ, pos, neg, ◌+ℤ◌, ◌-ℤ◌, ◌*ℤ◌, checked, div_trunc, i128, is_pos, pos_part, ltb_ℤ, leb_ℤ,
}
use flash_book.Errors.{CloberError, arithmetic_overflow, arithmetic_underflow}
use flash_book.Orders.{is_long}
use flash_book.Position.Account.{funding_owed}
use flash_book.Risk.{
  PositionSnapshot, MarketSnapshot, Scenario, bps_denom, haircut_positive_pnl, effective_mmr_bps,
  unrealized_pnl_quote_lots, shocked_price, scale_shock, lookup_market, shock_for_market,
  offset_relief_le_cap,
}

-- The unrealised profit at the marks and the funding owed, over the positions.
unfoldable pub equity_totals :
    List MarketSnapshot → List PositionSnapshot → ℤ → ℤ → Result CloberError (ℤ × ℤ)
equity_totals markets [] unrealized funding = ok (unrealized, funding)
equity_totals markets (p ∷ ps) unrealized funding = elim (lookup_market markets p.market) [
  | none ↦ equity_totals markets ps unrealized funding
  | some m ↦ unrealized_pnl_quote_lots p m.mark_price m.tick_size >>= λ pnl.
      ok_or (checked i128 (unrealized +ℤ haircut_positive_pnl pnl m.paper_profit_haircut_bps))
        arithmetic_overflow
      >>= λ unrealized'.
          funding_owed (is_long p.side) p.size_lots m.cum_funding_index p.cum_funding_index_at_entry
          >>= λ owed. ok_or (checked i128 (funding +ℤ owed)) arithmetic_overflow >>= λ funding'.
              equity_totals markets ps unrealized' funding'
]

-- What a position loses in a scenario, with its maintenance margin at the stressed price.
unfoldable pub contribution : Scenario → PositionSnapshot → MarketSnapshot → Result CloberError ℤ
contribution scenario p m = do
  stressed ←
      shocked_price m.mark_price
        (scale_shock (shock_for_market scenario p.market) m.stress_shock_bps)
  pnl ← unrealized_pnl_quote_lots p stressed m.tick_size
  lots ← ok_or (checked i128 (pos (p.size_lots * stressed))) arithmetic_overflow
  stressed_notional ← ok_or (checked i128 (lots *ℤ pos m.tick_size)) arithmetic_overflow
  margin ←
      ok_or (checked i128 (stressed_notional *ℤ pos (effective_mmr_bps m p.size_lots)))
        arithmetic_overflow
  ok_or
      (checked i128
        (div_trunc margin bps_denom -ℤ haircut_positive_pnl pnl m.paper_profit_haircut_bps))
      arithmetic_underflow

-- `per_market.iter_mut().find(..)`, and a push where there is none.
unfoldable pub add_loss : ℕ → ℤ → List (ℕ × ℤ) → Result CloberError (List (ℕ × ℤ))
add_loss k loss [] = ok ((k, loss) ∷ [])
add_loss k loss ((j, acc) ∷ rest) =
    let tail = add_loss k loss rest in
    if j == k
    then (ok_or (checked i128 (acc +ℤ loss)) arithmetic_overflow >>= λ s. ok ((j, s) ∷ rest))
    else (tail >>= λ t. ok ((j, acc) ∷ t))

-- The losses of a scenario, market by market.
unfoldable pub scenario_losses :
    List MarketSnapshot
    → Scenario
    → List PositionSnapshot
    → List (ℕ × ℤ)
    → Result CloberError (List (ℕ × ℤ))
scenario_losses markets scenario [] per_market = ok per_market
scenario_losses markets scenario (p ∷ ps) per_market = elim (lookup_market markets p.market) [
  | none ↦ scenario_losses markets scenario ps per_market
  | some m ↦ contribution scenario p m >>= λ loss.
      add_loss p.market loss per_market >>= λ per_market'.
      scenario_losses markets scenario ps per_market'
]

-- The worst loss of each market so far, the largest of them, and the scenario that it came from.
pub record Worst : Type 0 where
  pub market_worst : List (ℕ × ℤ)
  pub worst_single : ℤ
  pub worst_idx : ℕ

unfoldable pub raise_worst : ℕ → ℤ → List (ℕ × ℤ) → List (ℕ × ℤ)
raise_worst k loss [] = (k, loss) ∷ []
raise_worst k loss ((j, w) ∷ rest) =
    let tail = raise_worst k loss rest in
    if j == k then (j, (if ltb_ℤ w loss then loss else w)) ∷ rest else (j, w) ∷ tail

unfoldable pub fold_worst : ℕ → List (ℕ × ℤ) → Worst → Worst
fold_worst idx [] w = w
fold_worst idx ((k, loss) ∷ rest) w =
    let larger = ltb_ℤ w.worst_single loss in
    fold_worst idx rest (record {
      market_worst = raise_worst k loss w.market_worst;
      worst_single = if larger then loss else w.worst_single;
      worst_idx = if larger then idx % u32 else w.worst_idx;
    })

unfoldable pub worst_over :
    List MarketSnapshot
    → List PositionSnapshot
    → ℕ
    → List Scenario
    → Worst
    → Result CloberError Worst
worst_over markets positions idx [] w = ok w
worst_over markets positions idx (s ∷ ss) w = do
  per_market ← scenario_losses markets s positions []
  worst_over markets positions (idx + 1) ss (fold_worst idx per_market w)

-- `*w as u64`, capped, where it is a loss.
abbrev pub loss_of : ℤ → ℕ
loss_of w = min (pos_part w) (u64 - 1)

-- The lots of the positions in a market, short ones counted negative.
unfoldable pub net_lots : ℕ → List PositionSnapshot → ℤ
net_lots k [] = pos 0
net_lots k (p ∷ ps) =
    let rest = net_lots k ps in
    if p.market == k
    then (if is_long p.side then pos p.size_lots else neg (pos p.size_lots)) +ℤ rest
    else rest

-- A correlation group: its net-long losses, its net-short losses, and its least correlation.
pub record Group : Type 0 where
  pub gid : ℕ
  pub down : ℕ
  pub up : ℕ
  pub rho : ℕ

unfoldable pub add_to_group : ℕ → Bool → ℕ → ℕ → List Group → List Group
add_to_group gid is_net_long loss rho [] =
    record {
      gid = gid;
      down = if is_net_long then loss else 0;
      up = if is_net_long then 0 else loss;
      rho = rho;
    }
    ∷ []
add_to_group gid is_net_long loss rho (g ∷ gs) =
    let tail = add_to_group gid is_net_long loss rho gs in
    if g.gid == gid
    then record {
      gid = g.gid;
      down = if is_net_long then saturating_add u64 g.down loss else g.down;
      up = if is_net_long then g.up else saturating_add u64 g.up loss;
      rho = min g.rho rho;
    }
      ∷ gs
    else g ∷ tail

-- The group and the correlation of a market, zero where it is not known.
unfoldable pub group_of : List MarketSnapshot → ℕ → ℕ × ℕ
group_of markets k = elim (lookup_market markets k) [
  | none ↦ (0, 0)
  | some m ↦ (m.corr_group_id, m.corr_rho_bps)
]

-- The sum of the worst losses, and the groups.
unfoldable pub decorrelate :
    List MarketSnapshot → List PositionSnapshot → List (ℕ × ℤ) → ℕ → List Group → ℕ × List Group
decorrelate markets positions [] decorr groups = (decorr, groups)
decorrelate markets positions ((k, w) ∷ rest) decorr groups =
    let (gid, rho) = group_of markets k in
    let grouped =
      if gid == 0 || rho == 0
      then groups
      else add_to_group gid (leb_ℤ (pos 0) (net_lots k positions)) (loss_of w) rho groups in
    if is_pos w
    then decorrelate markets positions rest (saturating_add u64 decorr (loss_of w)) grouped
    else decorrelate markets positions rest decorr groups

unfoldable pub relief_of : Group → ℕ
relief_of g = min (offset_relief_le_cap g.rho (min g.down g.up)) (u64 - 1)

unfoldable pub total_relief : List Group → ℕ → ℕ
total_relief [] acc = acc
total_relief (g ∷ gs) acc = total_relief gs (saturating_add u64 acc (relief_of g))
