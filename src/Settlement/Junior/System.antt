-- ===== src/Settlement/Junior/System.antt =====
-- A market's haircut state with all its positions, and every order in which the haircut
-- instructions can run on them.
pub mod Invariant
use flash_book.Common.{
  ℕ, zero, suc, ◌+◌, ◌-◌, ◌≤◌, ◌<◌, ◌≡◌, refl, Bool, true, Option, none, some, List, [], ◌∷◌, arith,
  Result, ok, err, get_elem?, set, u64,
}
use flash_book.Haircut.{PositionHaircutSnapshot}
use flash_book.Settlement.Pnl.{Collateral, InsuranceFundAccount}
use flash_book.Settlement.Pnl.Laws.{total}
use flash_book.Settlement.Junior.{
  MarketHaircutStateAccount, Accounts, release_gain_to_haircut, mature_position, convert_position,
  flush_haircut_dust,
}
use flash_book.Settlement.Junior.Laws.{
  release_gain_moves, mature_position_moves, convert_position_moves, flush_haircut_dust_conserves,
}

pub record Entry : Type 0 where
  pub position : PositionHaircutSnapshot
  pub collateral : Collateral

pub record System : Type 0 where
  pub market : MarketHaircutStateAccount
  pub entries : List Entry
  pub fund : InsuranceFundAccount

abbrev pub load : MarketHaircutStateAccount → Entry → Accounts
load m e = record { position = e.position; market = m; collateral = e.collateral }

-- The accounts of entry `i` are written back.
abbrev pub store : System → ℕ → Accounts → System
store s i b = record s {
  market = b.market;
  entries = set s.entries i (record { position = b.position; collateral = b.collateral });
}

-- One instruction that succeeds. Any entry, any signer and any slot may come next.
pub data Step (s : System) (t : System) : Type 0 where
  release :
      (i gain now : ℕ) (authorized : Bool) (e : Entry) (b : Accounts)
      → get_elem? s.entries i ≡ some e
      → release_gain_to_haircut authorized gain now (load s.market e) ≡ ok b
      → t ≡ store s i b
      → Step s t
  mature :
      (i now : ℕ) (e : Entry) (b : Accounts)
      → get_elem? s.entries i ≡ some e
      → mature_position now (load s.market e) ≡ ok b
      → t ≡ store s i b
      → Step s t
  convert :
      (i now : ℕ) (authorized : Bool) (e : Entry) (b : Accounts)
      → get_elem? s.entries i ≡ some e
      → convert_position authorized now (load s.market e) ≡ ok b
      → t ≡ store s i b
      → Step s t
  flush :
      (m : MarketHaircutStateAccount) (f : InsuranceFundAccount)
      → flush_haircut_dust s.market s.fund ≡ ok (m, f)
      → t ≡ record s { market = m; fund = f }
      → Step s t

pub data Reach (s : System) : System → Type 0 where
  here : Reach s s
  next : {t u : System} → Reach s t → Step t u → Reach s u

-- The sum of a quantity over the entries.
module _ (f : Entry → ℕ) where
  abbrev pub sum : List Entry → ℕ
  sum [] = 0
  sum (e ∷ es) = f e + sum es

  pub sum-set :
      (es : List Entry) (i : ℕ) (e e' : Entry)
      → get_elem? es i ≡ some e
      → sum (set es i e') + f e ≡ sum es + f e'
  sum-set [] i e e' h = cc
  sum-set (x ∷ es) zero e e' h = ground arith
  sum-set (x ∷ es) (suc i) e e' h = omega (arith, sum-set es i e e' h)

abbrev pub collaterals : List Entry → ℕ
collaterals = sum (λ e. total e.collateral)

abbrev pub reserves : List Entry → ℕ
reserves = sum (λ e. e.position.released_reserve_quote_lots)

abbrev pub matured : List Entry → ℕ
matured = sum (λ e. e.position.matured_pos_quote_lots)

-- Every stored profit is a `u64`.
abbrev pub AllStored : List Entry → Type 0
AllStored [] = Unit
AllStored (e ∷ es) = (e.position.matured_pos_quote_lots < u64) × AllStored es

AllStored-get_elem? :
    (es : List Entry) (i : ℕ) (e : Entry)
    → AllStored es
    → get_elem? es i ≡ some e
    → e.position.matured_pos_quote_lots < u64
AllStored-get_elem? [] i e a h = cc
AllStored-get_elem? (x ∷ es) zero e a h = ground arith
AllStored-get_elem? (x ∷ es) (suc i) e a h = AllStored-get_elem? es i e a.1 h

AllStored-set :
    (es : List Entry) (i : ℕ) (e : Entry)
    → AllStored es
    → e.position.matured_pos_quote_lots < u64
    → AllStored (set es i e)
AllStored-set [] i e a h = a
AllStored-set (x ∷ es) zero e a h = (h, a.1)
AllStored-set (x ∷ es) (suc i) e a h = (a.0, AllStored-set es i e a.1 h)

-- The market's matured total is the sum over its positions.
pub record IsValid (s : System) : Type 0 where
  pub stored : AllStored s.entries
  pub counted : matured s.entries ≡ s.market.matured_pos_total_quote_lots

-- What traders and the protocol can claim, at any stage of the pipeline.
abbrev pub claims : System → ℕ
claims s =
    collaterals s.entries
    + reserves s.entries
    + matured s.entries
    + s.market.dust_accrued_quote_lots
    + s.fund.balance_quote_lots

-- What is paid for: collateral, the Residual and the fund.
abbrev pub backing : System → ℕ
backing s = collaterals s.entries + s.market.residual_quote_lots + s.fund.balance_quote_lots

pub record Kept (s t : System) : Type 0 where
  pub valid : IsValid t
  pub same_claims : claims t ≡ claims s
  pub no_mint : backing t ≤ backing s

-- The three sums after entry `i` is written.
module _ (s : System) (i : ℕ) (e : Entry) (b : Accounts) (at : get_elem? s.entries i ≡ some e) where
  abbrev written : Entry
  written = record { position = b.position; collateral = b.collateral }

  collaterals-store :
      collaterals (store s i b).entries + total e.collateral
      ≡ collaterals s.entries + total b.collateral
  collaterals-store = sum-set (λ e. total e.collateral) s.entries i e written at

  reserves-store :
      reserves (store s i b).entries + e.position.released_reserve_quote_lots
      ≡ reserves s.entries + b.position.released_reserve_quote_lots
  reserves-store = sum-set (λ e. e.position.released_reserve_quote_lots) s.entries i e written at

  matured-store :
      matured (store s i b).entries + e.position.matured_pos_quote_lots
      ≡ matured s.entries + b.position.matured_pos_quote_lots
  matured-store = sum-set (λ e. e.position.matured_pos_quote_lots) s.entries i e written at

  -- A step on entry `i` keeps what its own accounts account for.
  store-Kept :
      IsValid s
      → b.position.matured_pos_quote_lots < u64
      → b.market.matured_pos_total_quote_lots + e.position.matured_pos_quote_lots
        ≡ s.market.matured_pos_total_quote_lots + b.position.matured_pos_quote_lots
      → total b.collateral
          + b.position.released_reserve_quote_lots
          + b.position.matured_pos_quote_lots
          + b.market.dust_accrued_quote_lots
        ≡ total e.collateral
          + e.position.released_reserve_quote_lots
          + e.position.matured_pos_quote_lots
          + s.market.dust_accrued_quote_lots
      → total b.collateral + b.market.residual_quote_lots
        ≤ total e.collateral + s.market.residual_quote_lots
      → Kept s (store s i b)
  store-Kept v fits count same less = record {
    valid = record {
      stored = AllStored-set s.entries i written v.stored fits;
      counted = omega (arith, v.counted, matured-store);
    };
    same_claims = omega (arith, collaterals-store, reserves-store, matured-store);
    no_mint = omega (arith, collaterals-store);
  }
