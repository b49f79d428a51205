-- ===== src/Matching/Delivery/Feed/Runs.antt =====
-- Every run of taker orders and settlements, programs/clober/src/lib.rs and
-- programs/clober/src/matcher/fill_commitment.rs.
use flash_book.Common.{ℕ, ◌+◌, ◌≡◌, List, [], ◌∷◌, ◌++◌, Result, length}
use flash_book.Ring.{FillCommit, FillRingError}
use flash_book.Ring.Buffer.View.{ring_of}
use flash_book.Matching.Delivery.{Accounts}
use flash_book.Matching.Delivery.Mirror.{AreTyped}
use flash_book.Matching.Delivery.Feed.{
  Fed, Op, record_fills, settle_fill, Feed, after_settle, accepted_settle, fed_commitments,
  IsInStep,
}

-- The orders are for the market, with fields in the ranges of their types and a hash of 32 bytes.
abbrev pub AreFor : List ℕ → List Op → Type 0
AreFor market [] = Unit
AreFor market (record_fills b ms ∷ ops) =
    (b.market ≡ market)
    × ((bytes : List ℕ) → length (b.hash bytes) ≡ 32)
    × AreTyped b ms
    × AreFor market ops
AreFor market (settle_fill c ∷ ops) = AreFor market ops

-- The fills that the orders present.
abbrev pub fill_count : List Op → ℕ
fill_count [] = 0
fill_count (record_fills b ms ∷ ops) = length ms + fill_count ops
fill_count (settle_fill c ∷ ops) = fill_count ops

-- The fills that a run settled and those that it leaves, with the accounts in step.
pub record IsServed (market : List ℕ) (capacity fo_cap index : ℕ) (waiting : List Fed) (feed : Feed)
    : Type 0 where
  pub done : List Fed
  pub left : List Fed
  pub in_order : waiting ++ feed.recorded ≡ done ++ left
  pub settled_them : feed.settled ≡ fed_commitments index done
  pub in_step : IsInStep market capacity fo_cap feed.accounts left

module _ (market : List ℕ) (capacity fo_cap : ℕ) where
  -- A settlement that may have failed takes one fill, or none.
  record IsDrawn (a : Accounts) (waiting : List Fed) (c : FillCommit)
      (res : Result FillRingError (List ℕ)) : Type 0 where
    taken : List Fed
    rest : List Fed
    split : waiting ≡ taken ++ rest
    agreed : accepted_settle res c ≡ fed_commitments (ring_of capacity a.fc_data).settled taken
    in_step : IsInStep market capacity fo_cap (after_settle res a) rest
    moved :
        (ring_of capacity (after_settle res a).fc_data).settled
        ≡ (ring_of capacity a.fc_data).settled + length taken
    produced_kept :
        (ring_of capacity (after_settle res a).fc_data).produced
        ≡ (ring_of capacity a.fc_data).produced
