-- ===== src/Lib.antt =====
-- A verification library for Clober, a perpetual-futures exchange on a central limit order book
-- that runs as a Solana program (programs/clober). Matching may happen on a rollup; money moves
-- only when a committed fill is settled.
--
-- The parts, and how they interact. A taker's order walks the opposite side of the book; each of
-- its fills is written to an outbox, and its commitment is pushed into a ring. Settlement consumes
-- the commitments in order. A settled fill first settles the funding that the position owes, then
-- moves the position and realises profit or loss. A loss is debited from the trader's collateral at
-- once and credited to the market's Residual; what the collateral cannot cover is drawn from the
-- insurance fund. A gain on an opted position goes to a reserve, matures over a window of slots,
-- and is converted into collateral at a ratio that the Residual bounds. When the fund runs low,
-- positions of the winning side are deleveraged, which the side's indices record. Anyone may run
-- the solvency checks, which compare the token vault with what is owed. Beside the exchange stand
-- the copy vaults, with their own tokens, and the committee that attests batches.
--
-- The files:
--   Common       what the modules share: tests on numbers, lists, results with `?` as a bind,
--                machine words, signed integers, bytes, lists of distinct keys
--   Errors       the error codes (programs/clober/src/errors.rs)
--   Haircut      programs/clober/src/matcher/haircut.rs: the ratio, the reserve, its warmup, the
--                conversion, the invariant report; Ratio, Payout and Pipeline hold its theorems
--   Settlement   Pnl: the helpers of programs/clober/src/lib.rs that apply realised profit and loss
--                (apply_realized_pnl_direct, apply_realized_pnl_delta, cover_bad_debt,
--                accrue_haircut_loss, and the realised leg of apply_fill). Junior: the instructions
--                release_gain_to_haircut, mature_position, convert_position, flush_haircut_dust
--                and verify_haircut_invariants; Junior/System runs them in any order on a market
--                with all its positions
--   Ring         programs/clober/src/matcher/fill_commitment.rs: ring_push, ring_settle; Queue
--                is the bounded queue that the ring implements, and History every interleaving of
--                the matcher and of settlement. Preimage is fill_preimage, and Authentic ties it
--                to settlement. Buffer holds buffer_init, buffer_check, buffer_push, buffer_settle
--                and buffer_set_cap over the bytes of the account, refined to the ring; Inflight
--                the reduce flags and inflight_get, inflight_add and inflight_sub
--   Outbox       programs/clober/src/matcher/fill_outbox.rs over the bytes of the account; Slots and
--                Header read back what is written, and Pending joins it to the ring
--   Orders       programs/clober/src/matcher/lot.rs and matcher/order.rs, and the keys of
--                programs/clober/src/book_state.rs
--   Envelope     programs/clober/src/matcher/envelope.rs; Bound and Gate hold the theorems
--   Matching     place_taker_order of programs/clober/src/lib.rs: the walk over the nodes that the
--                tree visits; Priority is its reference, and Fair, Visits, Greedy and Exhausted hold
--                its theorems. Residual is what follows: the refusals, and whether the rest is left
--                on the book, with price_within_band of programs/clober/src/matcher/lp_quoter.rs.
--                Delivery records the fills in the accounts of Ring and Outbox; Region, Commits,
--                Mirror, Progress, Together and Header follow the bytes, and Feed runs orders and
--                settlements in any order
--   Risk         programs/clober/src/matcher/risk.rs: the parts of a stress; Scenarios are the loops
--                of assess_margin, and Assess the assessments; Stress, Losses, Worst, Relief,
--                Cover and Isolated hold the theorems
--   Position     programs/clober/src/matcher/position_math.rs: apply_fill. Account has
--                apply_fill_to_position, route_funding and settle_position_funding of lib.rs and
--                funding_owed of matcher/funding.rs, and Crank its ticks of the index; Entry, Value,
--                Legs, Total, Funding and Rate hold the theorems
--   Solvency     programs/clober/src/matcher/insurance.rs and the instructions
--                verify_collateral_solvency, verify_protocol_solvency, deposit_insurance_fund,
--                withdraw_insurance_fund and claim_fee_accrual of lib.rs; Sweep and Floor hold the
--                theorems
--   Vault        programs/clober/src/matcher/vault_math.rs and the instructions
--                deposit_to_copy_vault and withdraw_from_copy_vault of lib.rs; Holders runs them in
--                any order on a vault with all its holders
--   Committee    programs/clober/src/matcher/committee.rs; Quorum holds the theorems
--   Accrual      programs/clober/src/matcher/side_accrual.rs and the block of auto_deleverage that
--                drives it; Shrink, Cycle and Settle hold the theorems
--   Collateral   programs/clober/src/xmargin.rs: transfers, isolation, rewards, reservations; and
--                route_adl_loss, route_adl_gain, force_close_against_insurance and the money of
--                force_reduce_position_oracle of lib.rs; Ledger runs the moves in any order
--   Liquidation  programs/clober/src/matcher/liquidation.rs: health prices and shortfalls; and
--                matcher/reduce_only.rs
-- Each part has a file Tests with runs of its definitions and the theorems at concrete inputs.
--
-- The correspondence. A function keeps its name, its parameters and their order. An account is a
-- record of the fields that the modelled operations read or write; an operation takes the old
-- values and returns the new ones, and an error is a value, since a failed transaction leaves no
-- trace. A signer check is a Boolean argument. Numbers are naturals, and each checked, saturating
-- or wrapping operation has its width written out; the signed ones are integers whose checks
-- compare both parts with the half of the range. A public key is a number and a digest a list of
-- bytes. Loops are structural recursions over the list that the source iterates, or on the number
-- of slots that are left, so that no fuel is needed. Accounts that the source parses itself are
-- lists of bytes. Tokens move as the instruction asks the token program for: a transfer that is
-- refused reverts the instruction.
--
-- Not modelled: the book handle and the tree library under it (programs/clober/src/book_state.rs,
-- programs/clober/src/hypertree), quoting (matcher/lp_quoter.rs), the rollup's delegation and the
-- oracles' decoding, the hash of a fill, and every instruction that is not named above. Events and
-- account validation by Anchor are left out where they do not change state.
pub mod Common
pub mod Errors
pub mod Haircut
pub mod Settlement
pub mod Ring
pub mod Outbox
pub mod Orders
pub mod Risk
pub mod Position
pub mod Solvency
pub mod Vault
pub mod Committee
pub mod Accrual
pub mod Collateral
pub mod Liquidation
pub mod Matching
pub mod Envelope
