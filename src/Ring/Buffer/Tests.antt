-- ===== src/Ring/Buffer/Tests.antt =====
-- Runs of the ring's account, fill_commitment.rs, with the theorems on it at concrete bytes.
use flash_book.Common.{
  ℕ, ◌≡◌, refl, List, [], ◌∷◌, arith, ok, err, replicate, map_ok, Ensures, true,
}
use flash_book.Common.Bytes.{slice}
use flash_book.Common.Fields.{write_fields}
use flash_book.Ring.{FillCommit, corrupt}
use flash_book.Ring.Fifo.{Ring, IsValid, pending, push, settle}
use flash_book.Ring.Preimage.{
  Fill, IsTyped, fill_of, fill_preimage, fill_commit_domain, fill_of-preimage,
}
use flash_book.Ring.Authentic.{settle-authentic}
use flash_book.Ring.Buffer.{header_fields, buffer_check, buffer_push, buffer_settle}
use flash_book.Ring.Buffer.View.{ring_of}
use flash_book.Ring.Buffer.Refine.{buffer_push-refines, buffer_settle-refines}

abbrev market : List ℕ
market = replicate 32 7

-- Two slots.
abbrev blank : List ℕ
blank = replicate 1410 0

abbrev fresh : List ℕ
fresh = write_fields blank (header_fields market 2 254)

abbrev digest : FillCommit
digest = replicate 32 9

fresh-checked : buffer_check fresh market ≡ ok 2
unfolding buffer_check
fresh-checked = refl

buffer_push-refines_example :
    (map_ok (ring_of 2) (buffer_push fresh market digest) ≡ push (ring_of 2 fresh) digest)
    × Ensures (buffer_push fresh market digest) λ after. buffer_check after market ≡ ok 2
buffer_push-refines_example = buffer_push-refines fresh market 2 digest fresh-checked refl

buffer_settle-refines_example :
    (map_ok (ring_of 2) (buffer_settle fresh market digest) ≡ settle (ring_of 2 fresh) digest)
    × Ensures (buffer_settle fresh market digest) λ after. buffer_check after market ≡ ok 2
buffer_settle-refines_example = buffer_settle-refines fresh market 2 digest fresh-checked

abbrev fill : Fill
fill = record {
  market = market;
  taker = replicate 32 1;
  maker = replicate 32 2;
  taker_side = 0;
  size_lots = 42;
  price_ticks = 100000;
  taker_sub_index = 3;
  maker_sub_index = 4;
  produced_index = 0;
  taker_was_jit = true;
}

fill-IsTyped : IsTyped fill
fill-IsTyped = record {
  market_len = refl;
  taker_len = refl;
  maker_len = refl;
  size_lots_fits = omega arith;
  price_ticks_fits = omega arith;
  produced_index_fits = omega arith;
}

fill_of-preimage_example :
    (fill_of (fill_preimage fill) ≡ fill) × (slice (fill_preimage fill) 0 8 ≡ fill_commit_domain)
fill_of-preimage_example = fill_of-preimage fill fill-IsTyped

-- The ring after the fill's commitment, with the serialisation for its own hash.
abbrev one_fill : Ring
one_fill = record { produced = 1; settled = 0; slots = fill_preimage fill ∷ [] }

one_fill-IsValid : IsValid one_fill
one_fill-IsValid = record { open_slots = omega arith; ordered = omega arith; bounded = omega arith }

settle-authentic_example :
    Ensures (settle one_fill (fill_preimage fill)) λ q. (fill ≡ fill) × (pending q ≡ [])
settle-authentic_example =
    settle-authentic (λ p. p) one_fill [] fill fill one_fill-IsValid (omega arith) refl fill-IsTyped
      fill-IsTyped (λ e. e)

-- The account of another market is refused.
foreign : buffer_check fresh (replicate 32 8) ≡ err corrupt
unfolding buffer_check
foreign = refl
