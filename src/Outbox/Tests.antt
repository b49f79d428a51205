-- ===== src/Outbox/Tests.antt =====
-- Runs of the outbox of fill_outbox.rs, with the theorems on it at concrete accounts.
use flash_book.Common.{ℕ, ◌≡◌, refl, List, arith, ok, err, length, replicate, Returns}
use flash_book.Common.Bytes.{slice}
use flash_book.Outbox.{
  OutboxSlot, corrupt, out_of_range, outbox_check, outbox_write_slot, outbox_read_slot,
}
use flash_book.Outbox.Slots.{IsTyped, Misses, read-write_slot}

abbrev fill : OutboxSlot
fill = record {
  taker = replicate 32 1;
  maker = replicate 32 2;
  size_lots = 42;
  price_ticks = 100000;
  maker_id = 777;
  taker_side = 1;
  taker_sub_index = 3;
  maker_sub_index = 4;
  taker_was_jit = 1;
}

fill-IsTyped : IsTyped fill
fill-IsTyped = record {
  taker_len = refl;
  maker_len = refl;
  size_lots_fits = omega arith;
  price_ticks_fits = omega arith;
  maker_id_fits = omega arith;
}

-- An account of two slots.
abbrev two_slots : List ℕ
two_slots = replicate 256 0

abbrev market : List ℕ
market = replicate 32 7

read-write_slot_example : Returns (outbox_write_slot two_slots 2 1 fill) λ written.
    (length written ≡ 256)
    × (outbox_read_slot written 2 1 ≡ ok fill)
    × ((j n : ℕ) → Misses 1 j n → slice written j n ≡ slice two_slots j n)
read-write_slot_example =
    read-write_slot two_slots 2 1 fill fill-IsTyped (omega arith) (omega arith)

refused : outbox_write_slot two_slots 2 2 fill ≡ err out_of_range
unfolding outbox_write_slot
refused = refl

-- An account that was not initialised has no discriminator.
blank : outbox_check two_slots market ≡ err corrupt
unfolding outbox_check
blank = refl
