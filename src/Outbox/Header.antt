-- ===== src/Outbox/Header.antt =====
-- The header of the outbox, fill_outbox.rs: what initialisation stamps passes the check, and the
-- mirrored cursors read back.

use flash_book.Common.{
  ℕ, ◌≤◌, ◌<◌, ◌≡◌, ◌≢◌, refl, ◌∙◌, List, arith, ok, u32, u64, length, ltb-false, ==_true, ==_false,
  Returns,
}
use flash_book.Common.Bytes.{slice, length-splice, bytes_eq_self, to_le_bytes}
use flash_book.Common.Fields.{
  write_fields, InOrder, AreRead, length-write_fields, write_fields-read, slice-write_fields_after,
  rd_u64-field, rd_u32-field, wr_u64, rd_u64-wr_self, rd_u64-wr_before,
}
use flash_book.Outbox.{
  header_fields, fill_outbox_account_len, outbox_init, outbox_check, outbox_set_cursors,
  outbox_produced, outbox_settled,
}

header_fields-InOrder :
    (market : List ℕ) (capacity bump : ℕ)
    → length market ≡ 32
    → InOrder 0 64 (header_fields market capacity bump)
header_fields-InOrder market capacity bump h = ground arith

-- A header that was stamped passes the check for its market, and its cursors are zero.
check-read :
    (buf market : List ℕ) (capacity bump : ℕ)
    → length market ≡ 32
    → capacity ≢ 0
    → capacity < u32
    → length buf ≡ fill_outbox_account_len capacity
    → AreRead buf (header_fields market capacity bump)
    → (outbox_check buf market ≡ ok capacity) × (outbox_produced buf ≡ 0) × (outbox_settled buf ≡ 0)
unfolding outbox_check outbox_produced outbox_settled
check-read buf market capacity bump l nz fits e (r0, (r1, (r2, (r3, (r4, (r5, (r6, r7))))))) = (
  rw
      (
        rd_u32-field buf 24 capacity r3 fits,
        ltb-false (length buf) 64 (omega arith),
        r0 8 refl,
        ==_false capacity 0 nz,
        ==_true (length buf) (fill_outbox_account_len capacity) e,
        r6 32 l,
        bytes_eq_self market,
      )
      refl,
  rd_u64-field buf 8 0 r1 (omega arith),
  rd_u64-field buf 16 0 r2 (omega arith),
)

-- An account of the length of its capacity, which is not zero and a u32, is initialised to one that
-- passes the check for the market and the capacity that it was given, with both cursors zero; no
-- slot byte changes.
pub check-init :
    (buf market : List ℕ) (capacity bump : ℕ)
    → length market ≡ 32
    → capacity ≢ 0
    → capacity < u32
    → length buf ≡ fill_outbox_account_len capacity
    → Returns (outbox_init buf market capacity bump) λ stamped.
      (outbox_check stamped market ≡ ok capacity)
      × (outbox_produced stamped ≡ 0)
      × (outbox_settled stamped ≡ 0)
      × ((j n : ℕ) → 64 ≤ j → slice stamped j n ≡ slice buf j n)
unfolding outbox_init
check-init buf market capacity bump l nz fits e =
    rw (==_false capacity 0 nz, ==_true (length buf) (fill_outbox_account_len capacity) e)
      (let o = header_fields-InOrder market capacity bump l in
        let stamped = write_fields buf (header_fields market capacity bump) in
        let (checked, produced, settled) =
          check-read stamped market capacity bump l nz fits
            (length-write_fields buf (header_fields market capacity bump) ∙ e)
            (write_fields-read buf 0 64 (header_fields market capacity bump) o (omega arith)) in
        (
          checked,
          produced,
          settled,
          λ j n h. slice-write_fields_after buf 0 64 (header_fields market capacity bump) j n o h,
        ))

-- The cursors that the matcher mirrors read back, in an account with a header.
cursors-set :
    (buf : List ℕ) (produced settled : ℕ)
    → 64 ≤ length buf
    → produced < u64
    → settled < u64
    → (outbox_produced (outbox_set_cursors buf produced settled) ≡ produced)
      × (outbox_settled (outbox_set_cursors buf produced settled) ≡ settled)
unfolding outbox_produced outbox_settled outbox_set_cursors
cursors-set buf produced settled h p s = (
  rd_u64-wr_before (wr_u64 buf 8 produced) 16 settled 8 (omega arith)
      ∙ rd_u64-wr_self buf 8 produced (omega arith) p,
  rd_u64-wr_self (wr_u64 buf 8 produced) 16 settled
      (omega (arith, length-splice buf 8 (to_le_bytes 8 produced))) s,
)
