-- ===== src/Settlement/Junior/System/Invariant.antt =====
-- What every sequence of haircut instructions keeps, by induction on the steps.
use flash_book.Common.{refl, ◌∙◌, arith, Ensures-ok}
use flash_book.Settlement.Junior.Laws.{
  release_gain_moves, mature_position_moves, convert_position_moves, flush_haircut_dust_conserves,
}
use flash_book.Settlement.Junior.System.{
  System, load, Step, release, mature, convert, flush, Reach, here, next, IsValid, Kept,
  AllStored-get_elem?, store-Kept,
}

-- One instruction on any position keeps the books: the matured total stays the sum over the
-- positions, claims stay as they are, and no backing is minted.
pub Step-Kept : {s t : System} → IsValid s → Step s t → Kept s t
Step-Kept {s} v (release i gain now auth e b at run t) =
    let moves = Ensures-ok _ _ (release_gain_moves auth gain now (load s.market e)) run in
    let fits = AllStored-get_elem? s.entries i e v.stored at in
    rw t (store-Kept s i e b at v (ground arith) (ground arith) (ground arith) (ground arith))
Step-Kept {s} v (mature i now e b at run t) =
    let fits = AllStored-get_elem? s.entries i e v.stored at in
    let moves = Ensures-ok _ _ (mature_position_moves now (load s.market e) fits) run in
    rw t (store-Kept s i e b at v (ground arith) (ground arith) (ground arith) (ground arith))
Step-Kept {s} v (convert i now auth e b at run t) =
    let fits = AllStored-get_elem? s.entries i e v.stored at in
    let moves = Ensures-ok _ _ (convert_position_moves auth now (load s.market e) fits) run in
    rw t (store-Kept s i e b at v (ground arith) (ground arith) (ground arith) (ground arith))
Step-Kept {s} v (flush m f run t) =
    let moves = Ensures-ok _ _ (flush_haircut_dust_conserves s.market s.fund) run in
    rw t (record {
      valid = record { stored = v.stored; counted = ground (arith, v.counted) };
      same_claims = ground arith;
      no_mint = ground arith;
    })

-- From a market whose matured total is the sum over its positions' matured profits, all of them
-- u64s, no sequence of successful releases, maturings, conversions and flushes, by any signers
-- in any slots on any positions, breaks that sum, changes the claims (collateral, reserves,
-- matured profits, dust and fund balance together), or raises the backing (collateral, Residual
-- and fund balance together).
pub Reach-Kept : {s t : System} → IsValid s → Reach s t → Kept s t
Reach-Kept {s} v here = record { valid = v; same_claims = refl; no_mint = omega arith }
Reach-Kept {s} v (next {t = m} r st) =
    let before = Reach-Kept v r in
    let last = Step-Kept before.valid st in
    record {
      valid = last.valid;
      same_claims = last.same_claims ∙ before.same_claims;
      no_mint = omega (arith, last.no_mint, before.no_mint);
    }
