-- ===== src/Ring/Authentic.antt =====
-- Authenticity of settlement, programs/clober/src/matcher/fill_commitment.rs: the hash is a
-- parameter, and settlement presents the hash of the serialisation of the fill that it settles.
use flash_book.Common.{
  ℕ, ◌≡◌, ◌<◌, List, ◌∷◌, Result, ok, err, u64, arith, map_ok, Ensures, Ensures-map, sym, ap, ◌∙◌,
}
use flash_book.Common.Bytes.{bytes_eq→≡}
use flash_book.Ring.{FillCommit, FillRingError}
use flash_book.Ring.Fifo.{Ring, IsValid, pending, settle}
use flash_book.Ring.Queue.{dequeue, settle_refines}
use flash_book.Ring.Preimage.{Fill, IsTyped, fill_preimage, preimage-inj}

pub dequeue-eq :
    (q : List FillCommit) (x c : FillCommit) (res : Result FillRingError Ring)
    → map_ok pending res ≡ dequeue (x ∷ q) c
    → Ensures res λ r. (x ≡ c) × (pending r ≡ q)
dequeue-eq q x c (ok r) e = ground (arith, bytes_eq→≡ x c)
dequeue-eq q x c (err f) e = tt

-- Where the oldest pending commitment is the hash of a fill's serialisation, and the hash does
-- not collide on the two fills, a settlement in a valid ring that succeeds settles that very
-- fill, in every field, and leaves the rest pending.
pub settle-authentic :
    (hash : List ℕ → FillCommit) (r : Ring) (rest : List FillCommit) (committed presented : Fill)
    → IsValid r
    → r.produced < u64
    → pending r ≡ hash (fill_preimage committed) ∷ rest
    → IsTyped committed
    → IsTyped presented
    → (hash (fill_preimage committed) ≡ hash (fill_preimage presented)
        → fill_preimage committed ≡ fill_preimage presented)
    → Ensures
        (settle r (hash (fill_preimage presented)))
        λ q. (presented ≡ committed) × (pending q ≡ rest)
settle-authentic hash r rest committed presented v fits e s t injective =
    Ensures-map (settle r (hash (fill_preimage presented)))
      (λ q h. (sym (preimage-inj committed presented s t (injective h.0)), h.1))
      (dequeue-eq rest (hash (fill_preimage committed)) (hash (fill_preimage presented))
        (settle r (hash (fill_preimage presented)))
        ((settle_refines r (hash (fill_preimage presented)) v fits).0
          ∙ ap (λ q. dequeue q (hash (fill_preimage presented))) e))
