-- ===== src/Committee.antt =====
-- The sequencer committee: programs/clober/src/matcher/committee.rs. A public key is a number, and
-- the default key is 0.
pub mod Quorum
mod Tests
use flash_book.Common.{
  ℕ, suc, zero, ◌+◌, ◌*◌, ◌/◌, ◌%◌, ◌^◌, min, Bool, true, false, not, ◌&&◌, ◌||◌, List, [], ◌∷◌,
  ltb, leb, ◌==◌, if◌then◌else◌, length, take,
}
use flash_book.Common.Bytes.{bytes_eq}
use flash_book.Common.Distinct.{contains}

unfoldable pub is_valid_bft_config : ℕ → ℕ → Bool
is_valid_bft_config validator_count threshold =
    leb 1 validator_count
    && leb 1 threshold
    && leb threshold validator_count
    && ltb (2 * validator_count) (3 * threshold)

-- `validators[..n]`, with `n` capped at the length.
abbrev pub members : List ℕ → ℕ → List ℕ
members validators validator_count = take (min validator_count (length validators)) validators

unfoldable pub is_committee_member : List ℕ → ℕ → ℕ → Bool
is_committee_member validators validator_count key =
    contains (members validators validator_count) key

-- The two loops: no member is the zero key, and none stands again behind itself.
abbrev pub valid_members : List ℕ → Bool
valid_members [] = true
valid_members (v ∷ vs) = not (v == 0) && not (contains vs v) && valid_members vs

unfoldable pub validators_valid_set : List ℕ → ℕ → Bool
validators_valid_set validators validator_count = valid_members (members validators validator_count)

-- The loop over the attestors.
abbrev pub distinct_members : List ℕ → ℕ → List ℕ → Bool
distinct_members validators validator_count [] = true
distinct_members validators validator_count (a ∷ rest) =
    is_committee_member validators validator_count a
    && not (contains rest a)
    && distinct_members validators validator_count rest

unfoldable pub attestation_meets_threshold : List ℕ → ℕ → ℕ → List ℕ → Bool
attestation_meets_threshold validators validator_count threshold attestors =
    not (ltb (length attestors) threshold || threshold == 0)
    && distinct_members validators validator_count attestors

-- A bit of the mask, and the mask with it set.
abbrev pub bit : ℕ → ℕ → ℕ
bit mask slot = mask / 2 ^ slot % 2

unfoldable pub is_jailed : ℕ → ℕ → Bool
is_jailed jailed_mask slot = ltb slot 64 && bit jailed_mask slot == 1

-- `mask | (1 << slot)` adds the bit where it is not set.
unfoldable pub jail_slot : ℕ → ℕ → ℕ
jail_slot jailed_mask slot =
    if ltb slot 64
    then (if bit jailed_mask slot == 1 then jailed_mask else jailed_mask + 2 ^ slot)
    else jailed_mask

unfoldable pub is_equivocation : ℕ → ℕ → List ℕ → ℕ → ℕ → List ℕ → Bool
is_equivocation epoch_a seq_a digest_a epoch_b seq_b digest_b =
    epoch_a == epoch_b && seq_a == seq_b && not (bytes_eq digest_a digest_b)
