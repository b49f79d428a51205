-- ===== src/Committee/Tests.antt =====
-- The theorems on the committee at a concrete one.
use flash_book.Common.{ℕ, ◌≡◌, refl, arith, true, false, List, [], ◌∷◌}
use flash_book.Common.Distinct.{contains}
use flash_book.Committee.{
  is_valid_bft_config, is_committee_member, attestation_meets_threshold, jail_slot, is_jailed,
}
use flash_book.Committee.Quorum.{honest_in_both}

abbrev validators : List ℕ
validators = 11 ∷ 12 ∷ 13 ∷ 14 ∷ 0 ∷ 0 ∷ []

abbrev first_quorum : List ℕ
first_quorum = 11 ∷ 12 ∷ 13 ∷ []

abbrev second_quorum : List ℕ
second_quorum = 14 ∷ 13 ∷ 12 ∷ []

four_three : is_valid_bft_config 4 3 ≡ true
unfolding is_valid_bft_config
four_three = refl

first_accepted : attestation_meets_threshold validators 4 3 first_quorum ≡ true
unfolding attestation_meets_threshold is_committee_member
first_accepted = refl

second_accepted : attestation_meets_threshold validators 4 3 second_quorum ≡ true
unfolding attestation_meets_threshold is_committee_member
second_accepted = refl

honest_in_both_example :
    (k : ℕ) × (is_committee_member validators 4 k ≡ true)
    × (contains first_quorum k ≡ true)
    × (contains second_quorum k ≡ true)
    × (contains (12 ∷ []) k ≡ false)
honest_in_both_example =
    honest_in_both validators 4 3 first_quorum second_quorum (12 ∷ []) four_three first_accepted
      second_accepted (omega arith)

jailing : is_jailed (jail_slot 5 3) 3 ≡ true
unfolding is_jailed jail_slot
jailing = refl
