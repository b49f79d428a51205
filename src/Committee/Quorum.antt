-- ===== src/Committee/Quorum.antt =====
-- What a quorum of programs/clober/src/matcher/committee.rs is worth.
use flash_book.Common.{
  ℕ, ◌*◌, ◌≤◌, ◌<◌, ◌≡◌, ◌↔◌, length-take, min, true, false, List, [], ◌∷◌, length, arith,
}
use flash_book.Common.Distinct.{
  contains, AreDistinct, AreIn, AreIn-nil, AreIn-cons, shared, length-shared, shared-AreDistinct,
  contains-shared, find-Outside, contains-AreIn,
}
use flash_book.Committee.{
  is_valid_bft_config, is_committee_member, members, valid_members, validators_valid_set,
  distinct_members, attestation_meets_threshold,
}

distinct_members_lem :
    (vs : List ℕ) (n : ℕ) (keys : List ℕ)
    → distinct_members vs n keys ≡ true
    → AreDistinct keys × AreIn keys (members vs n)
unfolding is_committee_member
distinct_members_lem vs n [] h = (tt, AreIn-nil _)
distinct_members_lem vs n (k ∷ keys) h =
    ground (arith, distinct_members_lem vs n keys, AreIn-cons k keys (members vs n))

-- What an accepted attestation is.
pub attestation_meets_threshold_lem :
    (vs : List ℕ) (n t : ℕ) (keys : List ℕ)
    → attestation_meets_threshold vs n t keys ≡ true
    → AreDistinct keys × AreIn keys (members vs n) × (t ≤ length keys)
unfolding attestation_meets_threshold
attestation_meets_threshold_lem vs n t keys h = ground (arith, distinct_members_lem vs n keys)

length-members : (vs : List ℕ) (n : ℕ) → length (members vs n) ≤ n
length-members vs n = omega (arith, length-take (min n (length vs)) vs)

-- Two quorums share more than a third of the committee.
pub quorum_overlap :
    (vs : List ℕ) (n t : ℕ) (a b : List ℕ)
    → is_valid_bft_config n t ≡ true
    → attestation_meets_threshold vs n t a ≡ true
    → attestation_meets_threshold vs n t b ≡ true
    → n < 3 * length (shared a b)
unfolding is_valid_bft_config
quorum_overlap vs n t a b c h k =
    let x = attestation_meets_threshold_lem vs n t a h in
    let y = attestation_meets_threshold_lem vs n t b k in
    let z = length-shared a b (members vs n) x.0 y.0 x.1 y.1 in
    ground (arith, x.2, y.2, z, length-members vs n)

-- Quorum intersection: under a valid configuration, any two accepted attestations share a member
-- of the committee that is not among the faulty ones, if three times the faulty ones are fewer
-- than the committee.
pub honest_in_both :
    (vs : List ℕ) (n t : ℕ) (a b faulty : List ℕ)
    → is_valid_bft_config n t ≡ true
    → attestation_meets_threshold vs n t a ≡ true
    → attestation_meets_threshold vs n t b ≡ true
    → 3 * length faulty < n
    → (k : ℕ) × (is_committee_member vs n k ≡ true)
      × (contains a k ≡ true)
      × (contains b k ≡ true)
      × (contains faulty k ≡ false)
unfolding is_committee_member
honest_in_both vs n t a b faulty c h k f =
    let x = attestation_meets_threshold_lem vs n t a h in
    let (j, i, o) =
      find-Outside (shared a b) faulty (shared-AreDistinct a b x.0)
        (omega (arith, quorum_overlap vs n t a b c h k)) in
    let both = contains-shared a b j in
    (
      j,
      contains-AreIn a (members vs n) j x.1 (ground (arith, both, i)),
      ground (arith, both, i),
      ground (arith, both, i),
      o,
    )

-- What the validator check accepts: distinct members, none of them the zero key.
valid_members_iff :
    (vs : List ℕ) → (valid_members vs ≡ true) ↔ (AreDistinct vs × (contains vs 0 ≡ false))
valid_members_iff [] = ground arith
valid_members_iff (v ∷ vs) = ground (arith, valid_members_iff vs)

-- The validator check accepts a set exactly where its members are distinct and the zero key is
-- not one of them.
pub validators_valid_set_iff :
    (vs : List ℕ) (n : ℕ)
    → (validators_valid_set vs n ≡ true)
      ↔ (AreDistinct (members vs n) × (is_committee_member vs n 0 ≡ false))
unfolding validators_valid_set is_committee_member
validators_valid_set_iff vs n = valid_members_iff (members vs n)
