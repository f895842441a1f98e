-- ===== src/Quorum/Signers.antt =====
-- What the counting loop adds up: the snapshot's weights of the distinct authorities whose votes
-- verify.
use meshpay.Base.{
  ℕ, ◌+◌, ◌*◌, ◌<◌, ◌≡◌, ◌≢◌, refl, ap, ◌∙◌, ◌↔◌, ◌⊎◌, inl, inr, Bool, true, false, not, ◌||◌,
  String, pos, ◌+ℤ◌, int_laws, eq_ℤ_iff, scale, eq_iff, if◌then◌else◌, List, [], ◌∷◌, contains, All,
  IsNodup, Bool-cases, arith,
}
use meshpay.Runtime.{Runtime}
use meshpay.Transaction.Transfer.{TransferOrder}
use meshpay.Transaction.Vote.{AuthorityVote}
use meshpay.Quorum.{
  WeightSnapshot, weight_for, verify_authority_vote, count_votes, has_weighted_quorum,
}

-- The units that the names hold together.
abbrev pub weight_sum : WeightSnapshot → List String → ℕ
weight_sum s [] = 0
weight_sum s (a ∷ names) = weight_for s a + weight_sum s names

-- Some vote of the list is the authority's and verifies.
abbrev pub HasVoted :
    Runtime → TransferOrder → WeightSnapshot → List AuthorityVote → String → Type 0
HasVoted rt order s [] a = ⊥
HasVoted rt order s (v ∷ votes) a =
    ((v.authority ≡ a) × (verify_authority_vote rt order v s ≡ true)) ⊎ HasVoted rt order s votes a

or_false : (a b : Bool) → (a || not b) ≡ false → (a ≡ false) × (b ≡ true)
or_false true b h = cc
or_false false true h = (refl, refl)
or_false false false h = cc

pos-add : (n m : ℕ) → pos n +ℤ pos m ≡ pos (n + m)
pos-add n m = omega int_laws

fresh-ne :
    (a : String) (seen names : List String)
    → All (λ b. contains b (a ∷ seen) ≡ false) names
    → All (λ b. b ≢ a) names
fresh-ne a seen [] h = tt
fresh-ne a seen (b ∷ names) h = (λ same. ground (arith, h.0, eq_iff a b), fresh-ne a seen names h.1)

fresh-old :
    (a : String) (seen names : List String)
    → All (λ b. contains b (a ∷ seen) ≡ false) names
    → All (λ b. contains b seen ≡ false) names
fresh-old a seen [] h = tt
fresh-old a seen (b ∷ names) h = (ground arith, fresh-old a seen names h.1)

module _ (rt : Runtime) (order : TransferOrder) (s : WeightSnapshot) where
  -- The names that the loop adds to `seen`.
  pub signers_from : List String → List AuthorityVote → List String
  signers_from seen [] = []
  signers_from seen (v ∷ votes) =
      let skipped = contains v.authority seen || not (verify_authority_vote rt order v s) in
      let rest = signers_from (if skipped then seen else v.authority ∷ seen) votes in
      if skipped then rest else v.authority ∷ rest

  HasVoted-later :
      (v : AuthorityVote) (votes : List AuthorityVote) (names : List String)
      → All (HasVoted rt order s votes) names
      → All (HasVoted rt order s (v ∷ votes)) names
  HasVoted-later v votes [] h = tt
  HasVoted-later v votes (a ∷ names) h = (inr h.0, HasVoted-later v votes names h.1)

  -- A vote that verifies carries the snapshot's weight.
  pub verified-weight :
      (v : AuthorityVote)
      → verify_authority_vote rt order v s ≡ true
      → v.weight_units ≡ pos (weight_for s v.authority)
  unfolding verify_authority_vote
  verified-weight v h = ground (arith, eq_ℤ_iff v.weight_units (pos (weight_for s v.authority)))

  count_votes-eq :
      (seen : List String) (n : ℕ) (votes : List AuthorityVote)
      → count_votes rt order s seen (pos n) votes ≡ pos (n + weight_sum s (signers_from seen votes))
  unfolding count_votes signers_from
  count_votes-eq seen n [] = ap pos (omega arith)
  count_votes-eq seen n (v ∷ votes) =
      elim (Bool-cases (contains v.authority seen || not (verify_authority_vote rt order v s))) [
        | inl skipped ↦ rw skipped (count_votes-eq seen n votes)
        | inr counted ↦
            let w = weight_for s v.authority in
            let exact = verified-weight v (or_false (contains v.authority seen) _ counted).1 in
            rw (counted, exact, pos-add n w)
              (count_votes-eq (v.authority ∷ seen) (n + w) votes ∙ ap pos (omega arith))
      ]

  -- The signers differ from each other and from the names seen before.
  signers_from-IsNodup :
      (seen : List String) (votes : List AuthorityVote)
      → IsNodup (signers_from seen votes)
        × All (λ a. contains a seen ≡ false) (signers_from seen votes)
  unfolding signers_from
  signers_from-IsNodup seen [] = (tt, tt)
  signers_from-IsNodup seen (v ∷ votes) =
      elim (Bool-cases (contains v.authority seen || not (verify_authority_vote rt order v s))) [
        | inl skipped ↦ rw skipped (signers_from-IsNodup seen votes)
        | inr counted ↦
            let (distinct, fresh) = signers_from-IsNodup (v.authority ∷ seen) votes in
            rw counted (
              (fresh-ne v.authority seen _ fresh, distinct),
              (
                (or_false (contains v.authority seen) _ counted).0,
                fresh-old v.authority seen _ fresh,
              ),
            )
      ]

  -- Each signer has voted.
  signers_from-HasVoted :
      (seen : List String) (votes : List AuthorityVote)
      → All (HasVoted rt order s votes) (signers_from seen votes)
  unfolding signers_from
  signers_from-HasVoted seen [] = tt
  signers_from-HasVoted seen (v ∷ votes) =
      elim (Bool-cases (contains v.authority seen || not (verify_authority_vote rt order v s))) [
        | inl skipped ↦
            rw skipped
              (HasVoted-later v votes (signers_from seen votes) (signers_from-HasVoted seen votes))
        | inr counted ↦ rw counted (
          inl (refl, (or_false (contains v.authority seen) _ counted).1),
          HasVoted-later v votes (signers_from (v.authority ∷ seen) votes)
              (signers_from-HasVoted (v.authority ∷ seen) votes),
        )
      ]

  pub signers : List AuthorityVote → List String
  signers = signers_from []

  -- The quorum test holds exactly when the distinct authorities that have voted hold more than two
  -- thirds of the units, each counted once with its weight in the snapshot.
  pub has_weighted_quorum-iff_signers :
      (votes : List AuthorityVote)
      → (has_weighted_quorum rt order votes s ≡ true)
        ↔ (s.total_weight_units * 2 < 3 * weight_sum s (signers votes))
  unfolding has_weighted_quorum signers scale
  has_weighted_quorum-iff_signers votes = rw (count_votes-eq [] 0 votes) (ground arith)

  pub signers-IsNodup : (votes : List AuthorityVote) → IsNodup (signers votes)
  unfolding signers
  signers-IsNodup votes = (signers_from-IsNodup [] votes).0

  pub signers-HasVoted :
      (votes : List AuthorityVote) → All (HasVoted rt order s votes) (signers votes)
  unfolding signers
  signers-HasVoted votes = signers_from-HasVoted [] votes
