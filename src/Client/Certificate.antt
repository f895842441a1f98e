-- ===== src/Client/Certificate.antt =====
-- A client's certificate and the authorities' test of it.
use meshpay.Base.{◌≡◌, refl, true, false, some, eq_refl, ℤ, scale, List, [], ◌∷◌, arith}
use meshpay.Runtime.{Runtime}
use meshpay.Transaction.Transfer.{TransferOrder}
use meshpay.Transaction.Vote.{AuthorityVote}
use meshpay.Quorum.{WeightSnapshot, has_weighted_quorum, count_votes}
use meshpay.Authority.{is_certified, all_verify, no_votes}
use meshpay.Client.{certificate}

module _ (rt : Runtime) (s : WeightSnapshot) (pending : TransferOrder) where
  quorum-no_votes :
      (votes : List AuthorityVote)
      → has_weighted_quorum rt pending votes s ≡ true
      → no_votes rt votes ≡ false
  unfolding has_weighted_quorum count_votes scale
  quorum-no_votes [] h = absurd (ground arith)
  quorum-no_votes (v ∷ votes) h = refl

  -- Where every collected vote verifies for the pending order and their weight is a quorum, the
  -- confirmation that the client builds passes the tests of whoever has the same snapshot.
  pub certificate-is_certified :
      (now : ℤ) (votes : List AuthorityVote)
      → all_verify rt pending s votes ≡ true
      → has_weighted_quorum rt pending votes s ≡ true
      → is_certified rt (certificate rt now pending votes s) (some s) ≡ true
  unfolding is_certified certificate
  certificate-is_certified now votes verified quorum =
      ground (arith, eq_refl s.committee_digest, quorum-no_votes votes quorum, verified, quorum)
