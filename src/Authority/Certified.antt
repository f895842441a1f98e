-- ===== src/Authority/Certified.antt =====
-- The votes behind an applied confirmation.
use meshpay.Base.{
  ◌*◌, ◌<◌, ◌≡◌, refl, ap, ◌∙◌, true, Option, none, some, String, ℤ, arith, List, All, IsNodup,
}
use meshpay.Value.{ok}
use meshpay.Runtime.{Runtime}
use meshpay.Transaction.Confirmation.{ConfirmationOrder}
use meshpay.Quorum.{WeightSnapshot, has_weighted_quorum}
use meshpay.Quorum.Signers.{
  signers, HasVoted, weight_sum, has_weighted_quorum-iff_signers, signers-IsNodup, signers-HasVoted,
}
use meshpay.Registry.{RegistryFile, snapshot_for_epoch}
use meshpay.Authority.{is_certified, handle_confirmation}
use meshpay.Authority.Monad.{World}
use meshpay.Authority.Confirm.{yes-applied}

certified-quorum :
    (rt : Runtime) (c : ConfirmationOrder) (found : Option WeightSnapshot)
    → is_certified rt c found ≡ true
    → (s : WeightSnapshot) × (found ≡ some s)
      × (has_weighted_quorum rt c.transfer_order c.authority_votes s ≡ true)
unfolding is_certified
certified-quorum rt c none h = absurd (ground arith)
certified-quorum rt c (some s) h = (s, refl, ground arith)

-- A yes rests on a quorum: under the snapshot that the registry has for the confirmation's epoch,
-- distinct authorities whose votes for the order verify hold more than two thirds of the units.
pub handle_confirmation-certified :
    (rt : Runtime) (now : ℤ) (c : ConfirmationOrder) (w w' : World)
    → handle_confirmation rt now c w ≡ (ok true, w')
    → (s : WeightSnapshot) × (file' : RegistryFile) × (names : List String) × (snapshot_for_epoch rt
          w.node.registry c.quorum_epoch w.file
        ≡ ok (some s, file'))
      × IsNodup names
      × All (HasVoted rt c.transfer_order s c.authority_votes) names
      × (s.total_weight_units * 2 < 3 * weight_sum s names)
handle_confirmation-certified rt now c w w' accepted =
    let (file', p, to_applied) = yes-applied rt now c w w' accepted in
    let (s, found, quorum) = certified-quorum rt c p.snapshot p.certified in
    (
      s,
      file',
      signers rt c.transfer_order s c.authority_votes,
      p.looked_up ∙ ap (λ o. ok (o, file')) found,
      signers-IsNodup rt c.transfer_order s c.authority_votes,
      signers-HasVoted rt c.transfer_order s c.authority_votes,
      (has_weighted_quorum-iff_signers rt c.transfer_order s c.authority_votes).0 quorum,
    )
