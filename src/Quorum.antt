-- ===== src/Quorum.antt =====
-- Votes and quorums: meshpay/offline/quorum.py, and `WeightSnapshot` of
-- meshpay/offline/weighted_quorum.py.
pub mod Signers
pub mod Overlap
use meshpay.Base.{
  ℕ, ◌+◌, ◌*◌, ◌/◌, Bool, true, false, not, ◌||◌, Option, none, some, String, ℤ, pos, pos_part,
  ◌+ℤ◌, scale, ltb_ℤ, leb_ℤ, eq_ℤ, ◌==◌, if◌then◌else◌, List, [], ◌∷◌, Dict, lookup, contains,
}
use meshpay.Value.{Value, int, text, obj, Fields, end, field}
use meshpay.Runtime.{Runtime, verify_signature}
use meshpay.Transaction.Transfer.{TransferOrder, signing_dict}
use meshpay.Transaction.Vote.{AuthorityVote}
use mathlib.Core.Option.{get_or}

pub record WeightSnapshot : Type 0 where
  pub epoch : ℕ
  pub committee : List String
  pub committee_digest : String
  pub weights : Dict ℕ
  pub total_weight_units : ℕ

-- `WeightSnapshot.weight_for`
abbrev pub weight_for : WeightSnapshot → String → ℕ
weight_for s authority = get_or (lookup authority s.weights) 0

module _ (rt : Runtime) where
  -- `authority_vote_signing_dict`
  unfoldable pub authority_vote_signing_dict : TransferOrder → String → ℤ → ℤ → ℤ → String → Fields
  authority_vote_signing_dict order authority epoch weight_units total_weight_units
        committee_digest =
      field "transfer_order" (obj (signing_dict rt order)) (
        field "authority" (text authority) (
          field "epoch" (int epoch) (
            field "weight_units" (int weight_units) (
              field "total_weight_units" (int total_weight_units)
                (field "committee_digest" (text committee_digest) end)))))

  -- `verify_authority_vote`
  unfoldable pub verify_authority_vote : TransferOrder → AuthorityVote → WeightSnapshot → Bool
  verify_authority_vote order vote snapshot =
      if not (contains vote.authority snapshot.committee)
      then false
      else if not (eq_ℤ vote.epoch (pos snapshot.epoch))
          || not (vote.committee_digest == snapshot.committee_digest)
      then false
      else if not (eq_ℤ vote.total_weight_units (pos snapshot.total_weight_units))
      then false
      else if not (eq_ℤ vote.weight_units (pos (weight_for snapshot vote.authority)))
      then false
      else verify_signature rt vote.authority
          (authority_vote_signing_dict order vote.authority vote.epoch vote.weight_units
            vote.total_weight_units vote.committee_digest)
          (some vote.signature)

  -- The loop of `has_weighted_quorum`, over the names seen and the units added up so far.
  unfoldable pub count_votes :
      TransferOrder → WeightSnapshot → List String → ℤ → List AuthorityVote → ℤ
  count_votes order snapshot seen total [] = total
  count_votes order snapshot seen total (vote ∷ votes) =
      let skipped =
        contains vote.authority seen || not (verify_authority_vote order vote snapshot) in
      count_votes order snapshot (if skipped then seen else vote.authority ∷ seen)
        (if skipped then total else total +ℤ vote.weight_units) votes

  -- `has_weighted_quorum`
  unfoldable pub has_weighted_quorum : TransferOrder → List AuthorityVote → WeightSnapshot → Bool
  unfolding count_votes
  has_weighted_quorum order votes snapshot =
      ltb_ℤ (pos (snapshot.total_weight_units * 2))
        (scale 3 (count_votes order snapshot [] (pos 0) votes))

-- `quorum_threshold`
pub quorum_threshold : ℤ → ℕ
quorum_threshold committee_size =
    if leb_ℤ committee_size (pos 0) then 1 else pos_part committee_size * 2 / 3 + 1
