-- ===== src/Examples/Votes.antt =====
-- Four authorities with equal weights.
use meshpay.Base.{
  ℕ, ◌*◌, ◌<◌, ◌≡◌, refl, ◌↔◌, true, none, some, String, pos, ◌+ℤ◌, scale, List, [], ◌∷◌, All,
  IsNodup, Dict, sum_values, keys, unique, sort_names, arith,
}
use meshpay.Value.{ok, err, value_error}
use meshpay.Runtime.{verify_signature, sign_payload, canonical_json}
use meshpay.Quorum.{WeightSnapshot, verify_authority_vote, has_weighted_quorum, count_votes}
use meshpay.Quorum.Signers.{HasVoted, weight_sum, signers, has_weighted_quorum-iff_signers}
use meshpay.Quorum.Overlap.{quorum_overlap}
use meshpay.Weights.{total_weight_units, allocate_weights, power_cap}
use meshpay.Weights.Settle.{IsCapped}
use meshpay.Weights.Allocate.{allocate_weights-pays}
use meshpay.Registry.{RegistryState, committee_digest, record_finalization}
use meshpay.Registry.Finalize.{Records, record_finalization-Records}
use meshpay.Authority.Monad.{World}
use meshpay.Authority.Refresh.{IsReady}
use meshpay.Authority.Solvent.{IsSolvent}
use meshpay.Authority.Start.{new_authority, new_authority-IsReady, AreOpened}
use meshpay.Examples.{
  python, four, quarters, registry, first_state, to_bob, to_eve, three_votes, other_votes,
}
use meshpay.Examples.Ready.{registry-IsRegistry, four-IsNodup, first_state-IsValid}

bob_quorum : has_weighted_quorum python to_bob three_votes quarters ≡ true
unfolding has_weighted_quorum count_votes verify_authority_vote verify_signature sign_payload
    canonical_json scale ◌+ℤ◌
bob_quorum = refl

eve_quorum : has_weighted_quorum python to_eve other_votes quarters ≡ true
unfolding has_weighted_quorum count_votes verify_authority_vote verify_signature sign_payload
    canonical_json scale ◌+ℤ◌
eve_quorum = refl

has_weighted_quorum-iff_signers_example :
    (has_weighted_quorum python to_bob three_votes quarters ≡ true)
    ↔ (1_000_000 * 2 < 3 * weight_sum quarters (signers python to_bob quarters three_votes))
has_weighted_quorum-iff_signers_example =
    has_weighted_quorum-iff_signers python to_bob quarters three_votes

quorum_overlap_example :
    (common : List String) × IsNodup common
    × All (HasVoted python to_bob quarters three_votes) common
    × All (HasVoted python to_eve quarters other_votes) common
    × (1_000_000 < 3 * weight_sum quarters common)
quorum_overlap_example =
    quorum_overlap python quarters to_bob to_eve three_votes other_votes refl bob_quorum eve_quorum

allocate_weights-pays_example :
    (weights : Dict ℕ) × (allocate_weights four 300_000 (("a", 7) ∷ ("c", 1) ∷ []) ≡ some weights)
    × (sum_values weights ≡ total_weight_units)
    × IsCapped (power_cap 4 300_000) weights
    × (keys weights ≡ four)
allocate_weights-pays_example =
    allocate_weights-pays four 300_000 (("a", 7) ∷ ("c", 1) ∷ []) (omega arith) four-IsNodup

record_finalization-Records_example :
    (s : WeightSnapshot) × (st' : RegistryState) × (record_finalization python registry "xxx"
        ("b" ∷ "a" ∷ "b" ∷ [])
        (some first_state)
      ≡ ok (s, some st'))
    × Records python registry first_state st' "xxx" (sort_names (unique ("b" ∷ "a" ∷ "b" ∷ []))) s
record_finalization-Records_example =
    record_finalization-Records python registry "xxx" ("b" ∷ "a" ∷ "b" ∷ []) first_state
      registry-IsRegistry first_state-IsValid (omega arith) (refl, (refl, (refl, tt)))

new_authority-IsReady_example :
    (w : World) × (new_authority python
        (pos 1)
        "a"
        ("b" ∷ "a" ∷ "b" ∷ [])
        (("ann", pos 100) ∷ [])
        2
        300_000
        none
      ≡ ok w)
    × IsReady python w
    × IsSolvent w.node.accounts
    × AreOpened (pos 1) (("ann", pos 100) ∷ []) w.node.accounts
new_authority-IsReady_example =
    new_authority-IsReady ("b" ∷ "a" ∷ "b" ∷ []) 2 300_000 (omega arith) (refl, (refl, (refl, tt)))
      (omega arith) (omega arith) (omega arith) python (pos 1) "a" (("ann", pos 100) ∷ []) none tt
      (refl, tt) (tt, tt)

accented_name-raises :
    committee_digest python (record registry { committee = "é" ∷ [] }) ≡ err value_error
accented_name-raises = refl
