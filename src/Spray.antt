-- ===== src/Spray.antt =====
-- The routing policies of dtn/spray_and_wait.py and dtn/epidemic.py. The base class, which finds
-- peers and exchanges bundles, is left out, and so are its event records.
pub mod Copies
use mathlib.Core.Option.{get_or}
use meshpay.Base.{
  ℕ, suc, ◌+◌, ◌-◌, ◌/◌, max, ltb, leb, Bool, true, false, not, Option, none, some, String, ℤ, pos,
  negsuc, ◌==◌, if◌then◌else◌, List, [], ◌∷◌, contains, filter, take, length, Dict, lookup, insert,
  erase, map,
}
use meshpay.Bundle.{Bundle}
use meshpay.Store.{Store, ids, unknown_to_peer, all}

-- `SprayAndWaitRouter`'s own state. The copies that are pending for peers, which the code keeps under
-- pairs of a peer and a bundle id, are a dict for each peer here.
pub record Router : Type 0 where
  pub node : String
  pub initial_copies : ℕ
  pub max_bundles_per_exchange : ℕ
  pub copies : Dict ℕ
  pub pending_peer_copies : Dict (Dict ℕ)

-- `_ensure_copies`: the copies, and the dict that has them.
unfoldable pub ensure_copies : Router → Bundle → Dict ℕ → ℕ × Dict ℕ
ensure_copies r b copies = elim (lookup b.bundle_id copies) [
  | some n ↦ (n, copies)
  | none ↦
      let n = if b.src == r.node then r.initial_copies else 1 in (n, insert b.bundle_id n copies)
]

-- The body of the loop over the candidates: the dict of copies, and what the peer is assigned if the
-- bundle is selected.
unfoldable pub assign : Router → String → Bundle → Dict ℕ → Dict ℕ × Option ℕ
assign r peer b copies =
    let (n, copies') = ensure_copies r b copies in
    if b.dst == peer
    then (copies', some (max 1 n))
    else if ltb 1 n
    then (insert b.bundle_id (n - n / 2) copies', some (n / 2))
    else (copies', none)

-- What the loop ends with: the bundles, the copies left, and those pending for the peer.
pub record Selection : Type 0 where
  pub selected : List Bundle
  pub left : Dict ℕ
  pub pending : Dict ℕ

-- A bundle that is assigned copies is selected, and the copies are pending for the peer.
abbrev pub counted : Option ℕ → ℕ → ℕ
counted none count = count
counted (some _) count = suc count

abbrev pub noted : Bundle → Option ℕ → Dict ℕ → Dict ℕ
noted b none pending = pending
noted b (some n) pending = insert b.bundle_id n pending

abbrev pub chosen : Bundle → Option ℕ → Selection → Selection
chosen b none s = s
chosen b (some _) s = record s { selected = b ∷ s.selected }

-- The loop over the candidates, with the bundles selected so far counted.
unfoldable pub select_loop : Router → String → ℕ → Dict ℕ → Dict ℕ → List Bundle → Selection
select_loop r peer count copies pending [] = record {
  selected = [];
  left = copies;
  pending = pending;
}
select_loop r peer count copies pending (b ∷ rest) =
    let (copies', assigned) = assign r peer b copies in
    let count' = counted assigned count in
    let pending' = noted b assigned pending in
    let more = select_loop r peer count' copies' pending' rest in
    chosen b assigned (
      if leb r.max_bundles_per_exchange count'
      then record { selected = []; left = copies'; pending = pending' }
      else more)

-- Copies of bundles that are gone are dropped.
unfoldable pub keep_ids : List String → Dict ℕ → Dict ℕ
keep_ids current [] = []
keep_ids current ((id, n) ∷ rest) =
    if contains id current then (id, n) ∷ keep_ids current rest else keep_ids current rest

abbrev pub bundle_ids : List Bundle → List String
bundle_ids bs = map (λ b. b.bundle_id) bs

-- `select_bundles_for_peer` of `SprayAndWaitRouter`, after the candidates have been found.
unfoldable pub select_from : Router → String → List String → List Bundle → List Bundle × Router
select_from r peer current candidates =
    let s = select_loop r peer 0 (keep_ids current r.copies) [] candidates in
    (
      s.selected,
      record r {
        copies = s.left;
        pending_peer_copies = insert peer s.pending (erase peer r.pending_peer_copies);
      },
    )

-- `select_bundles_for_peer`, from a snapshot of the store or from the store itself.
unfoldable pub select_bundles_for_peer :
    ℤ
    → List String
    → String
    → Option (List Bundle)
    → Router
    → Store
    → (List Bundle × Router) × Store
select_bundles_for_peer now known peer (some local) r st = (
  select_from r peer (bundle_ids local) (filter (λ b. not (contains b.bundle_id known)) local),
  st,
)
select_bundles_for_peer now known peer none r st =
    let (current, st1) = ids now st in
    let (candidates, st2) = unknown_to_peer now known (some peer) none st1 in
    (select_from r peer current candidates, st2)

-- The copies that `bundle_to_wire` writes beside the bundle.
unfoldable pub wire_copies : Router → Bundle → String → ℕ
wire_copies r b peer =
    max 1 (get_or (lookup b.bundle_id (get_or (lookup peer r.pending_peer_copies) [])) 1)

-- `on_bundle_received`, with the number in the metadata, if there is any.
unfoldable pub on_bundle_received : Bundle → Option ℤ → Bool → Router → Router
on_bundle_received b metadata stored r = if not stored then r else record r {
  copies =
      insert b.bundle_id (elim metadata [ none ↦ 1 | some (pos n) ↦ max 1 n | some (negsuc _) ↦ 1 ])
        r.copies;
}

-- `select_bundles_for_peer` of `EpidemicRouter`, with the limit of an exchange.
unfoldable pub select_epidemic :
    ℤ → ℕ → List String → Option (List Bundle) → Store → List Bundle × Store
select_epidemic now limit known (some local) st =
    (take limit (filter (λ b. not (contains b.bundle_id known)) local), st)
select_epidemic now limit known none st =
    let (bundles, st') = all now st in
    (take limit (filter (λ b. not (contains b.bundle_id known)) bundles), st')
