-- ===== src/Prophet.antt =====
-- `ProphetRouter` (dtn/prophet.py), without its event records and its lock. Its floats are an
-- interface: the operations, and the laws that numbers between 0 and 1 keep under rounding. Values that
-- are not numbers (NaN) are left out.
pub mod Age
pub mod Range
pub mod Replicas
pub mod Selection
use mathlib.Core.Option.{get_or}
use meshpay.Base.{
  ℕ, max, ltb, ltb_ℤ, ◌≡◌, Bool, true, false, not, ◌&&◌, ◌||◌, Option, none, some, String, ℤ, ◌-ℤ◌,
  pos_part, ◌==◌, if◌then◌else◌, List, [], ◌∷◌, contains, filter, take, length, Dict, lookup,
  insert, map,
}
use meshpay.Value.{Value, text, obj, Fields, end, field, get, get_default}
use meshpay.Bundle.{Bundle}
use meshpay.Store.{Store, ids, unknown_to_peer, add_name}

pub record Floats : Type 1 where
  pub Float : Type 0
  pub nought : Float
  pub one : Float
  pub small : Float  -- 0.000001
  pub plus : Float → Float → Float
  pub minus : Float → Float → Float
  pub times : Float → Float → Float
  pub less : Float → Float → Bool
  -- `gamma ** (elapsed / max(interval, 1.0))`
  pub decay : Float → ℕ → ℕ → Float
  -- `float(v)`, unless it raises, and a float as a value
  pub float_of : Value → Option Float
  pub value_of : Float → Value

-- Not less: `y <= x` where both are numbers.
abbrev pub AtLeast : (f : Floats) → f.Float → f.Float → Type 0
AtLeast f x y = f.less x y ≡ false

-- Between 0 and 1.
pub record IsChance (f : Floats) (x : f.Float) : Type 0 where
  pub low : AtLeast f x f.nought
  pub high : AtLeast f f.one x

pub record Prophet (f : Floats) : Type 0 where
  pub node : String
  pub discovery_interval : ℕ
  pub max_bundles_per_exchange : ℕ
  pub p_init : f.Float
  pub beta : f.Float
  pub gamma : f.Float
  pub epsilon : f.Float
  pub replication_budget : ℕ
  pub predictabilities : Dict f.Float
  pub peer_predictabilities : Dict (Dict f.Float)
  pub forwarded_to : Dict (List String)
  pub last_aged_at : ℤ

module _ (f : Floats) where
  -- `_clamp`
  unfoldable pub clamp : f.Float → f.Float
  clamp v =
      let least = if f.less v f.one then v else f.one in
      if f.less f.nought least then least else f.nought

  -- The loop of `_age_predictabilities`.
  unfoldable pub age_all : f.Float → Dict f.Float → Dict f.Float
  age_all factor [] = []
  age_all factor ((node, p) ∷ rest) =
      let aged = f.times p factor in
      if f.less aged f.small then age_all factor rest else (node, aged) ∷ age_all factor rest

  -- `_age_predictabilities`
  unfoldable pub age_predictabilities : ℤ → Prophet f → Prophet f
  age_predictabilities now r =
      let elapsed = pos_part (now -ℤ r.last_aged_at) in
      if not (ltb 0 elapsed) then r else record r {
        predictabilities =
            age_all (f.decay r.gamma elapsed r.discovery_interval) r.predictabilities;
        last_aged_at = now;
      }

  -- `_update_direct`
  unfoldable pub update_direct : String → Prophet f → Prophet f
  update_direct peer r =
      let previous = get_or (lookup peer r.predictabilities) f.nought in
      let updated = f.plus previous (f.times (f.minus f.one previous) r.p_init) in
      record r { predictabilities = insert peer (clamp updated) r.predictabilities }

  -- The body of the loop of `_update_transitive`.
  unfoldable pub update_target :
      f.Float → String → String → f.Float → Prophet f → Dict f.Float → Dict f.Float
  update_target p_peer peer target raw r ps =
      let previous = get_or (lookup target ps) f.nought in
      let gain = f.times (f.times (f.times (f.minus f.one previous) p_peer) (clamp raw)) r.beta in
      let candidate = clamp (f.plus previous gain) in
      if target == r.node || target == peer
      then ps
      else if not (f.less previous candidate)
      then ps
      else insert target candidate ps

  unfoldable pub update_targets :
      f.Float → String → Dict f.Float → Prophet f → Dict f.Float → Dict f.Float
  update_targets p_peer peer [] r ps = ps
  update_targets p_peer peer ((target, raw) ∷ rest) r ps =
      update_targets p_peer peer rest r (update_target p_peer peer target raw r ps)

  -- `_update_transitive`
  unfoldable pub update_transitive : String → Dict f.Float → Prophet f → Prophet f
  update_transitive peer peer_preds r =
      let p_peer = get_or (lookup peer r.predictabilities) f.nought in
      if not (f.less f.nought p_peer) then r else record r {
        predictabilities = update_targets p_peer peer peer_preds r r.predictabilities;
      }

  abbrev pub float_fields : Dict f.Float → Fields
  float_fields [] = end
  float_fields ((k, p) ∷ rest) = field k (f.value_of p) (float_fields rest)

  -- `summary_metadata`
  unfoldable pub summary_metadata : ℤ → Prophet f → Fields × Prophet f
  summary_metadata now r =
      let aged = age_predictabilities now r in
      (
        field "protocol" (text "prophet")
            (field "predictabilities" (obj (float_fields aged.predictabilities)) end),
        aged,
      )

  -- The peer's predictabilities that are numbers.
  unfoldable pub clean_all : Fields → Dict f.Float → Dict f.Float
  clean_all end clean = clean
  clean_all (field target value rest) clean =
      clean_all rest
        (elim (f.float_of value) [ none ↦ clean | some v ↦ insert target (clamp v) clean ])

  -- `peer_preds`; what is no dict counts as an empty one.
  unfoldable pub preds_of : Fields → Fields
  preds_of summary = of_routing (get_default "routing" (obj end) summary)
    where
      of_preds : Value → Fields
      of_preds (obj preds) = preds
      of_preds _ = end

      of_routing : Value → Fields
      of_routing (obj routing) = of_preds (get_default "predictabilities" (obj end) routing)
      of_routing _ = end

  -- `observe_peer_summary`
  unfoldable pub observe_peer_summary : ℤ → String → Fields → Prophet f → Prophet f
  observe_peer_summary now peer summary r =
      let clean = clean_all (preds_of summary) [] in
      let aged = age_predictabilities now r in
      let noted = record aged {
        peer_predictabilities = insert peer clean aged.peer_predictabilities;
      } in
      update_transitive peer clean (update_direct peer noted)

  abbrev pub forwarded : String → Dict (List String) → List String
  forwarded id ds = get_or (lookup id ds) []

  -- `setdefault(bundle_id, set())`
  abbrev pub with_entry : String → Dict (List String) → Dict (List String)
  with_entry id ds = elim (lookup id ds) [ none ↦ insert id [] ds | some _ ↦ ds ]

  -- `_can_replicate`; the dict has an entry for the bundle then.
  unfoldable pub can_replicate :
      Prophet f → Bundle → String → Dict (List String) → Bool × Dict (List String)
  can_replicate r b peer ds =
      if b.dst == peer
      then (true, ds)
      else let peers = forwarded b.bundle_id ds in
        (contains peer peers || ltb (length peers) r.replication_budget, with_entry b.bundle_id ds)

  -- Whether a bundle that may be replicated is selected.
  unfoldable pub is_forwarded : Prophet f → Dict f.Float → String → Bundle → Bool
  is_forwarded r peer_preds peer b =
      let local_score = get_or (lookup b.dst r.predictabilities) f.nought in
      let peer_score = get_or (lookup b.dst peer_preds) f.nought in
      b.dst == peer || f.less (f.plus local_score r.epsilon) peer_score

  -- The loop over the candidates: those selected, and the history.
  unfoldable pub select_loop :
      Prophet f
      → Dict f.Float
      → String
      → List Bundle
      → Dict (List String)
      → List Bundle × Dict (List String)
  select_loop r peer_preds peer [] ds = ([], ds)
  select_loop r peer_preds peer (b ∷ bs) ds =
      let (allowed, ds') = can_replicate r b peer ds in
      let (rest, after) = select_loop r peer_preds peer bs ds' in
      ((if allowed && is_forwarded r peer_preds peer b then b ∷ rest else rest), after)

  -- The loop over what is selected: all but direct deliveries are noted.
  unfoldable pub note_forwarded : String → List Bundle → Dict (List String) → Dict (List String)
  note_forwarded peer [] ds = ds
  note_forwarded peer (b ∷ bs) ds = note_forwarded peer bs (
      if b.dst == peer
      then ds
      else insert b.bundle_id (add_name peer (forwarded b.bundle_id ds)) ds)

-- `sorted(selected, key=lambda item: item[0])`, by `created_at`; the sort is stable.
unfoldable pub insert_by_age : Bundle → List Bundle → List Bundle
insert_by_age b [] = b ∷ []
insert_by_age b (x ∷ xs) =
    if ltb_ℤ x.created_at b.created_at then x ∷ insert_by_age b xs else b ∷ x ∷ xs

unfoldable pub sort_by_age : List Bundle → List Bundle
sort_by_age [] = []
sort_by_age (b ∷ bs) = insert_by_age b (sort_by_age bs)

-- The history of bundles that are gone is dropped.
unfoldable pub keep_history : List String → Dict (List String) → Dict (List String)
keep_history current [] = []
keep_history current ((id, peers) ∷ rest) =
    if contains id current
    then (id, peers) ∷ keep_history current rest
    else keep_history current rest

module _ (f : Floats) where
  -- `select_bundles_for_peer`, after the candidates have been found.
  unfoldable pub select_from :
      String → List String → List Bundle → Prophet f → List Bundle × Prophet f
  select_from peer current candidates r =
      let peer_preds = get_or (lookup peer r.peer_predictabilities) [] in
      let history = keep_history current r.forwarded_to in
      let (chosen, noted) = select_loop f r peer_preds peer candidates history in
      let bundles = take r.max_bundles_per_exchange (sort_by_age chosen) in
      (bundles, record r { forwarded_to = note_forwarded f peer bundles noted })

  -- `select_bundles_for_peer`, from a snapshot of the store or from the store itself.
  unfoldable pub select_bundles_for_peer :
      ℤ
      → List String
      → String
      → Option (List Bundle)
      → Prophet f
      → Store
      → (List Bundle × Prophet f) × Store
  select_bundles_for_peer now known peer (some local) r st = (
    select_from peer (map (λ b. b.bundle_id) local)
        (filter (λ b. not (contains b.bundle_id known)) local) (age_predictabilities f now r),
    st,
  )
  select_bundles_for_peer now known peer none r st =
      let (current, st1) = ids now st in
      let (candidates, st2) = unknown_to_peer now known (some peer) none st1 in
      (select_from peer current candidates (age_predictabilities f now r), st2)
