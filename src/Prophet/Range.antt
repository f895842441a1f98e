-- ===== src/Prophet/Range.antt =====
-- The delivery predictabilities are chances, and an encounter raises them.
use meshpay.Base.{
  All-insert, ℕ, ltb, ◌≡◌, sym, true, false, String, ℤ, ◌-ℤ◌, pos_part, ◌==◌, eq_iff, if◌then◌else◌,
  [], ◌∷◌, All, Dict, lookup, insert, lookup-insert, arith, Bool-cases, Option-cases, inl, inr, ◌⊎◌,
}
use mathlib.Core.Option.{get_or}
use mathlib.Core.Path.{subst}
use meshpay.Value.{Fields, end, field}
use meshpay.Prophet.{
  Floats, AtLeast, IsChance, Prophet, clamp, age_all, age_predictabilities, update_direct,
  update_target, update_targets, update_transitive, clean_all, preds_of, observe_peer_summary,
}

-- What the code relies on of floats that are numbers: the order, and that rounding does not carry a
-- product, a sum or a power past its bound.
pub record FloatLaws (f : Floats) : Type 0 where
  pub one_pos : f.less f.nought f.one ≡ true
  pub less_asym : (x y : f.Float) → f.less x y ≡ true → f.less y x ≡ false
  pub at_least_trans : (x y z : f.Float) → AtLeast f x y → AtLeast f y z → AtLeast f x z
  pub times_low :
      (x y : f.Float)
      → AtLeast f x f.nought
      → AtLeast f y f.nought
      → AtLeast f (f.times x y) f.nought
  pub times_high : (x y : f.Float) → AtLeast f x f.nought → IsChance f y → AtLeast f x (f.times x y)
  pub minus_low : (x : f.Float) → AtLeast f f.one x → AtLeast f (f.minus f.one x) f.nought
  pub plus_high : (x y : f.Float) → AtLeast f y f.nought → AtLeast f (f.plus x y) x
  pub decay_chance : (g : f.Float) (e i : ℕ) → IsChance f g → IsChance f (f.decay g e i)

module _ (f : Floats) (laws : FloatLaws f) where
  AtLeast-refl : (x : f.Float) → AtLeast f x x
  AtLeast-refl x = ground (arith, laws.less_asym x x)

  clamp-IsChance : (v : f.Float) → IsChance f (clamp f v)
  unfolding clamp
  clamp-IsChance v = record { low = ground (arith, facts); high = ground (arith, facts) }
    where
      facts :
          (f.less v f.one ≡ true → f.less f.one v ≡ false)
          × (f.less f.nought v ≡ true → f.less v f.nought ≡ false)
          × (f.less f.nought f.one ≡ true)
          × (f.less f.one f.nought ≡ false)
          × (f.less f.one f.one ≡ false)
          × (f.less f.nought f.nought ≡ false)
      facts = (
        laws.less_asym v f.one,
        laws.less_asym f.nought v,
        laws.one_pos,
        laws.less_asym f.nought f.one laws.one_pos,
        AtLeast-refl f.one,
        AtLeast-refl f.nought,
      )

  -- A chance that is no larger than a value is no larger than the value clamped.
  clamp-high : (p v : f.Float) → IsChance f p → AtLeast f v p → AtLeast f (clamp f v) p
  unfolding clamp
  clamp-high p v chance h = elim (Bool-cases (f.less v f.one)) [
    | inl below ↦ rw below (above v h)
    | inr beyond ↦ rw beyond (above f.one chance.high)
  ]
    where
      above :
          (w : f.Float) → AtLeast f w p → AtLeast f (if f.less f.nought w then w else f.nought) p
      above w wp = elim (Bool-cases (f.less f.nought w)) [
        | inl positive ↦ rw positive wp
        | inr zero_or_less ↦ rw zero_or_less (laws.at_least_trans f.nought w p zero_or_less wp)
      ]

  nought-IsChance : IsChance f f.nought
  nought-IsChance = record {
    low = AtLeast-refl f.nought;
    high = laws.less_asym f.nought f.one laws.one_pos;
  }

  abbrev pub AreChances : Dict f.Float → Type 0
  AreChances ps = All (λ e. IsChance f e.1) ps

  lookup-IsChance :
      (k : String) (ps : Dict f.Float) → AreChances ps → IsChance f (get_or (lookup k ps) f.nought)
  lookup-IsChance k [] h = nought-IsChance
  lookup-IsChance k ((j, p) ∷ ps) (chance, h) = elim (Bool-cases (j == k)) [
    | inl here ↦ rw here chance
    | inr there ↦ rw there (lookup-IsChance k ps h)
  ]

  times-IsChance : (p q : f.Float) → IsChance f p → IsChance f q → IsChance f (f.times p q)
  times-IsChance p q cp cq = record {
    low = laws.times_low p q cp.low cq.low;
    high = laws.at_least_trans f.one p (f.times p q) cp.high (laws.times_high p q cp.low cq);
  }

  age_all-AreChances :
      (factor : f.Float) (ps : Dict f.Float)
      → IsChance f factor
      → AreChances ps
      → AreChances (age_all f factor ps)
  unfolding age_all
  age_all-AreChances factor [] cf h = tt
  age_all-AreChances factor ((k, p) ∷ ps) cf (cp, h) =
      elim (Bool-cases (f.less (f.times p factor) f.small)) [
        | inl gone ↦ rw gone (age_all-AreChances factor ps cf h)
        | inr stays ↦ rw stays (times-IsChance p factor cp cf, age_all-AreChances factor ps cf h)
      ]

  -- Every predictability, its own and the peers', is a chance, and so are `p_init` and `gamma`.
  pub record IsSane (r : Prophet f) : Type 0 where
    pub aging : IsChance f r.gamma
    pub first : IsChance f r.p_init
    pub own : AreChances r.predictabilities
    pub of_peers : All (λ e. AreChances e.1) r.peer_predictabilities

  pub age_predictabilities-IsSane :
      (now : ℤ) (r : Prophet f) → IsSane r → IsSane (age_predictabilities f now r)
  unfolding age_predictabilities
  age_predictabilities-IsSane now r h =
      let elapsed = pos_part (now -ℤ r.last_aged_at) in
      elim (Bool-cases (ltb 0 elapsed)) [
        | inr none_yet ↦ rw none_yet h
        | inl some_time ↦ rw some_time (record {
          aging = h.aging;
          first = h.first;
          own =
              age_all-AreChances (f.decay r.gamma elapsed r.discovery_interval) r.predictabilities
                (laws.decay_chance r.gamma elapsed r.discovery_interval h.aging) h.own;
          of_peers = h.of_peers;
        })
      ]

  update_direct-IsSane :
      (peer : String) (r : Prophet f) → IsSane r → IsSane (update_direct f peer r)
  unfolding update_direct
  update_direct-IsSane peer r h = record {
    aging = h.aging;
    first = h.first;
    own = All-insert (IsChance f) peer _ r.predictabilities (clamp-IsChance _) h.own;
    of_peers = h.of_peers;
  }

  module _ (p_peer : f.Float) (peer : String) (r : Prophet f) where
    -- The candidate for a target.
    abbrev candidate : f.Float → f.Float → f.Float
    candidate previous raw = clamp f (
        f.plus previous
          (f.times (f.times (f.times (f.minus f.one previous) p_peer) (clamp f raw)) r.beta))

    update_target-cases :
        (target : String) (raw : f.Float) (ps : Dict f.Float)
        → (update_target f p_peer peer target raw r ps ≡ ps)
          ⊎ ((f.less
                  (get_or (lookup target ps) f.nought)
                  (candidate (get_or (lookup target ps) f.nought) raw)
                ≡ true)
              × (update_target f p_peer peer target raw r ps
                  ≡ insert target (candidate (get_or (lookup target ps) f.nought) raw) ps))
    unfolding update_target
    update_target-cases target raw ps = ground arith

    update_target-AreChances :
        (target : String) (raw : f.Float) (ps : Dict f.Float)
        → AreChances ps
        → AreChances (update_target f p_peer peer target raw r ps)
    update_target-AreChances target raw ps h = elim (update_target-cases target raw ps) [
      | inl same ↦ subst AreChances (sym same) h
      | inr (_, e) ↦
          subst AreChances (sym e) (All-insert (IsChance f) target _ ps (clamp-IsChance _) h)
    ]

    update_targets-AreChances :
        (preds ps : Dict f.Float)
        → AreChances ps
        → AreChances (update_targets f p_peer peer preds r ps)
    unfolding update_targets
    update_targets-AreChances [] ps h = h
    update_targets-AreChances ((target, raw) ∷ rest) ps h =
        update_targets-AreChances rest _ (update_target-AreChances target raw ps h)

    -- The predictability of a target.
    abbrev chance : String → Dict f.Float → f.Float
    chance t ps = get_or (lookup t ps) f.nought

    chance-insert :
        (t k : String) (p : f.Float) (ps : Dict f.Float)
        → AtLeast f p (chance k ps)
        → AtLeast f (chance t (insert k p ps)) (chance t ps)
    chance-insert t k p ps h =
        ground (arith, lookup-insert k t p ps, eq_iff k t, h, AtLeast-refl (chance t ps))

    update_target-raises :
        (t target : String) (raw : f.Float) (ps : Dict f.Float)
        → AtLeast f (chance t (update_target f p_peer peer target raw r ps)) (chance t ps)
    update_target-raises t target raw ps = elim (update_target-cases target raw ps) [
      | inl same ↦
          subst (λ qs. AtLeast f (chance t qs) (chance t ps)) (sym same)
            (AtLeast-refl (chance t ps))
      | inr (higher, e) ↦
          subst (λ qs. AtLeast f (chance t qs) (chance t ps)) (sym e)
            (chance-insert t target _ ps (laws.less_asym _ _ higher))
    ]

    update_targets-raises :
        (t : String) (preds ps : Dict f.Float)
        → AtLeast f (chance t (update_targets f p_peer peer preds r ps)) (chance t ps)
    unfolding update_targets
    update_targets-raises t [] ps = AtLeast-refl (chance t ps)
    update_targets-raises t ((target, raw) ∷ rest) ps =
        laws.at_least_trans _ _ _ (update_targets-raises t rest _)
          (update_target-raises t target raw ps)

  clean_all-AreChances :
      (fs : Fields) (clean : Dict f.Float) → AreChances clean → AreChances (clean_all f fs clean)
  unfolding clean_all
  clean_all-AreChances end clean h = h
  clean_all-AreChances (field target value rest) clean h = elim (Option-cases (f.float_of value)) [
    | inl no_number ↦ rw no_number (clean_all-AreChances rest clean h)
    | inr (v, number) ↦
        rw number (
          clean_all-AreChances rest _ (All-insert (IsChance f) target _ clean (clamp-IsChance v) h))
  ]

  -- The predictability of a node, 0 where there is none.
  abbrev pub chance_of : String → Prophet f → f.Float
  chance_of t r = get_or (lookup t r.predictabilities) f.nought

  update_direct-raises :
      (t peer : String) (r : Prophet f)
      → IsChance f r.p_init
      → AreChances r.predictabilities
      → AtLeast f (chance_of t (update_direct f peer r)) (chance_of t r)
  unfolding update_direct
  update_direct-raises t peer r init h =
      let previous = get_or (lookup peer r.predictabilities) f.nought in
      let before = lookup-IsChance peer r.predictabilities h in
      let gain = f.times (f.minus f.one previous) r.p_init in
      chance-insert r.p_init peer r t peer _ r.predictabilities (
        clamp-high previous (f.plus previous gain) before (
          laws.plus_high previous gain (
            laws.times_low (f.minus f.one previous) r.p_init (laws.minus_low previous before.high)
              init.low)))

  update_transitive-lem :
      (t peer : String) (preds : Dict f.Float) (r : Prophet f)
      → IsSane r
      → IsSane (update_transitive f peer preds r)
        × AtLeast f (chance_of t (update_transitive f peer preds r)) (chance_of t r)
  unfolding update_transitive
  update_transitive-lem t peer preds r h =
      let p_peer = get_or (lookup peer r.predictabilities) f.nought in
      elim (Bool-cases (f.less f.nought p_peer)) [
        | inr no_chance ↦ rw no_chance (h, AtLeast-refl (chance_of t r))
        | inl some_chance ↦ rw some_chance (
          record {
            aging = h.aging;
            first = h.first;
            own = update_targets-AreChances p_peer peer r preds r.predictabilities h.own;
            of_peers = h.of_peers;
          },
          update_targets-raises p_peer peer r t preds r.predictabilities,
        )
      ]

  -- An encounter keeps every predictability, the node's own and those it has of its peers, between 0
  -- and 1, whatever the peer's summary says, where `p_init` and `gamma` are between them, and lowers
  -- none but by aging: each is at least what it is aged to this time.
  pub observe_peer_summary-chances :
      (now : ℤ) (peer : String) (summary : Fields) (r : Prophet f)
      → IsSane r
      → IsSane (observe_peer_summary f now peer summary r)
        × ((t : String)
            → AtLeast f
                (chance_of t (observe_peer_summary f now peer summary r))
                (chance_of t (age_predictabilities f now r)))
  unfolding observe_peer_summary
  observe_peer_summary-chances now peer summary r h =
      let clean = clean_all f (preds_of f summary) [] in
      let aged = age_predictabilities f now r in
      let sane = age_predictabilities-IsSane now r h in
      let noted : Prophet f = record aged {
        peer_predictabilities = insert peer clean aged.peer_predictabilities;
      } in
      let noted_sane : IsSane noted = record {
        aging = sane.aging;
        first = sane.first;
        own = sane.own;
        of_peers =
            All-insert AreChances peer clean aged.peer_predictabilities
              (clean_all-AreChances (preds_of f summary) [] tt) sane.of_peers;
      } in
      let direct = update_direct f peer noted in
      let direct_sane = update_direct-IsSane peer noted noted_sane in
      (
        (update_transitive-lem peer peer clean direct direct_sane).0,
        λ t.
            laws.at_least_trans _ _ _ (update_transitive-lem t peer clean direct direct_sane).1
              (update_direct-raises t peer noted noted_sane.first noted_sane.own),
      )
