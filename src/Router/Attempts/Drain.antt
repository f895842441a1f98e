-- ===== src/Router/Attempts/Drain.antt =====
-- Exchanges that have begun can end.
use meshpay.Base.{ℕ, ◌<◌, ◌≡◌, refl, false, List, [], ◌∷◌, arith, ◌⊎◌, inl, inr, ap}
use meshpay.Router.Attempts.{
  Config, Peer, has_peer, Phase, admitted, holding, leaving, Thread, thread, System, Step, slots,
  Reach, later, acquire, defer, finish, release,
}
use meshpay.Router.Attempts.Backoff.{failure}
use meshpay.Router.Attempts.Slots.{exchanges_with, slots_held, unmarked, Reach-Inv}

-- Steps one after the other.
pub data Steps (c : Config) (s : System) : System → Type 0 where
  stay : Steps c s s
  move : {t u : System} → Steps c s t → Step c t u → Steps c s u

pub record IsQuiet (c : Config) (s : System) : Type 0 where
  pub no_threads : s.threads ≡ []
  pub all_free : s.free_slots ≡ slots c
  pub none_active : (k : Peer) → has_peer k s.attempts.active_exchanges ≡ false

join : {c : Config} {s t u : System} → Steps c s t → Steps c t u → Steps c s u
join first stay = first
join first (move rest st) = move (join first rest) st

Steps-Reach : {c : Config} {s t : System} → Steps c s t → Reach c s → Reach c t
Steps-Reach stay r = r
Steps-Reach (move first st) r = later (Steps-Reach first r) st

-- The first thread ends, from the phase on in which it is.
abbrev Ends : Config → List Thread → System → Type 0
Ends c ts s = (t : System) × Steps c s t × (t.threads ≡ ts)

after : {c : Config} {s u : System} {ts : List Thread} → Step c s u → Ends c ts u → Ends c ts s
after st (t, rest, same) = (t, join (move stay st) rest, same)

module _ (c : Config) (k : Peer) (ts : List Thread) where
  end_leaving : (s : System) → s.threads ≡ thread k leaving ∷ ts → Ends c ts s
  end_leaving s at = after (release k [] ts at) (_, stay, refl)

  end_holding : (s : System) → s.threads ≡ thread k holding ∷ ts → Ends c ts s
  end_holding s at =
      after
        (finish k 0 failure [] ts at
          (record { attempted = refl; short = omega arith; long = omega arith }))
        (end_leaving _ refl)

  end_admitted : (s : System) → s.threads ≡ thread k admitted ∷ ts → Ends c ts s
  end_admitted s at = elim (free_or_not s.free_slots) [
    | inl full ↦ after (defer k 0 [] ts at full) (_, stay, refl)
    | inr free ↦ after (acquire k [] ts at free) (end_holding _ refl)
  ]
    where
      free_or_not : (n : ℕ) → (n ≡ 0) ⊎ (0 < n)
      free_or_not n = ground arith

end_first :
    (c : Config) (k : Peer) (p : Phase) (ts : List Thread) (s : System)
    → s.threads ≡ thread k p ∷ ts
    → Ends c ts s
end_first c k admitted = end_admitted c k
end_first c k holding = end_holding c k
end_first c k leaving = end_leaving c k

end_all : (c : Config) (ts : List Thread) (s : System) → s.threads ≡ ts → Ends c [] s
end_all c [] s at = (s, stay, at)
end_all c (x ∷ ts) s at =
    let (t, first, same) = end_first c x.peer x.phase ts s at in
    let (u, rest, none_left) = end_all c ts t same in (u, join first rest, none_left)

-- From every reachable state, with whatever threads in whatever phases, there are steps to a state in
-- which no thread is left, every slot is free and no peer is in `_active_exchanges`.
pub Reach-IsQuiet : {c : Config} {s : System} → Reach c s → (t : System) × Steps c s t × IsQuiet c t
unfolding exchanges_with slots_held
Reach-IsQuiet {c} {s} r =
    let (t, steps, empty) = end_all c s.threads s refl in
    let inv = Reach-Inv (Steps-Reach steps r) in
    (
      t,
      steps,
      record {
        no_threads = empty;
        all_free = omega (arith, inv.counted, ap slots_held empty);
        none_active = λ k. unmarked k inv (ap (exchanges_with k) empty);
      },
    )
