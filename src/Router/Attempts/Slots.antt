-- ===== src/Router/Attempts/Slots.antt =====
-- What holds of the threads and of the attempts in every reachable state.
use mathlib.Core.Option.{get_or}
use meshpay.Base.{
  ℕ, sym, ap, ◌∙◌, ◌↔◌, ◌+◌, ◌≤◌, max, ◌≡◌, refl, Bool, true, false, not, some, if◌then◌else◌, List,
  [], ◌∷◌, ◌++◌, filter, arith, Bool-cases, Option-cases, inl, inr,
}
use meshpay.Router.Attempts.Backoff.{same_peer_eq}
use meshpay.Router.Attempts.{
  Config, Peer, same_peer, has_peer, Attempts, should_attempt_exchange, Outcome, deferral,
  finish_exchange_attempt, reset_peer_backoff, Phase, admitted, holding, leaving, Thread, thread,
  System, Step, slots, start_system, Reach, start, later, admit, acquire, defer, finish, release,
  reset,
}

abbrev in_exchange : Phase → Bool
in_exchange leaving = false
in_exchange _ = true

abbrev has_slot : Phase → Bool
has_slot admitted = false
has_slot _ = true

-- The threads in an exchange with the peer.
unfoldable pub exchanges_with : Peer → List Thread → ℕ
exchanges_with k [] = 0
exchanges_with k (t ∷ ts) =
    (if same_peer t.peer k then if in_exchange t.phase then 1 else 0 else 0) + exchanges_with k ts

-- The threads that hold a slot.
unfoldable pub slots_held : List Thread → ℕ
slots_held [] = 0
slots_held (t ∷ ts) = (if has_slot t.phase then 1 else 0) + slots_held ts

exchanges_with-append :
    (k : Peer) (xs ys : List Thread)
    → exchanges_with k (xs ++ ys) ≡ exchanges_with k xs + exchanges_with k ys
unfolding exchanges_with
exchanges_with-append k [] ys = omega arith
exchanges_with-append k (x ∷ xs) ys = omega (arith, exchanges_with-append k xs ys)

slots_held-append : (xs ys : List Thread) → slots_held (xs ++ ys) ≡ slots_held xs + slots_held ys
unfolding slots_held
slots_held-append [] ys = omega arith
slots_held-append (x ∷ xs) ys = omega (arith, slots_held-append xs ys)

-- No delay is longer than the largest of these.
unfoldable pub longest_delay : Config → ℕ
longest_delay c =
    max c.max_backoff (max c.discovery_interval (max 50_000 (c.empty_sync_cooldown + 500_000)))

abbrev pub flag : Bool → ℕ
flag true = 1
flag false = 0

pub record Inv (c : Config) (s : System) : Type 0 where
  pub marked :
      (k : Peer) → exchanges_with k s.threads ≡ flag (has_peer k s.attempts.active_exchanges)
  pub counted : s.free_slots + slots_held s.threads ≡ slots c
  pub delays : (k : Peer) (d : ℕ) → s.attempts.backoff k ≡ some d → d ≤ longest_delay c

has_peer-filter :
    (k j : Peer) (js : List Peer)
    → has_peer j (filter (λ i. not (same_peer i k)) js)
      ≡ (if same_peer k j then false else has_peer j js)
has_peer-filter k j [] = ground arith
has_peer-filter k j (i ∷ js) =
    grind (arith, same_peer_eq i k, same_peer_eq k j, has_peer-filter k j js)

module _ (k : Peer) (xs ys ts : List Thread) (p : Phase) (at : ts ≡ xs ++ (thread k p ∷ ys)) where
  -- One thread changes its phase, or ends.
  exchanges_with-replaced :
      (j : Peer) (q : Phase)
      → exchanges_with j (xs ++ (thread k q ∷ ys)) + exchanges_with j (thread k p ∷ [])
        ≡ exchanges_with j ts + exchanges_with j (thread k q ∷ [])
  unfolding exchanges_with
  exchanges_with-replaced j q = rw at (
      omega (
        arith,
        exchanges_with-append j xs (thread k p ∷ ys),
        exchanges_with-append j xs (thread k q ∷ ys),
      ))

  exchanges_with-removed :
      (j : Peer)
      → exchanges_with j (xs ++ ys) + exchanges_with j (thread k p ∷ []) ≡ exchanges_with j ts
  unfolding exchanges_with
  exchanges_with-removed j =
      rw at
        (omega (arith, exchanges_with-append j xs (thread k p ∷ ys), exchanges_with-append j xs ys))

  slots_held-replaced :
      (q : Phase)
      → slots_held (xs ++ (thread k q ∷ ys)) + slots_held (thread k p ∷ [])
        ≡ slots_held ts + slots_held (thread k q ∷ [])
  unfolding slots_held
  slots_held-replaced q = rw at (
      omega (arith, slots_held-append xs (thread k p ∷ ys), slots_held-append xs (thread k q ∷ ys)))

  slots_held-removed : slots_held (xs ++ ys) + slots_held (thread k p ∷ []) ≡ slots_held ts
  unfolding slots_held
  slots_held-removed =
      rw at (omega (arith, slots_held-append xs (thread k p ∷ ys), slots_held-append xs ys))

start-Inv : (c : Config) → Inv c (start_system c)
unfolding exchanges_with slots_held
start-Inv c = record { marked = λ k. refl; counted = omega arith; delays = λ k d h. cc }

delays-admit :
    (c : Config) (k : Peer) (now : ℕ) (force : Bool) (a : Attempts)
    → (should_attempt_exchange c k now force a).1.backoff ≡ a.backoff
unfolding should_attempt_exchange
delays-admit c k now force a = ground arith

-- The attempts after an admission.
marked-admit :
    (c : Config) (k : Peer) (now : ℕ) (force : Bool) (a : Attempts)
    → (should_attempt_exchange c k now force a).0 ≡ true
    → (has_peer k a.active_exchanges ≡ false)
      × ((should_attempt_exchange c k now force a).1.active_exchanges ≡ k ∷ a.active_exchanges)
unfolding should_attempt_exchange
marked-admit c k now force a agreed = ground (arith, agreed)

delays-finish :
    (c : Config) (k : Peer) (now : ℕ) (o : Outcome) (a : Attempts)
    → o.short_jitter ≤ 50_000
    → o.long_jitter ≤ 500_000
    → ((j : Peer) (d : ℕ) → a.backoff j ≡ some d → d ≤ longest_delay c)
    → (j : Peer) (d : ℕ) → (finish_exchange_attempt c k now o a).backoff j ≡ some d
    → d ≤ longest_delay c
unfolding finish_exchange_attempt longest_delay
delays-finish c k now o a short long old j d h = ground (arith, old j d)

marked-finish :
    (c : Config) (k j : Peer) (now : ℕ) (o : Outcome) (a : Attempts)
    → has_peer j (finish_exchange_attempt c k now o a).active_exchanges
      ≡ (if same_peer k j then false else has_peer j a.active_exchanges)
unfolding finish_exchange_attempt
marked-finish c k j now o a = has_peer-filter k j a.active_exchanges

delays-reset :
    (c : Config) (k : Peer) (a : Attempts)
    → ((j : Peer) (d : ℕ) → a.backoff j ≡ some d → d ≤ longest_delay c)
    → (j : Peer) (d : ℕ) → (reset_peer_backoff k a).backoff j ≡ some d
    → d ≤ longest_delay c
unfolding reset_peer_backoff
delays-reset c k a old j d h = ground (arith, old j d)

marked-reset :
    (k : Peer) (a : Attempts) → (reset_peer_backoff k a).active_exchanges ≡ a.active_exchanges
unfolding reset_peer_backoff
marked-reset k a = ground arith

Step-Inv : {c : Config} {s t : System} → Step c s t → Inv c s → Inv c t
unfolding exchanges_with slots_held
Step-Inv {c} {s} (admit k now force other agreed) inv = record {
  marked = λ j.
      grind (arith, marked-admit c k now force s.attempts agreed, inv.marked j, same_peer_eq k j);
  counted = omega (arith, inv.counted);
  delays = λ j d h. inv.delays j d (rw (delays-admit c k now force s.attempts) at h);
}
Step-Inv {c} {s} (acquire k xs ys at free) inv = record {
  marked = λ j.
      ground (arith, exchanges_with-replaced k xs ys s.threads admitted at j holding, inv.marked j);
  counted = omega (arith, slots_held-replaced k xs ys s.threads admitted at holding, inv.counted);
  delays = inv.delays;
}
Step-Inv {c} {s} (defer k now xs ys at none_free) inv = record {
  marked = λ j. ground (
    arith,
    exchanges_with-removed k xs ys s.threads admitted at j,
    inv.marked j,
    marked-finish c k j now deferral s.attempts,
  );
  counted = omega (arith, slots_held-removed k xs ys s.threads admitted at, inv.counted);
  delays = delays-finish c k now deferral s.attempts (omega arith) (omega arith) inv.delays;
}
Step-Inv {c} {s} (finish k now o xs ys at report) inv = record {
  marked = λ j. ground (
    arith,
    exchanges_with-replaced k xs ys s.threads holding at j leaving,
    inv.marked j,
    marked-finish c k j now o s.attempts,
  );
  counted = omega (arith, slots_held-replaced k xs ys s.threads holding at leaving, inv.counted);
  delays = delays-finish c k now o s.attempts report.short report.long inv.delays;
}
Step-Inv {c} {s} (release k xs ys at) inv = record {
  marked = λ j. ground (arith, exchanges_with-removed k xs ys s.threads leaving at j, inv.marked j);
  counted = omega (arith, slots_held-removed k xs ys s.threads leaving at, inv.counted);
  delays = inv.delays;
}
Step-Inv {c} {s} (reset k) inv = record {
  marked = λ j. inv.marked j ∙ ap (λ js. flag (has_peer j js)) (sym (marked-reset k s.attempts));
  counted = inv.counted;
  delays = delays-reset c k s.attempts inv.delays;
}

pub Reach-Inv : {c : Config} {s : System} → Reach c s → Inv c s
Reach-Inv {c} start = start-Inv c
Reach-Inv (later r st) = Step-Inv st (Reach-Inv r)

-- In every reachable state at most one thread is in an exchange with each peer, one is if and only if
-- the peer is in `_active_exchanges`, and no more threads hold a slot than the semaphore has.
pub Reach-exclusive :
    {c : Config} {s : System}
    → Reach c s
    → ((k : Peer)
        → (exchanges_with k s.threads ≤ 1)
          × ((exchanges_with k s.threads ≡ 1) ↔ (has_peer k s.attempts.active_exchanges ≡ true)))
      × (slots_held s.threads ≤ slots c)
Reach-exclusive {c} {s} r = (
  λ k.
      let m = (Reach-Inv r).marked k in
      elim (Bool-cases (has_peer k s.attempts.active_exchanges)) [
        | inl e ↦ (ground (arith, e, m), (λ _. e, λ _. ground (arith, e, m)))
        | inr e ↦
            (ground (arith, e, m), (λ one. ground (arith, e, m, one), λ h. ground (arith, e, h)))
      ],
  omega (arith, (Reach-Inv r).counted),
)

delay-longest :
    {c : Config} {s : System} (k : Peer)
    → Inv c s
    → get_or (s.attempts.backoff k) c.discovery_interval ≤ longest_delay c
unfolding longest_delay
delay-longest {c} {s} k inv = elim (Option-cases (s.attempts.backoff k)) [
  | inl none_yet ↦ rw none_yet (ground arith)
  | inr (d, known) ↦ rw known (inv.delays k d known)
]

pub unmarked :
    {c : Config} {s : System} (k : Peer)
    → Inv c s
    → exchanges_with k s.threads ≡ 0
    → has_peer k s.attempts.active_exchanges ≡ false
unmarked {s} k inv idle = ground (arith, inv.marked k, idle)

-- In every reachable state a peer that no thread is in an exchange with is admitted, without force,
-- as soon as its last attempt is as long ago as the longest delay, and its delay is never longer.
pub Reach-admits :
    {c : Config} {s : System} (k : Peer) (now : ℕ)
    → Reach c s
    → exchanges_with k s.threads ≡ 0
    → get_or (s.attempts.last_attempt k) 0 + longest_delay c ≤ now
    → ((should_attempt_exchange c k now false s.attempts).0 ≡ true)
      × (get_or (s.attempts.backoff k) c.discovery_interval ≤ longest_delay c)
unfolding should_attempt_exchange
Reach-admits {c} {s} k now r idle long_ago =
    let inv = Reach-Inv r in
    let short = delay-longest k inv in (ground (arith, unmarked k inv idle, short), short)
