-- ===== src/Router/Attempts.antt =====
-- `_should_attempt_exchange`, `_finish_exchange_attempt` and `_reset_peer_backoff` (dtn/router.py),
-- and the threads that run `exchange_with_peer` side by side. What runs under `_exchange_mu` is one
-- step; a dict by peer is a function.
pub mod Backoff
pub mod Slots
pub mod Drain
use mathlib.Core.Option.{get_or}
use meshpay.Base.{
  ℕ, ◌+◌, ◌-◌, ◌*◌, ◌≤◌, ◌<◌, ltb, nat_eq, ◌≡◌, Bool, true, false, not, ◌&&◌, ◌||◌, Option, none,
  some, String, ◌==◌, if◌then◌else◌, List, [], ◌∷◌, ◌++◌, filter, max,
}

-- The parameters of the constructor that these methods read.
pub record Config : Type 0 where
  pub node : String
  pub is_mesh : Bool  -- `discovery_mode == "mesh"`, and else it is "adhoc"
  pub exchange_port : ℕ
  pub discovery_interval : ℕ
  pub max_backoff : ℕ
  pub empty_sync_cooldown : ℕ
  pub max_parallel_exchanges : ℕ

-- `(peer_node, peer_ip, peer_port)`
pub record Peer : Type 0 where
  pub peer_node : String
  pub peer_ip : String
  pub peer_port : ℕ

unfoldable pub same_peer : Peer → Peer → Bool
same_peer k j =
    k.peer_node == j.peer_node && (k.peer_ip == j.peer_ip && nat_eq k.peer_port j.peer_port)

abbrev pub has_peer : Peer → List Peer → Bool
has_peer k [] = false
has_peer k (j ∷ js) = same_peer j k || has_peer k js

-- `d[key] = value`
abbrev pub set_peer : Peer → ℕ → (Peer → Option ℕ) → Peer → Option ℕ
set_peer k v d j = if same_peer k j then some v else d j

pub record Attempts : Type 0 where
  pub active_exchanges : List Peer
  pub last_attempt : Peer → Option ℕ
  pub backoff : Peer → Option ℕ

abbrev pub no_attempts : Attempts
no_attempts = record { active_exchanges = []; last_attempt = λ _. none; backoff = λ _. none }

-- `_should_attempt_exchange`; `now - last < backoff`, without the difference.
unfoldable pub should_attempt_exchange : Config → Peer → ℕ → Bool → Attempts → Bool × Attempts
should_attempt_exchange c k now force a =
    if has_peer k a.active_exchanges
    then (false, a)
    else if not force
        && ltb now (get_or (a.last_attempt k) 0 + get_or (a.backoff k) c.discovery_interval)
    then (false, a)
    else (
      true,
      record a {
        active_exchanges = k ∷ a.active_exchanges;
        last_attempt = set_peer k now a.last_attempt;
      },
    )

-- How an attempt ended, and what the two calls of `random.uniform` return.
pub record Outcome : Type 0 where
  pub success : Bool
  pub sent_count : ℕ
  pub received_count : ℕ
  pub deferred : Bool
  pub short_jitter : ℕ
  pub long_jitter : ℕ

abbrev pub doubled : ℕ → ℕ → ℕ
doubled limit current = if ltb limit (current * 2) then limit else current * 2

-- `_finish_exchange_attempt`
unfoldable pub finish_exchange_attempt : Config → Peer → ℕ → Outcome → Attempts → Attempts
finish_exchange_attempt c k now o a =
    let current = get_or (a.backoff k) c.discovery_interval in
    record {
      active_exchanges = filter (λ j. not (same_peer j k)) a.active_exchanges;
      last_attempt = if o.deferred then a.last_attempt else set_peer k now a.last_attempt;
      backoff =
          if o.success
          then if ltb 0 (o.sent_count + o.received_count)
            then set_peer k (0 + o.short_jitter) a.backoff
            else set_peer k (c.empty_sync_cooldown + o.long_jitter) a.backoff
          else if not o.deferred
          then set_peer k (doubled c.max_backoff current) a.backoff
          else a.backoff;
    }

-- `_reset_peer_backoff`
unfoldable pub reset_peer_backoff : Peer → Attempts → Attempts
reset_peer_backoff k a =
    if not (has_peer k a.active_exchanges) then record a { backoff = set_peer k 0 a.backoff } else a

-- Where a thread in `exchange_with_peer` stands: admitted; with a slot; or past
-- `_finish_exchange_attempt`, its slot not yet given back.
pub data Phase : Type 0 where
  admitted holding leaving : Phase

pub record Thread : Type 0 where
  pub peer : Peer
  pub phase : Phase

-- The attempts, the free places of `_exchange_slots`, and the threads.
pub record System : Type 0 where
  pub attempts : Attempts
  pub free_slots : ℕ
  pub threads : List Thread

abbrev pub thread : Peer → Phase → Thread
thread k p = record { peer = k; phase = p }

-- What the exchange itself reports: the attempt was not deferred, and the jitter is in its range.
pub record IsReport (o : Outcome) : Type 0 where
  pub attempted : o.deferred ≡ false
  pub short : o.short_jitter ≤ 50_000
  pub long : o.long_jitter ≤ 500_000

abbrev pub deferral : Outcome
deferral = record {
  success = false;
  sent_count = 0;
  received_count = 0;
  deferred = true;
  short_jitter = 0;
  long_jitter = 0;
}

-- `exchange_with_peer`, a locked region or a semaphore call at a time, in any order of the threads.
pub data Step (c : Config) (s : System) : System → Type 0 where
  admit :
      (k : Peer) (now : ℕ) (force : Bool)
      → (k.peer_node == c.node) ≡ false
      → (should_attempt_exchange c k now force s.attempts).0 ≡ true
      → Step c s (record s {
        attempts = (should_attempt_exchange c k now force s.attempts).1;
        threads = thread k admitted ∷ s.threads;
      })
  acquire :
      (k : Peer) (xs ys : List Thread)
      → s.threads ≡ xs ++ (thread k admitted ∷ ys)
      → 0 < s.free_slots
      → Step c s
          (record s { free_slots = s.free_slots - 1; threads = xs ++ (thread k holding ∷ ys) })
  defer :
      (k : Peer) (now : ℕ) (xs ys : List Thread)
      → s.threads ≡ xs ++ (thread k admitted ∷ ys)
      → s.free_slots ≡ 0
      → Step c s (record s {
        attempts = finish_exchange_attempt c k now deferral s.attempts;
        threads = xs ++ ys;
      })
  finish :
      (k : Peer) (now : ℕ) (o : Outcome) (xs ys : List Thread)
      → s.threads ≡ xs ++ (thread k holding ∷ ys)
      → IsReport o
      → Step c s (record s {
        attempts = finish_exchange_attempt c k now o s.attempts;
        threads = xs ++ (thread k leaving ∷ ys);
      })
  release :
      (k : Peer) (xs ys : List Thread)
      → s.threads ≡ xs ++ (thread k leaving ∷ ys)
      → Step c s (record s { free_slots = s.free_slots + 1; threads = xs ++ ys })
  reset : (k : Peer) → Step c s (record s { attempts = reset_peer_backoff k s.attempts })

-- The semaphore's size, of at least 1.
abbrev pub slots : Config → ℕ
slots c = max 1 c.max_parallel_exchanges

abbrev pub start_system : Config → System
start_system c = record { attempts = no_attempts; free_slots = slots c; threads = [] }

pub data Reach (c : Config) : System → Type 0 where
  start : Reach c (start_system c)
  later : {s t : System} → Reach c s → Step c s t → Reach c t
