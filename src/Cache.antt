-- ===== src/Cache.antt =====
-- src/cache/cache.service.ts: reads through a cache that is shared, with one fetch in flight for a
-- key at a time. A call of `getOrSet` and the promise of a fetch run in parts, between two waits
-- each; a step is one such part. The cache client is a parameter, and what a fetch or a call of the
-- client returns or throws is an outcome. `fetchFn` is an async function: it returns a promise.
pub mod Flights
pub mod Joined
pub mod Sourced
pub mod Values
pub mod Instances
pub mod Answers
use judge_it.Prelude.{ℕ, suc, [], Option, none, some, if◌then◌else◌, ◌==◌}
use judge_it.Prelude.Actions.{Action}
use judge_it.Prelude.Eq.{Eq}
use judge_it.Prelude.Maps.{Map, get, put, delete}
use judge_it.Prelude.Results.{Result, done, thrown}

-- `Cache` of cache-manager, over a state `S` that is not described.
pub record Client {ℓ} (S K V E : Type ℓ) : Type ℓ where
  pub client_get : K → Action S E (Option V)
  -- the time to live, or none for the default
  pub client_set : K → V → Option ℕ → Action S E (Unit {0})
  pub client_del : K → Action S E (Unit {0})

-- What a promise of a fetch waits for: `fetchFn`, then `set` for a value that is not `null`.
pub data Flight {ℓ} (K V E : Type ℓ) : Type ℓ where
  absent : Flight K V E
  fetching : K → Flight K V E
  storing : K → V → Flight K V E
  settled : K → Result E (Option V) → Flight K V E

-- What a call of `getOrSet` waits for: `get`, its turn with what `get` returned, or a promise.
pub data Call {ℓ} (K V E : Type ℓ) : Type ℓ where
  idle : Call K V E
  looking : K → Call K V E
  found : K → Option V → Call K V E
  waiting : K → ℕ → Call K V E
  answered : K → Result E (Option V) → Call K V E

pub record Service {ℓ} (S K V E : Type ℓ) : Type ℓ where
  pub cache : S
  pub in_flight : Map K ℕ
  -- the promises made so far, under the numbers below `next`
  pub flights : ℕ → Flight K V E
  pub next : ℕ
  pub calls : ℕ → Call K V E
  pub cache_hits : ℕ
  pub cache_miss : ℕ

abbrev pub update {ℓ} : {A : Type ℓ} → (ℕ → A) → ℕ → A → ℕ → A
update f i a j = if j == i then a else f j

-- A promise whose `set` threw is rejected with that error.
abbrev pub stored {ℓ} : {V E : Type ℓ} → V → Result E (Unit {0}) → Result E (Option V)
stored v (done u) = done (some v)
stored v (thrown e) = thrown e

module _ {ℓ} {S K V E : Type ℓ} where
  unfoldable pub new : S → Service S K V E
  new c = record {
    cache = c;
    in_flight = [];
    flights = λ p. absent;
    next = 0;
    calls = λ i. idle;
    cache_hits = 0;
    cache_miss = 0;
  }

  -- `getOrSet` up to its first wait.
  unfoldable pub begin : ℕ → K → Service S K V E → Service S K V E
  begin i k s = record s { calls = update s.calls i (looking k) }

  -- The metrics of `get`.
  abbrev count_lookup : Option V → Service S K V E → Service S K V E
  count_lookup (some v) s = record s { cache_hits = suc s.cache_hits }
  count_lookup none s = record s { cache_miss = suc s.cache_miss }

  abbrev pub end_lookup : ℕ → K → Result E (Option V) → Service S K V E → Service S K V E
  end_lookup i k (done value) s =
      count_lookup value (record s { calls = update s.calls i (found k value) })
  end_lookup i k (thrown e) s = record s { calls = update s.calls i (answered k (thrown e)) }

  -- `get`, for a call.
  unfoldable pub look_up : Client S K V E → ℕ → K → Service S K V E → Service S K V E
  look_up client i k s =
      let (r, c) = client.client_get k s.cache in end_lookup i k r (record s { cache = c })

  module _ ⦃e : Eq K⦄ where
    -- The promise of a fetch that starts now, with its place in `inFlight`.
    abbrev pub launch : ℕ → K → Service S K V E → Service S K V E
    launch i k s = record s {
      flights = update s.flights s.next (fetching k);
      in_flight = put k s.next s.in_flight;
      next = suc s.next;
      calls = update s.calls i (waiting k s.next);
    }

    abbrev pub join_or_launch : ℕ → K → Option ℕ → Service S K V E → Service S K V E
    join_or_launch i k (some p) s = record s { calls = update s.calls i (waiting k p) }
    join_or_launch i k none s = launch i k s

    -- `getOrSet` from the value that `get` returned to its end or its next wait.
    unfoldable pub proceed : ℕ → K → Option V → Service S K V E → Service S K V E
    proceed i k (some v) s = record s { calls = update s.calls i (answered k (done (some v))) }
    proceed i k none s = join_or_launch i k (get k s.in_flight) s

    -- `finally`, after which the promise is settled.
    unfoldable pub settle : ℕ → K → Result E (Option V) → Service S K V E → Service S K V E
    settle p k r s = record s {
      in_flight = delete k s.in_flight;
      flights = update s.flights p (settled k r);
    }

    -- What follows `fetchFn()`: a value is stored first, `null` and an error are not.
    unfoldable pub fetched : ℕ → K → Result E (Option V) → Service S K V E → Service S K V E
    fetched p k (done (some v)) s = record s { flights = update s.flights p (storing k v) }
    fetched p k (done none) s = settle p k (done none) s
    fetched p k (thrown e) s = settle p k (thrown e) s

    -- `set` in the promise of a fetch, and what follows.
    unfoldable pub store : Client S K V E → Option ℕ → ℕ → K → V → Service S K V E → Service S K V E
    store client ttl p k v s =
        let (r, c) = client.client_set k v ttl s.cache in
        settle p k (stored v r) (record s { cache = c })

  -- A call goes on with the promise it waits for.
  unfoldable pub receive : ℕ → K → Result E (Option V) → Service S K V E → Service S K V E
  receive i k r s = record s { calls = update s.calls i (answered k r) }

  -- `set` and `del` of the service itself; one that throws may have changed the cache.
  unfoldable pub write : Client S K V E → Option ℕ → K → V → Service S K V E → Service S K V E
  write client ttl k v s = record s { cache = (client.client_set k v ttl s.cache).1 }

  unfoldable pub remove : Client S K V E → K → Service S K V E → Service S K V E
  remove client k s = record s { cache = (client.client_del k s.cache).1 }
