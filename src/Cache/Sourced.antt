-- ===== src/Cache/Sourced.antt =====
-- States of the cache service whose values all come from a fetch or from the start.
use judge_it.Prelude.{ℕ, ◌≡◌, ◌⊎◌, inl, inr, Option, none, some, Bool-cases, ◌==◌}
use judge_it.Prelude.Results.{Result, done, thrown}
use judge_it.Cache.{
  Flight, absent, fetching, storing, settled, Call, idle, looking, found, waiting, answered,
  Service, update, new,
}

pub update-All {ℓ} :
    {A : Type ℓ} (P : A → Type ℓ) (f : ℕ → A) (i : ℕ) (a : A)
    → P a
    → ((j : ℕ) → P (f j))
    → (j : ℕ) → P (update f i a j)
update-All P f i a p ps j = elim (Bool-cases (j == i)) [
  | inl same ↦ rw same p
  | inr other ↦ rw other (ps j)
]

module _ {ℓ} {S K V E : Type ℓ} (Delivers : K → Result E (Option V) → Type ℓ)
    (Contains : S → K → V → Type ℓ) (c : S) where
  -- A value came from a fetch for its key, or was in the cache for it at the start.
  abbrev pub IsSourced : K → V → Type ℓ
  IsSourced k v = Delivers k (done (some v)) ⊎ Contains c k v

  abbrev pub IsAnswer : K → Result E (Option V) → Type ℓ
  IsAnswer k (done none) = Delivers k (done none)
  IsAnswer k (done (some v)) = IsSourced k v
  IsAnswer k (thrown x) = Unit

  abbrev pub FlightSourced : Flight K V E → Type ℓ
  FlightSourced absent = Unit
  FlightSourced (fetching k) = Unit
  FlightSourced (storing k v) = IsSourced k v
  FlightSourced (settled k r) = IsAnswer k r

  abbrev pub CallSourced : Call K V E → Type ℓ
  CallSourced idle = Unit
  CallSourced (looking k) = Unit
  CallSourced (found k none) = Unit
  CallSourced (found k (some v)) = IsSourced k v
  CallSourced (waiting k p) = Unit
  CallSourced (answered k r) = IsAnswer k r

  pub record Sourced (s : Service S K V E) : Type ℓ where
    pub in_cache : (k : K) (v : V) → Contains s.cache k v → IsSourced k v
    pub in_flights : (p : ℕ) → FlightSourced (s.flights p)
    pub in_calls : (i : ℕ) → CallSourced (s.calls i)

  pub new-Sourced : Sourced (new c)
  unfolding new
  new-Sourced = record { in_cache = λ k v h. inr h; in_flights = λ p. tt; in_calls = λ i. tt }

  -- A promise and a call take up something sourced.
  pub flight-Sourced :
      (s t : Service S K V E) (p : ℕ) (f : Flight K V E)
      → t.cache ≡ s.cache
      → t.calls ≡ s.calls
      → t.flights ≡ update s.flights p f
      → FlightSourced f
      → Sourced s
      → Sourced t
  flight-Sourced s t p f same calls e h v = record {
    in_cache = λ k w. rw same (v.in_cache k w);
    in_flights = rw e (update-All FlightSourced s.flights p f h v.in_flights);
    in_calls = rw calls v.in_calls;
  }

  pub call-Sourced :
      (s t : Service S K V E) (i : ℕ) (a : Call K V E)
      → t.cache ≡ s.cache
      → t.flights ≡ s.flights
      → t.calls ≡ update s.calls i a
      → CallSourced a
      → Sourced s
      → Sourced t
  call-Sourced s t i a same flights e h v = record {
    in_cache = λ k w. rw same (v.in_cache k w);
    in_flights = rw flights v.in_flights;
    in_calls = rw e (update-All CallSourced s.calls i a h v.in_calls);
  }

  pub cache-Sourced :
      (s : Service S K V E) (d : S)
      → ((k : K) (w : V) → Contains d k w → IsSourced k w)
      → Sourced s
      → Sourced (record s { cache = d })
  cache-Sourced s d h v = record { in_cache = h; in_flights = v.in_flights; in_calls = v.in_calls }
