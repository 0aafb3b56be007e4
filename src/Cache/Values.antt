-- ===== src/Cache/Values.antt =====
-- Where the values of the cache service come from.
use judge_it.Prelude.{ℕ, ◌≡◌, refl, ap, subst, ◌⊎◌, inl, inr, Option, none, some, Option-cases}
use judge_it.Prelude.Eq.{Eq}
use judge_it.Prelude.Maps.{get}
use judge_it.Prelude.Results.{Result, done, thrown}
use judge_it.Cache.{
  Client, fetching, storing, settled, looking, found, waiting, answered, Service, update, new,
  begin, end_lookup, look_up, launch, proceed, settle, fetched, store, stored, receive, write,
  remove,
}
use judge_it.Cache.Flights.{
  Step, begins, looks, proceeds, fetches, stores, receives, writes, removes, changes, Steps, here,
  next,
}
use judge_it.Cache.Sourced.{
  IsSourced, IsAnswer, FlightSourced, CallSourced, Sourced, new-Sourced, flight-Sourced,
  call-Sourced, cache-Sourced,
}

-- What is relied on of the cache: a value that `get` returns is there, and a call leaves no value
-- that was not there before, but for the one that `set` is called with. What happens to the cache on
-- its own is that entries expire.
pub record Keeps {ℓ} {S K V E : Type ℓ} (client : Client S K V E) (Elsewhere : S → S → Type ℓ)
    (Contains : S → K → V → Type ℓ) : Type ℓ where
  pub read : (k : K) (s t : S) (v : V) → client.client_get k s ≡ (done (some v), t) → Contains s k v
  pub get_keeps :
      (k j : K) (s : S) (v : V) → Contains (client.client_get k s).1 j v → Contains s j v
  pub set_keeps :
      (k j : K) (v w : V) (ttl : Option ℕ) (s : S)
      → Contains (client.client_set k v ttl s).1 j w
      → (k ≡ j) × (v ≡ w) ⊎ Contains s j w
  pub del_keeps :
      (k j : K) (s : S) (v : V) → Contains (client.client_del k s).1 j v → Contains s j v
  pub elsewhere_keeps : (j : K) (s t : S) (v : V) → Elsewhere s t → Contains t j v → Contains s j v

module _ {ℓ} {S K V E : Type ℓ} ⦃e : Eq K⦄ (client : Client S K V E)
    (Delivers : K → Result E (Option V) → Type ℓ) (Elsewhere : S → S → Type ℓ)
    (Contains : S → K → V → Type ℓ) (laws : Keeps client Elsewhere Contains) (c : S) where
  end_lookup-Sourced :
      (i : ℕ) (k : K) (r : Result E (Option V)) (s : Service S K V E)
      → ((v : V) → r ≡ done (some v) → IsSourced Delivers Contains c k v)
      → Sourced Delivers Contains c s
      → Sourced Delivers Contains c (end_lookup i k r s)
  end_lookup-Sourced i k (done none) s h v =
      call-Sourced Delivers Contains c s _ i (found k none) refl refl refl tt v
  end_lookup-Sourced i k (done (some w)) s h v =
      call-Sourced Delivers Contains c s _ i (found k (some w)) refl refl refl (h w refl) v
  end_lookup-Sourced i k (thrown x) s h v =
      call-Sourced Delivers Contains c s _ i (answered k (thrown x)) refl refl refl tt v

  proceed-Sourced :
      (i : ℕ) (k : K) (value : Option V) (s : Service S K V E)
      → s.calls i ≡ found k value
      → Sourced Delivers Contains c s
      → Sourced Delivers Contains c (proceed i k value s)
  unfolding proceed
  proceed-Sourced i k (some w) s h v =
      call-Sourced Delivers Contains c s _ i (answered k (done (some w))) refl refl refl
        (subst (CallSourced Delivers Contains c) h (v.in_calls i)) v
  proceed-Sourced i k none s h v = elim (Option-cases (get k s.in_flight)) [
    | inl free ↦ rw free (
        call-Sourced Delivers Contains c
          (record s { flights = update s.flights s.next (fetching k) }) (launch i k s) i
          (waiting k s.next) refl refl refl tt
          (flight-Sourced Delivers Contains c s _ s.next (fetching k) refl refl refl tt v))
    | inr (p, at) ↦ rw at (call-Sourced Delivers Contains c s _ i (waiting k p) refl refl refl tt v)
  ]

  settle-Sourced :
      (p : ℕ) (k : K) (r : Result E (Option V)) (s : Service S K V E)
      → IsAnswer Delivers Contains c k r
      → Sourced Delivers Contains c s
      → Sourced Delivers Contains c (settle p k r s)
  unfolding settle
  settle-Sourced p k r s h v =
      flight-Sourced Delivers Contains c s _ p (settled k r) refl refl refl h v

  fetched-Sourced :
      (p : ℕ) (k : K) (r : Result E (Option V)) (s : Service S K V E)
      → Delivers k r
      → Sourced Delivers Contains c s
      → Sourced Delivers Contains c (fetched p k r s)
  unfolding fetched
  fetched-Sourced p k (done (some w)) s d v =
      flight-Sourced Delivers Contains c s _ p (storing k w) refl refl refl (inl d) v
  fetched-Sourced p k (done none) s d v = settle-Sourced p k (done none) s d v
  fetched-Sourced p k (thrown x) s d v = settle-Sourced p k (thrown x) s tt v

  set-Sourced :
      (k : K) (w : V) (ttl : Option ℕ) (s : Service S K V E)
      → IsSourced Delivers Contains c k w
      → Sourced Delivers Contains c s
      → Sourced Delivers Contains c (write client ttl k w s)
  unfolding write
  set-Sourced k w ttl s h v =
      cache-Sourced Delivers Contains c s _
        (λ j u there. elim (laws.set_keeps k j w u ttl s.cache there) [
          | inl (same, it) ↦
              subst (λ x. IsSourced Delivers Contains c x u) same
                (subst (IsSourced Delivers Contains c k) it h)
          | inr was ↦ v.in_cache j u was
        ])
        v

  stored-IsAnswer :
      (k : K) (w : V) (r : Result E (Unit {0}))
      → IsSourced Delivers Contains c k w
      → IsAnswer Delivers Contains c k (stored w r)
  stored-IsAnswer k w (done u) h = h
  stored-IsAnswer k w (thrown x) h = tt

  pub Step-Sourced :
      (s t : Service S K V E)
      → Step client Delivers Elsewhere s t
      → Sourced Delivers Contains c s
      → Sourced Delivers Contains c t
  unfolding begin look_up store write receive remove
  Step-Sourced s t (begins i k h same) v =
      rw same (call-Sourced Delivers Contains c s _ i (looking k) refl refl refl tt v)
  Step-Sourced s t (looks i k h same) v = rw same (
      end_lookup-Sourced i k (client.client_get k s.cache).0
        (record s { cache = (client.client_get k s.cache).1 })
        (λ w at.
          v.in_cache k w
            (laws.read k s.cache _ w (ap (λ r. (r, (client.client_get k s.cache).1)) at)))
        (cache-Sourced Delivers Contains c s _
          (λ j u there. v.in_cache j u (laws.get_keeps k j s.cache u there)) v))
  Step-Sourced s t (proceeds i k value h same) v = rw same (proceed-Sourced i k value s h v)
  Step-Sourced s t (fetches p k r h d same) v = rw same (fetched-Sourced p k r s d v)
  Step-Sourced s t (stores p k w ttl h same) v =
      let mine = subst (FlightSourced Delivers Contains c) h (v.in_flights p) in
      rw same (
        settle-Sourced p k (stored w (client.client_set k w ttl s.cache).0)
          (record s { cache = (client.client_set k w ttl s.cache).1 })
          (stored-IsAnswer k w (client.client_set k w ttl s.cache).0 mine)
          (set-Sourced k w ttl s mine v))
  Step-Sourced s t (receives i p k r h f same) v = rw same (
      call-Sourced Delivers Contains c s _ i (answered k r) refl refl refl
        (subst (FlightSourced Delivers Contains c) f (v.in_flights p)) v)
  Step-Sourced s t (writes k w ttl d same) v = rw same (set-Sourced k w ttl s (inl d) v)
  Step-Sourced s t (removes k same) v = rw same (
      cache-Sourced Delivers Contains c s _
        (λ j u there. v.in_cache j u (laws.del_keeps k j s.cache u there)) v)
  Step-Sourced s t (changes d h same) v = rw same (
      cache-Sourced Delivers Contains c s _
        (λ j u there. v.in_cache j u (laws.elsewhere_keeps j s.cache d u h there)) v)

  Steps-Sourced :
      {t : Service S K V E}
      → Steps client Delivers Elsewhere (new c) t
      → Sourced Delivers Contains c t
  Steps-Sourced here = new-Sourced Delivers Contains c
  Steps-Sourced (next r h) = Step-Sourced _ _ h (Steps-Sourced r)

  -- Whatever a call of `getOrSet` for a key is answered with is what a fetch for that key delivered,
  -- a value that `set` wrote for it, a value that the cache had for it at the start, or an error.
  pub answers_sourced :
      (s : Service S K V E) (i : ℕ) (k : K) (r : Result E (Option V))
      → Steps client Delivers Elsewhere (new c) s
      → s.calls i ≡ answered k r
      → IsAnswer Delivers Contains c k r
  answers_sourced s i k r reached h =
      subst (CallSourced Delivers Contains c) h ((Steps-Sourced reached).in_calls i)
