-- ===== src/Cache/Answers.antt =====
-- Which calls of the cache service share a fetch, and that a call that waits is answered.
use judge_it.Prelude.{
  ℕ, suc, ◌≡◌, ◌≢◌, refl, ◌⊎◌, inl, inr, Option, none, some, arith, Option-cases,
}
use judge_it.Prelude.Eq.{Eq}
use judge_it.Prelude.Maps.{get}
use judge_it.Prelude.Results.{Result, done, thrown}
use judge_it.Cache.{
  Client, Flight, absent, fetching, storing, settled, found, waiting, answered, Service, new,
  proceed, settle, fetched, store, stored, receive,
}
use judge_it.Cache.Joined.{update-same, key_of, Steps-Joined}
use judge_it.Cache.Flights.{
  is_pending, Step, fetches, stores, receives, Steps, here, next, Steps-Tracked,
}

module _ {ℓ} {S K V E : Type ℓ} ⦃e : Eq K⦄ (client : Client S K V E)
    (Delivers : K → Result E (Option V) → Type ℓ) (Elsewhere : S → S → Type ℓ) where
  -- A call that found nothing in the cache waits for the promise that is pending for its key, and
  -- starts no fetch; if none is pending, it starts one fetch and waits for that.
  coalesced :
      (c : S) (s : Service S K V E) (i : ℕ) (k : K)
      → Steps client Delivers Elsewhere (new c) s
      → s.calls i ≡ found k none
      → ((p : ℕ) × (is_pending (s.flights p) ≡ some k)
          × ((proceed i k none s).calls i ≡ waiting k p)
          × ((proceed i k none s).next ≡ s.next))
        ⊎ (((p : ℕ) → is_pending (s.flights p) ≢ some k)
            × ((proceed i k none s).calls i ≡ waiting k s.next)
            × ((proceed i k none s).flights s.next ≡ fetching k)
            × ((proceed i k none s).next ≡ suc s.next))
  unfolding proceed
  coalesced c s i k reached h =
      let v = Steps-Tracked client Delivers Elsewhere c reached in
      elim (Option-cases (get k s.in_flight)) [
        | inl free ↦ rw free (
            inr (
              λ p pending. ground (arith, free, v.pending p k),
              update-same s.calls i _,
              update-same s.flights s.next _,
              refl,
            ))
        | inr (p, at) ↦ rw at (inl (p, v.listed k p at, update-same s.calls i _, refl))
      ]

  prepend :
      {s t u : Service S K V E}
      → Step client Delivers Elsewhere s t
      → Steps client Delivers Elsewhere t u
      → Steps client Delivers Elsewhere s u
  prepend h here = next here h
  prepend h (next r g) = next (prepend h r) g

  -- A call is answered in some continuation of a run.
  abbrev pub IsAnswerable : ℕ → K → Service S K V E → Type ℓ
  IsAnswerable i k s =
      (t : Service S K V E) × (r : Result E (Option V)) × Steps client Delivers Elsewhere s t
      × (t.calls i ≡ answered k r)

  before-IsAnswerable :
      (i : ℕ) (k : K) {s t : Service S K V E}
      → Step client Delivers Elsewhere s t
      → IsAnswerable i k t
      → IsAnswerable i k s
  before-IsAnswerable i k h (u, r, run, it) = (u, r, prepend h run, it)

  settled-IsAnswerable :
      (i p : ℕ) (k : K) (r : Result E (Option V)) (s : Service S K V E)
      → s.calls i ≡ waiting k p
      → s.flights p ≡ settled k r
      → IsAnswerable i k s
  unfolding receive
  settled-IsAnswerable i p k r s h f =
      (receive i k r s, r, next here (receives i p k r h f refl), update-same s.calls i _)

  storing-IsAnswerable :
      (i p : ℕ) (k : K) (v : V) (s : Service S K V E)
      → s.calls i ≡ waiting k p
      → s.flights p ≡ storing k v
      → IsAnswerable i k s
  unfolding store settle
  storing-IsAnswerable i p k v s h f = before-IsAnswerable i k (stores p k v none f refl) (
      settled-IsAnswerable i p k (stored v (client.client_set k v none s.cache).0)
        (store client none p k v s) h (update-same s.flights p _))

  fetching-IsAnswerable :
      (i p : ℕ) (k : K) (r : Result E (Option V)) (s : Service S K V E)
      → Delivers k r
      → s.calls i ≡ waiting k p
      → s.flights p ≡ fetching k
      → IsAnswerable i k s
  unfolding fetched settle
  fetching-IsAnswerable i p k (done none) s d h f =
      before-IsAnswerable i k (fetches p k (done none) f d refl)
        (settled-IsAnswerable i p k (done none) _ h (update-same s.flights p _))
  fetching-IsAnswerable i p k (done (some v)) s d h f =
      before-IsAnswerable i k (fetches p k (done (some v)) f d refl)
        (storing-IsAnswerable i p k v _ h (update-same s.flights p _))
  fetching-IsAnswerable i p k (thrown x) s d h f =
      before-IsAnswerable i k (fetches p k (thrown x) f d refl)
        (settled-IsAnswerable i p k (thrown x) _ h (update-same s.flights p _))

  keyed-IsAnswerable :
      (i p : ℕ) (k : K) (r : Result E (Option V)) (s : Service S K V E) (f : Flight K V E)
      → Delivers k r
      → s.calls i ≡ waiting k p
      → s.flights p ≡ f
      → key_of f ≡ some k
      → IsAnswerable i k s
  keyed-IsAnswerable i p k r s absent d h at mine = cc
  keyed-IsAnswerable i p k r s (fetching j) d h at mine =
      fetching-IsAnswerable i p k r s d h (ground (arith, at, mine))
  keyed-IsAnswerable i p k r s (storing j v) d h at mine =
      storing-IsAnswerable i p k v s h (ground (arith, at, mine))
  keyed-IsAnswerable i p k r s (settled j a) d h at mine =
      settled-IsAnswerable i p k a s h (ground (arith, at, mine))

  -- From every state that the service reaches, and for whatever the fetch of its key may deliver,
  -- some steps lead on to a state in which a call that waits for a promise is answered.
  pub waiting_answered :
      (c : S) (s : Service S K V E) (i p : ℕ) (k : K) (r : Result E (Option V))
      → Steps client Delivers Elsewhere (new c) s
      → s.calls i ≡ waiting k p
      → Delivers k r
      → IsAnswerable i k s
  waiting_answered c s i p k r reached h d =
      keyed-IsAnswerable i p k r s (s.flights p) d h refl
        ((Steps-Joined client Delivers Elsewhere c reached).joined i p k h)
