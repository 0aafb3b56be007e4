-- ===== src/Cache/Flights.antt =====
-- The steps of the cache service, and which promises are in flight: one for a key at most.
use judge_it.Prelude.{ℕ, ◌<◌, ◌≡◌, ap, Option, none, some, arith, inl, inr, Option-cases}
use judge_it.Prelude.Eq.{Eq}
use judge_it.Prelude.Maps.{get, get-put, get-delete}
use judge_it.Prelude.Results.{Result, done, thrown}
use judge_it.Cache.{
  Client, Flight, absent, fetching, storing, settled, idle, looking, found, waiting, Service, new,
  begin, end_lookup, look_up, launch, proceed, settle, fetched, store, stored, receive, write,
  remove,
}

-- A promise of a fetch for a key that is not settled.
abbrev pub is_pending {ℓ} : {K V E : Type ℓ} → Flight K V E → Option K
is_pending absent = none
is_pending (fetching k) = some k
is_pending (storing k v) = some k
is_pending (settled k r) = none

module _ {ℓ} {S K V E : Type ℓ} ⦃e : Eq K⦄ (client : Client S K V E)
    (Delivers : K → Result E (Option V) → Type ℓ) (Elsewhere : S → S → Type ℓ) where
  -- What can happen next. A fetch for a key has one of the outcomes that it can deliver, and other
  -- clients and the expiry of entries change the cache as they may.
  pub data Step (s t : Service S K V E) : Type ℓ where
    begins : (i : ℕ) (k : K) → s.calls i ≡ idle → t ≡ begin i k s → Step s t
    looks : (i : ℕ) (k : K) → s.calls i ≡ looking k → t ≡ look_up client i k s → Step s t
    proceeds :
        (i : ℕ) (k : K) (value : Option V)
        → s.calls i ≡ found k value
        → t ≡ proceed i k value s
        → Step s t
    fetches :
        (p : ℕ) (k : K) (r : Result E (Option V))
        → s.flights p ≡ fetching k
        → Delivers k r
        → t ≡ fetched p k r s
        → Step s t
    stores :
        (p : ℕ) (k : K) (v : V) (ttl : Option ℕ)
        → s.flights p ≡ storing k v
        → t ≡ store client ttl p k v s
        → Step s t
    receives :
        (i p : ℕ) (k : K) (r : Result E (Option V))
        → s.calls i ≡ waiting k p
        → s.flights p ≡ settled k r
        → t ≡ receive i k r s
        → Step s t
    writes :
        (k : K) (v : V) (ttl : Option ℕ)
        → Delivers k (done (some v))
        → t ≡ write client ttl k v s
        → Step s t
    removes : (k : K) → t ≡ remove client k s → Step s t
    changes : (c : S) → Elsewhere s.cache c → t ≡ record s { cache = c } → Step s t

  pub data Steps (s : Service S K V E) : Service S K V E → Type ℓ where
    here : Steps s s
    next : {t u : Service S K V E} → Steps s t → Step t u → Steps s u

  -- `inFlight` has a promise under a key exactly when it is pending and fetches that key, and a
  -- promise is made under a number that was not used.
  pub record Tracked (s : Service S K V E) : Type ℓ where
    pub listed : (k : K) (p : ℕ) → get k s.in_flight ≡ some p → is_pending (s.flights p) ≡ some k
    pub pending : (p : ℕ) (k : K) → is_pending (s.flights p) ≡ some k → get k s.in_flight ≡ some p
    pub made : (p : ℕ) (k : K) → is_pending (s.flights p) ≡ some k → p < s.next

  pub new-Tracked : (c : S) → Tracked (new c)
  unfolding new get
  new-Tracked c = record { listed = λ k p h. cc; pending = λ p k h. cc; made = λ p k h. cc }

  launch-Tracked :
      (i : ℕ) (k : K) (s : Service S K V E)
      → get k s.in_flight ≡ none
      → Tracked s
      → Tracked (launch i k s)
  launch-Tracked i k s free v = record {
    listed = λ j p h.
        ground (arith, get-put j k s.next s.in_flight, v.listed j p, v.made p j, e.beq_iff k j);
    pending = λ p j h. ground (arith, get-put j k s.next s.in_flight, v.pending p j, e.beq_iff k j);
    made = λ p j h. ground (arith, v.made p j);
  }

  settle-Tracked :
      (p : ℕ) (k : K) (r : Result E (Option V)) (s : Service S K V E)
      → is_pending (s.flights p) ≡ some k
      → Tracked s
      → Tracked (settle p k r s)
  unfolding settle
  settle-Tracked p k r s mine v = record {
    listed = λ j q h.
        ground (arith, get-delete j k s.in_flight, v.listed j q, v.pending p k, e.beq_iff k j);
    pending = λ q j h.
        ground (arith, get-delete j k s.in_flight, v.pending q j, v.pending p k, e.beq_iff k j);
    made = λ q j h. ground (arith, v.made q j);
  }

  end_lookup-Tracked :
      (i : ℕ) (k : K) (r : Result E (Option V)) (s : Service S K V E)
      → Tracked s
      → Tracked (end_lookup i k r s)
  end_lookup-Tracked i k (done none) s v = record {
    listed = v.listed;
    pending = v.pending;
    made = v.made;
  }
  end_lookup-Tracked i k (done (some w)) s v = record {
    listed = v.listed;
    pending = v.pending;
    made = v.made;
  }
  end_lookup-Tracked i k (thrown x) s v = record {
    listed = v.listed;
    pending = v.pending;
    made = v.made;
  }

  proceed-Tracked :
      (i : ℕ) (k : K) (value : Option V) (s : Service S K V E)
      → Tracked s
      → Tracked (proceed i k value s)
  unfolding proceed
  proceed-Tracked i k (some w) s v = record {
    listed = v.listed;
    pending = v.pending;
    made = v.made;
  }
  proceed-Tracked i k none s v = elim (Option-cases (get k s.in_flight)) [
    | inl free ↦ rw free (launch-Tracked i k s free v)
    | inr (p, e) ↦ rw e (record { listed = v.listed; pending = v.pending; made = v.made })
  ]

  fetched-Tracked :
      (p : ℕ) (k : K) (r : Result E (Option V)) (s : Service S K V E)
      → s.flights p ≡ fetching k
      → Tracked s
      → Tracked (fetched p k r s)
  unfolding fetched
  fetched-Tracked p k (done (some w)) s mine v = record {
    listed = λ j q h. ground (arith, v.listed j q);
    pending = λ q j h. ground (arith, v.pending q j, v.pending p j);
    made = λ q j h. ground (arith, v.made q j, v.made p j);
  }
  fetched-Tracked p k (done none) s mine v = settle-Tracked p k (done none) s (ap is_pending mine) v
  fetched-Tracked p k (thrown x) s mine v = settle-Tracked p k (thrown x) s (ap is_pending mine) v

  Step-Tracked : (s t : Service S K V E) → Step s t → Tracked s → Tracked t
  unfolding begin look_up store receive write remove
  Step-Tracked s t (begins i k h e) v =
      rw e (record { listed = v.listed; pending = v.pending; made = v.made })
  Step-Tracked s t (looks i k h e) v = rw e (
      end_lookup-Tracked i k (client.client_get k s.cache).0
        (record s { cache = (client.client_get k s.cache).1 })
        (record { listed = v.listed; pending = v.pending; made = v.made }))
  Step-Tracked s t (proceeds i k value h e) v = rw e (proceed-Tracked i k value s v)
  Step-Tracked s t (fetches p k r h d e) v = rw e (fetched-Tracked p k r s h v)
  Step-Tracked s t (stores p k w ttl h e) v = rw e (
      settle-Tracked p k (stored w (client.client_set k w ttl s.cache).0)
        (record s { cache = (client.client_set k w ttl s.cache).1 }) (ap is_pending h)
        (record { listed = v.listed; pending = v.pending; made = v.made }))
  Step-Tracked s t (receives i p k r h f e) v =
      rw e (record { listed = v.listed; pending = v.pending; made = v.made })
  Step-Tracked s t (writes k w ttl d e) v =
      rw e (record { listed = v.listed; pending = v.pending; made = v.made })
  Step-Tracked s t (removes k e) v =
      rw e (record { listed = v.listed; pending = v.pending; made = v.made })
  Step-Tracked s t (changes c d e) v =
      rw e (record { listed = v.listed; pending = v.pending; made = v.made })

  pub Steps-Tracked : (c : S) {t : Service S K V E} → Steps (new c) t → Tracked t
  Steps-Tracked c here = new-Tracked c
  Steps-Tracked c (next r h) = Step-Tracked _ _ h (Steps-Tracked c r)

  -- In a service that began with nothing in flight, two promises that are not settled never fetch
  -- the same key.
  pub single_flight :
      (c : S) (s : Service S K V E) (p q : ℕ) (k : K)
      → Steps (new c) s
      → is_pending (s.flights p) ≡ some k
      → is_pending (s.flights q) ≡ some k
      → p ≡ q
  single_flight c s p q k r hp hq =
      let v = Steps-Tracked c r in ground (arith, v.pending p k hp, v.pending q k hq)
