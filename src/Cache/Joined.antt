-- ===== src/Cache/Joined.antt =====
-- Which promise of a fetch a call of the cache service waits for.
use judge_it.Prelude.{
  ℕ, ◌<◌, ◌≡◌, refl, ap, inl, inr, Option, none, some, arith, Option-cases, Bool-cases, ◌==◌,
}
use judge_it.Prelude.Eq.{Eq}
use judge_it.Prelude.Maps.{get}
use judge_it.Prelude.Results.{Result, done, thrown}
use judge_it.Cache.{
  Client, Flight, absent, fetching, storing, settled, Call, looking, found, waiting, answered,
  Service, update, new, begin, end_lookup, look_up, launch, proceed, settle, fetched, store, stored,
  receive, write, remove,
}
use judge_it.Cache.Flights.{
  is_pending, Step, begins, looks, proceeds, fetches, stores, receives, writes, removes, changes,
  Steps, here, next, Tracked, Steps-Tracked,
}

pub update-same {ℓ} : {A : Type ℓ} (f : ℕ → A) (i : ℕ) (a : A) → update f i a i ≡ a
update-same f i a = ground arith

-- The key of a promise that was made.
abbrev pub key_of {ℓ} : {K V E : Type ℓ} → Flight K V E → Option K
key_of absent = none
key_of (fetching k) = some k
key_of (storing k v) = some k
key_of (settled k r) = some k

pub key_of-is_pending {ℓ} :
    {K V E : Type ℓ} (f : Flight K V E) (k : K) → is_pending f ≡ some k → key_of f ≡ some k
key_of-is_pending absent k h = cc
key_of-is_pending (fetching j) k h = h
key_of-is_pending (storing j v) k h = h
key_of-is_pending (settled j r) k h = cc

module _ {ℓ} {S K V E : Type ℓ} ⦃e : Eq K⦄ (client : Client S K V E)
    (Delivers : K → Result E (Option V) → Type ℓ) (Elsewhere : S → S → Type ℓ) where
  -- A promise keeps its key, and a call waits for a promise for its own key.
  pub record Joined (s : Service S K V E) : Type ℓ where
    pub numbered : (p : ℕ) (k : K) → key_of (s.flights p) ≡ some k → p < s.next
    pub joined : (i p : ℕ) (k : K) → s.calls i ≡ waiting k p → key_of (s.flights p) ≡ some k

  new-Joined : (c : S) → Joined (new c)
  unfolding new
  new-Joined c = record { numbered = λ p k h. cc; joined = λ i p k h. cc }

  -- What no call waits for changes nothing.
  call-Joined :
      (i : ℕ) (a : Call K V E) (s t : Service S K V E)
      → t.flights ≡ s.flights
      → t.next ≡ s.next
      → t.calls ≡ update s.calls i a
      → ((k : K) (p : ℕ) → a ≡ waiting k p → key_of (s.flights p) ≡ some k)
      → Joined s
      → Joined t
  call-Joined i a s t flights number calls h v = record {
    numbered = rw flights (rw number v.numbered);
    joined = λ j p k. rw flights (
        rw calls (elim (Bool-cases (j == i)) [
          | inl same ↦ rw same (h k p)
          | inr other ↦ rw other (v.joined j p k)
        ]));
  }

  flight-Joined :
      (p : ℕ) (k : K) (f : Flight K V E) (s t : Service S K V E)
      → key_of (s.flights p) ≡ some k
      → key_of f ≡ some k
      → t.flights ≡ update s.flights p f
      → t.next ≡ s.next
      → t.calls ≡ s.calls
      → Joined s
      → Joined t
  flight-Joined p k f s t was now flights number calls v = record {
    numbered = λ q j. rw flights (
        rw number (elim (Bool-cases (q == p)) [
          | inl same ↦ rw same (λ h. ground (arith, v.numbered p k was, same))
          | inr other ↦ rw other (v.numbered q j)
        ]));
    joined = λ i q j. rw flights (
        rw calls (elim (Bool-cases (q == p)) [
          | inl same ↦ rw same (λ h. ground (arith, v.joined i q j h, was, now, same))
          | inr other ↦ rw other (v.joined i q j)
        ]));
  }

  launch-Joined : (i : ℕ) (k : K) (s : Service S K V E) → Joined s → Joined (launch i k s)
  launch-Joined i k s v = record {
    numbered = λ q j h. ground (arith, v.numbered q j);
    joined = λ j q l. elim (Bool-cases (j == i)) [
      | inl same ↦ rw same (λ h. ground (arith, h))
      | inr other ↦ rw other (λ h. ground (arith, v.numbered q l, v.joined j q l h))
    ];
  }

  end_lookup-Joined :
      (i : ℕ) (k : K) (r : Result E (Option V)) (s : Service S K V E)
      → Joined s
      → Joined (end_lookup i k r s)
  end_lookup-Joined i k (done none) s v =
      call-Joined i (found k none) s _ refl refl refl (λ j p h. cc) v
  end_lookup-Joined i k (done (some w)) s v =
      call-Joined i (found k (some w)) s _ refl refl refl (λ j p h. cc) v
  end_lookup-Joined i k (thrown x) s v =
      call-Joined i (answered k (thrown x)) s _ refl refl refl (λ j p h. cc) v

  proceed-Joined :
      (i : ℕ) (k : K) (value : Option V) (s : Service S K V E)
      → Tracked client Delivers Elsewhere s
      → Joined s
      → Joined (proceed i k value s)
  unfolding proceed
  proceed-Joined i k (some w) s tracked v =
      call-Joined i (answered k (done (some w))) s _ refl refl refl (λ j p h. cc) v
  proceed-Joined i k none s tracked v = elim (Option-cases (get k s.in_flight)) [
    | inl free ↦ rw free (launch-Joined i k s v)
    | inr (p, at) ↦
        let mine = key_of-is_pending (s.flights p) k (tracked.listed k p at) in
        rw at (call-Joined i (waiting k p) s _ refl refl refl (λ j q h. ground (arith, h, mine)) v)
  ]

  fetched-Joined :
      (p : ℕ) (k : K) (r : Result E (Option V)) (s : Service S K V E)
      → key_of (s.flights p) ≡ some k
      → Joined s
      → Joined (fetched p k r s)
  unfolding fetched settle
  fetched-Joined p k (done (some w)) s h v =
      flight-Joined p k (storing k w) s _ h refl refl refl refl v
  fetched-Joined p k (done none) s h v =
      flight-Joined p k (settled k (done none)) s _ h refl refl refl refl v
  fetched-Joined p k (thrown x) s h v =
      flight-Joined p k (settled k (thrown x)) s _ h refl refl refl refl v

  Step-Joined :
      (s t : Service S K V E)
      → Step client Delivers Elsewhere s t
      → Tracked client Delivers Elsewhere s
      → Joined s
      → Joined t
  unfolding begin look_up store settle receive write remove
  Step-Joined s t (begins i k h same) tracked v =
      rw same (call-Joined i (looking k) s _ refl refl refl (λ j p g. cc) v)
  Step-Joined s t (looks i k h same) tracked v = rw same (
      end_lookup-Joined i k (client.client_get k s.cache).0 _
        (record { numbered = v.numbered; joined = v.joined }))
  Step-Joined s t (proceeds i k value h same) tracked v =
      rw same (proceed-Joined i k value s tracked v)
  Step-Joined s t (fetches p k r h d same) tracked v =
      rw same (fetched-Joined p k r s (ap key_of h) v)
  Step-Joined s t (stores p k w ttl h same) tracked v = rw same (
      flight-Joined p k (settled k (stored w (client.client_set k w ttl s.cache).0)) s _
        (ap key_of h) refl refl refl refl v)
  Step-Joined s t (receives i p k r h f same) tracked v =
      rw same (call-Joined i (answered k r) s _ refl refl refl (λ j q g. cc) v)
  Step-Joined s t (writes k w ttl d same) tracked v =
      rw same (record { numbered = v.numbered; joined = v.joined })
  Step-Joined s t (removes k same) tracked v =
      rw same (record { numbered = v.numbered; joined = v.joined })
  Step-Joined s t (changes d h same) tracked v =
      rw same (record { numbered = v.numbered; joined = v.joined })

  pub Steps-Joined :
      (c : S) {t : Service S K V E} → Steps client Delivers Elsewhere (new c) t → Joined t
  Steps-Joined c here = new-Joined c
  Steps-Joined c (next r h) =
      Step-Joined _ _ h (Steps-Tracked client Delivers Elsewhere c r) (Steps-Joined c r)
