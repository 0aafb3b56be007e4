-- ===== src/Cache/Instances.antt =====
-- Several instances of the cache service, each in a process of its own, that share one cache.
use judge_it.Prelude.{ℕ, ◌≡◌, subst, Option}
use judge_it.Prelude.Eq.{Eq}
use judge_it.Prelude.Results.{Result}
use judge_it.Cache.{Client, answered, Service, update, new}
use judge_it.Cache.Flights.{Step}
use judge_it.Cache.Sourced.{IsAnswer, CallSourced, Sourced, update-All, new-Sourced, cache-Sourced}
use judge_it.Cache.Values.{Keeps, Step-Sourced}

-- The cache, and the instances by number; what an instance has as its cache is not read.
pub record Instances {ℓ} (S K V E : Type ℓ) : Type ℓ where
  pub shared : S
  pub services : ℕ → Service S K V E

module _ {ℓ} {S K V E : Type ℓ} where
  abbrev pub with_cache : S → Service S K V E → Service S K V E
  with_cache c s = record s { cache = c }

  -- An instance over the shared cache, and the instances after it has come to a state.
  abbrev pub view : ℕ → Instances S K V E → Service S K V E
  view n s = with_cache s.shared (s.services n)

  abbrev pub moved : ℕ → Service S K V E → Instances S K V E → Instances S K V E
  moved n u s = record { shared = u.cache; services = update s.services n u }

  abbrev pub all_new : S → Instances S K V E
  all_new c = record { shared = c; services = λ n. new c }

module _ {ℓ} {S K V E : Type ℓ} ⦃e : Eq K⦄ (client : Client S K V E)
    (Delivers : K → Result E (Option V) → Type ℓ) (Expires : S → S → Type ℓ) where
  -- One instance makes a step, or entries of the cache expire under it.
  pub data Turn (s t : Instances S K V E) : Type ℓ where
    turns :
        (n : ℕ) (u : Service S K V E)
        → Step client Delivers Expires (view n s) u
        → t ≡ moved n u s
        → Turn s t

  pub data Turns (s : Instances S K V E) : Instances S K V E → Type ℓ where
    stay : Turns s s
    turn : {t u : Instances S K V E} → Turns s t → Turn t u → Turns s u

  module _ (Contains : S → K → V → Type ℓ) (laws : Keeps client Expires Contains) (c : S) where
    abbrev AllSourced : Instances S K V E → Type ℓ
    AllSourced s = (n : ℕ) → Sourced Delivers Contains c (view n s)

    -- What one instance leaves in the cache is sourced for all of them.
    moved-AllSourced :
        (n : ℕ) (u : Service S K V E) (s : Instances S K V E)
        → Sourced Delivers Contains c u
        → AllSourced s
        → AllSourced (moved n u s)
    moved-AllSourced n u s v all =
        update-All (λ x. Sourced Delivers Contains c (with_cache u.cache x)) s.services n u v
          (λ j. cache-Sourced Delivers Contains c (view j s) u.cache v.in_cache (all j))

    Turn-AllSourced : (s t : Instances S K V E) → Turn s t → AllSourced s → AllSourced t
    Turn-AllSourced s t (turns n u h same) all = rw same (
        moved-AllSourced n u s
          (Step-Sourced client Delivers Expires Contains laws c (view n s) u h (all n)) all)

    Turns-AllSourced : {t : Instances S K V E} → Turns (all_new c) t → AllSourced t
    unfolding new
    Turns-AllSourced stay = λ n. new-Sourced Delivers Contains c
    Turns-AllSourced (turn r h) = Turn-AllSourced _ _ h (Turns-AllSourced r)

    -- Whatever a call of an instance is answered with is what a fetch of some instance delivered for
    -- its key, what the cache had for it at the start, or an error.
    pub instances_sourced :
        (s : Instances S K V E) (n i : ℕ) (k : K) (r : Result E (Option V))
        → Turns (all_new c) s
        → (s.services n).calls i ≡ answered k r
        → IsAnswer Delivers Contains c k r
    instances_sourced s n i k r reached h =
        subst (CallSourced Delivers Contains c) h ((Turns-AllSourced reached n).in_calls i)
