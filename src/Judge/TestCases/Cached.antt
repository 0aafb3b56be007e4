-- ===== src/Judge/TestCases/Cached.antt =====
-- `getTestCases` of src/judge/test-cases/test-cases.service.ts over the steps of the cache services
-- of several processes, of which one cache is shared.
use judge_it.Prelude.{ℕ, ◌≡◌, ap, ◌∙◌, inl, inr, List, Option, none, some, drop}
use judge_it.Prelude.Eq.{text_eq}
use judge_it.Prelude.Numbers.Digits.{show_nat-injective}
use judge_it.Prelude.Results.{Result, done, thrown}
use judge_it.Prelude.Text.{Text}
use judge_it.Cache as Cache
use judge_it.Cache.{answered}
use judge_it.Cache.Instances.{Instances, all_new, Turns, instances_sourced}
use judge_it.Cache.Sourced.{IsAnswer}
use judge_it.Cache.Values.{Keeps}
use judge_it.Execution.Types.{TestCase}
use judge_it.Judge.TestCases.Load.{cache_key, or_no_tests, fetch_test_cases_from_s3}
use judge_it.Storage as Storage

-- What stands behind the eleven code units of `test-cases:`.
abbrev cut_key : Text → Text
cut_key = drop 11

cache_key-injective : (m n : ℕ) → cache_key m ≡ cache_key n → m ≡ n
unfolding cache_key
cache_key-injective m n h = show_nat-injective m n (ap cut_key h)

-- What the fetch of `getTestCases` hands to the cache service.
abbrev pub outcome : {E : Type 0} → Result E (List TestCase) → Result E (Option (List TestCase))
outcome (done tests) = done (some tests)
outcome (thrown e) = thrown e

module _ {S E : Type 0} (client : Storage.Client S E) (bucket : Text) where
  -- An outcome of a fetch for a key, in some state of the object store.
  abbrev pub Fetched : Text → Result E (Option (List TestCase)) → Type 0
  Fetched key r =
      (problem_id : ℕ) × (s : S) × (key ≡ cache_key problem_id)
      × (r ≡ outcome (fetch_test_cases_from_s3 client bucket problem_id s).0)

  some_outcome :
      (r : Result E (List TestCase)) (o : Option (List TestCase))
      → done o ≡ outcome r
      → r ≡ done (or_no_tests o)
  some_outcome (done tests) none h = cc
  some_outcome (done tests) (some cases) h = cc
  some_outcome (thrown e) o h = cc

  Fetched-tests :
      (problem_id : ℕ) (o : Option (List TestCase))
      → Fetched (cache_key problem_id) (done o)
      → (s : S) × ((fetch_test_cases_from_s3 client bucket problem_id s).0 ≡ done (or_no_tests o))
  Fetched-tests problem_id o (id, s, same, h) = (
    s,
    ap (λ i. (fetch_test_cases_from_s3 client bucket i s).0)
          (cache_key-injective problem_id id same)
        ∙ some_outcome (fetch_test_cases_from_s3 client bucket id s).0 o h,
  )

module _ {C S E : Type 0} (client : Storage.Client S E) (bucket : Text)
    (cache : Cache.Client C Text (List TestCase) E) (Expires : C → C → Type 0)
    (Contains : C → Text → List TestCase → Type 0) where
  IsAnswer-Fetched :
      (c : C) (problem_id : ℕ) (o : Option (List TestCase))
      → ((key : Text) (tests : List TestCase)
          → Contains c key tests
          → Fetched client bucket key (done (some tests)))
      → IsAnswer (Fetched client bucket) Contains c (cache_key problem_id) (done o)
      → Fetched client bucket (cache_key problem_id) (done o)
  IsAnswer-Fetched c problem_id none earlier h = h
  IsAnswer-Fetched c problem_id (some tests) earlier (inl fetched) = fetched
  IsAnswer-Fetched c problem_id (some tests) earlier (inr there) =
      earlier (cache_key problem_id) tests there

  -- Where any number of instances of the service share a cache that began with nothing but test cases
  -- that were fetched for their keys, and that only they write to, while entries expire: the test
  -- cases that a call of `getTestCases` for a problem returns in one of them, from the cache, from a
  -- fetch of its own or from one that it shares, are those that reading the files under the prefix of
  -- that problem gives in some state of the object store.
  pub get_test_cases_fetched :
      (c : C) (s : Instances C Text (List TestCase) E) (n i problem_id : ℕ)
      (o : Option (List TestCase))
      → Keeps cache Expires Contains
      → ((key : Text) (tests : List TestCase)
          → Contains c key tests
          → Fetched client bucket key (done (some tests)))
      → Turns cache (Fetched client bucket) Expires (all_new c) s
      → (s.services n).calls i ≡ answered (cache_key problem_id) (done o)
      → (u : S) × ((fetch_test_cases_from_s3 client bucket problem_id u).0 ≡ done (or_no_tests o))
  get_test_cases_fetched c s n i problem_id o laws earlier reached h =
      Fetched-tests client bucket problem_id o (
        IsAnswer-Fetched c problem_id o earlier (
          instances_sourced cache (Fetched client bucket) Expires Contains laws c s n i
            (cache_key problem_id) (done o) reached h))
