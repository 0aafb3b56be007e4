-- ===== src/Tests/Loading.antt =====
-- `getTestCases` at a concrete input: one file of problem 4 in the object store, an empty cache, and
-- two instances of the service.
use judge_it.Prelude.{ℕ, ◌≡◌, refl, ap, sym, ◌∙◌, List, [], ◌∷◌, Option, none, some, map, arith}
use judge_it.Prelude.Eq.{text_eq}
use judge_it.Prelude.Maps.{Map, get, put, delete, get-put, get-delete}
use judge_it.Prelude.Numbers.{show_nat, show_fuel}
use judge_it.Prelude.Results.{Result, done, thrown}
use judge_it.Prelude.Text.{Text, text, starts_with}
use judge_it.Cache as Cache
use judge_it.Cache.{
  Service, new, begin, look_up, proceed, settle, fetched, store, receive, answered,
}
use judge_it.Cache.Instances.{Instances, all_new, moved, view, Turns, turns, stay, turn}
use judge_it.Cache.Flights.{begins, looks, proceeds, fetches, stores}
use judge_it.Cache.Values.{Keeps}
use judge_it.Execution.Types.{TestCase}
use judge_it.Judge.TestCases.{
  fetch_test_cases, file_keys, ends_with, file_name, base_name, add_named, group, complete_entries,
}
use judge_it.Judge.TestCases.Cached.{Fetched, outcome, get_test_cases_fetched}
use judge_it.Judge.TestCases.Load.{cache_key, prefix_of, fetch_test_cases_from_s3}
use judge_it.Storage as Storage
use judge_it.Storage.{list_object_keys, fetch_all, fetch_object_contents}

abbrev Objects : Type 0
Objects = Map Text Text

abbrev found_or : Option Text → Result ℕ Text
found_or none = thrown 404
found_or (some content) = done content

abbrev objects : Storage.Client Objects ℕ
objects = record {
  list_objects = λ bucket prefix s. (done (some (map (λ o. o.0) s)), s);
  get_object = λ bucket key s. (found_or (get key s), s);
}

abbrev Stored : Type 0
Stored = Map Text (List TestCase)

abbrev client : Cache.Client Stored Text (List TestCase) ℕ
client = record {
  client_get = λ k s. (done (get k s), s);
  client_set = λ k v ttl s. (done tt, put k v s);
  client_del = λ k s. (done tt, delete k s);
}

-- An entry is gone.
abbrev Expires : Stored → Stored → Type 0
Expires s t = (k : Text) × (t ≡ delete k s)

abbrev Contains : Stored → Text → List TestCase → Type 0
Contains s k v = get k s ≡ some v

delete-Contains :
    (k j : Text) (s : Stored) (v : List TestCase) → Contains (delete k s) j v → Contains s j v
delete-Contains k j s v h = ground (arith, get-delete j k s)

abbrev value_of : Result ℕ (Option (List TestCase)) → Option (List TestCase)
value_of (done o) = o
value_of (thrown x) = none

client-Keeps : Keeps client Expires Contains
client-Keeps = record {
  read = λ k s t v h. ap (λ p. value_of p.0) h;
  get_keeps = λ k j s v h. h;
  set_keeps = λ k j v w ttl s h. ground (arith, text_eq.beq_iff k j, get-put j k v s);
  del_keeps = delete-Contains;
  elsewhere_keeps = λ j s t v e h. delete-Contains e.0 j s v (ap (get j) (sym e.1) ∙ h);
}

abbrev file : Text × Text
file = (text "problems/4/testcases/1.in.txt", text "1 2")

abbrev cases : List TestCase
cases = record { name = text "1"; input = text "1 2"; output = none } ∷ []

fetched_cases : fetch_test_cases_from_s3 objects (text "b") 4 (file ∷ []) ≡ (done cases, file ∷ [])
unfolding fetch_test_cases_from_s3 prefix_of show_nat show_fuel fetch_object_contents
    list_object_keys fetch_all file_keys ends_with starts_with fetch_test_cases file_name base_name
    add_named group complete_entries get put
fetched_cases = refl

abbrev key : Text
key = cache_key 4

delivered : Fetched objects (text "b") key (done (some cases))
delivered = (4, file ∷ [], refl, ap (λ r. outcome r.0) (sym fetched_cases))

abbrev Tested : Type 0
Tested = Service Stored Text (List TestCase) ℕ

abbrev Shared : Type 0
Shared = Instances Stored Text (List TestCase) ℕ

abbrev moves : ℕ → (Tested → Tested) → Shared → Shared
moves n f s = moved n (f (view n s)) s

-- The instance 0 fetches the test cases and stores them.
abbrev fetching_one : Shared
fetching_one =
    moves 0 (proceed 0 key none)
      (moves 0 (look_up client 0 key) (moves 0 (begin 0 key) (all_new [])))

abbrev stored_one : Shared
stored_one =
    moves 0 (store client none 0 key cases)
      (moves 0 (fetched 0 key (done (some cases))) fetching_one)

-- The instance 1 finds them in the cache.
abbrev ended : Shared
ended =
    moves 1 (proceed 0 key (some cases))
      (moves 1 (look_up client 0 key) (moves 1 (begin 0 key) stored_one))

abbrev Reached : Shared → Type 0
Reached s = Turns client (Fetched objects (text "b")) Expires (all_new []) s

fetching-Reached : Reached fetching_one
unfolding new begin look_up get proceed
fetching-Reached =
    turn
      (turn (turn stay (turns 0 _ (begins 0 key refl refl) refl))
        (turns 0 _ (looks 0 key refl refl) refl))
      (turns 0 _ (proceeds 0 key none refl refl) refl)

stored-Reached : Reached stored_one
unfolding new begin look_up get proceed fetched store settle put cache_key show_nat show_fuel
stored-Reached =
    turn
      (turn fetching-Reached
        (turns 0 _ (fetches 0 key (done (some cases)) refl delivered refl) refl))
      (turns 0 _ (stores 0 key cases none refl refl) refl)

ended-Reached : Reached ended
unfolding new begin look_up get proceed fetched store settle put cache_key show_nat show_fuel
ended-Reached =
    turn
      (turn (turn stored-Reached (turns 1 _ (begins 0 key refl refl) refl))
        (turns 1 _ (looks 0 key refl refl) refl))
      (turns 1 _ (proceeds 0 key (some cases) refl refl) refl)

empty-Contains :
    (k : Text) (v : List TestCase) → Contains [] k v → Fetched objects (text "b") k (done (some v))
unfolding get
empty-Contains k v h = absurd (ground (arith, h))

get_test_cases_fetched_example :
    (u : Objects) × ((fetch_test_cases_from_s3 objects (text "b") 4 u).0 ≡ done cases)
unfolding new begin look_up get proceed fetched store settle put cache_key show_nat show_fuel
get_test_cases_fetched_example =
    get_test_cases_fetched objects (text "b") client Expires Contains [] ended 1 0 4 (some cases)
      client-Keeps empty-Contains ended-Reached refl
