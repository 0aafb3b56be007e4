-- ===== src/Tests/Cache.antt =====
-- Tests of the cache service: a cache of numbers, of which other clients can delete entries, where
-- the fetch for `k` delivers `k + 1`.
use judge_it.Prelude.{ℕ, suc, ◌≡◌, refl, [], ◌∷◌, Option, none, some}
use judge_it.Prelude.Eq.{nat_eq}
use judge_it.Prelude.Maps.{Map, get, put, delete}
use judge_it.Prelude.Results.{Result, done}
use judge_it.Cache.{
  Client, Service, new, begin, look_up, proceed, settle, fetched, store, receive, waiting,
}
use judge_it.Cache.Flights.{
  begins, looks, proceeds, fetches, stores, receives, Steps, here, next, single_flight,
}
use judge_it.Cache.Answers.{waiting_answered, IsAnswerable}

abbrev client : Client (Map ℕ ℕ) ℕ ℕ ℕ
client = record {
  client_get = λ k s. (done (get k s), s);
  client_set = λ k v ttl s. (done tt, put k v s);
  client_del = λ k s. (done tt, delete k s);
}

abbrev Delivers : ℕ → Result ℕ (Option ℕ) → Type 0
Delivers k r = r ≡ done (some (suc k))

abbrev Elsewhere : Map ℕ ℕ → Map ℕ ℕ → Type 0
Elsewhere s t = (k : ℕ) × (t ≡ delete k s)

abbrev Tested : Type 0
Tested = Service (Map ℕ ℕ) ℕ ℕ ℕ

-- Two calls for key 7 that both looked before either went on.
abbrev both_found : Tested
both_found = look_up client 1 7 (look_up client 0 7 (begin 1 7 (begin 0 7 (new []))))

both_found-reached : Steps client Delivers Elsewhere (new []) both_found
unfolding new begin look_up get
both_found-reached =
    next
      (next (next (next here (begins 0 7 refl refl)) (begins 1 7 refl refl)) (looks 0 7 refl refl))
      (looks 1 7 refl refl)

abbrev one_waits : Tested
one_waits = proceed 0 7 none both_found

one_waits-reached : Steps client Delivers Elsewhere (new []) one_waits
unfolding new begin look_up get proceed
one_waits-reached = next both_found-reached (proceeds 0 7 none refl refl)

abbrev ended : Tested
ended =
    receive 0 7 (done (some 8)) (store client none 0 7 8 (fetched 0 7 (done (some 8)) one_waits))

ended-reached : Steps client Delivers Elsewhere (new []) ended
unfolding new begin look_up get proceed fetched store settle receive
ended-reached =
    next
      (next (next one_waits-reached (fetches 0 7 (done (some 8)) refl refl refl))
        (stores 0 7 8 none refl refl))
      (receives 0 0 7 (done (some 8)) refl refl refl)

single_flight_example : ◌≡◌ {A = ℕ} 0 0
unfolding new begin look_up get proceed
single_flight_example =
    single_flight client Delivers Elsewhere [] one_waits 0 0 7 one_waits-reached refl refl

waiting_answered_example : IsAnswerable client Delivers Elsewhere 0 7 one_waits
unfolding new begin look_up get proceed
waiting_answered_example =
    waiting_answered client Delivers Elsewhere [] one_waits 0 0 7 (done (some 8)) one_waits-reached
      refl refl

-- The second call waits for the promise of the first.
coalesced_test : (proceed 1 7 none one_waits).calls 1 ≡ waiting 7 0
unfolding new begin look_up get proceed put
coalesced_test = refl

ended_test : ended.cache ≡ (7, 8) ∷ []
unfolding new begin look_up get proceed put fetched store settle receive
ended_test = refl
