-- ===== src/Worker/OffsetTracker.antt =====
-- src/worker/offset-Tracker.service.ts: which offsets of a partition may be committed. An offset
-- string stands for the number that `BigInt` reads from it: the broker's offsets are not negative.
pub mod Pending
pub mod History
pub mod Reach
use judge_it.Prelude.{ℕ, List, [], ◌∷◌, Option, none, some, if◌then◌else◌, ltb}
use judge_it.Prelude.Eq.{nat_eq}
use judge_it.Prelude.Int.{ℤ, pos, negsuc, sub_ℕ, ltb_ℤ}
use judge_it.Prelude.Maps.{Map, get, put, delete, add, remove}

pub record Tracker : Type 0 where
  -- partition → in-flight offsets
  pub in_flight : Map ℕ (List ℕ)
  -- partition → the offset committed last
  pub committed : Map ℕ ℤ

abbrev pub new : Tracker
new = record { in_flight = []; committed = [] }

abbrev pub get_or_empty : Option (List ℕ) → List ℕ
get_or_empty none = []
get_or_empty (some set) = set

-- The second `get` of `track` always finds the set that its first part has put there.
unfoldable pub track : Tracker → ℕ → ℕ → Tracker
track t partition offset = record t {
  in_flight = put partition (add offset (get_or_empty (get partition t.in_flight))) t.in_flight;
}

-- `[...set].reduce((min, val) => (val < min ? val : min))`, from its first element on.
unfoldable pub lowest : ℕ → List ℕ → ℕ
lowest min [] = min
lowest min (val ∷ vals) = lowest (if ltb val min then val else min) vals

abbrev pub or_minus_one : Option ℤ → ℤ
or_minus_one none = negsuc 0
or_minus_one (some c) = c

abbrev pub commit : Tracker → ℕ → ℤ → Tracker × Option ℤ
commit t partition safe = (record t { committed = put partition safe t.committed }, some safe)

-- What `complete` does once the offset is out of the set that is given.
unfoldable pub settle : Tracker → ℕ → ℕ → List ℕ → Tracker × Option ℤ
settle t partition offset [] = commit t partition (pos offset)
settle t partition offset (v ∷ vs) =
    let safe_offset = sub_ℕ (lowest v vs) 1 in
    let last_committed = or_minus_one (get partition t.committed) in
    if ltb_ℤ last_committed safe_offset then commit t partition safe_offset else (t, none)

complete_in : Tracker → ℕ → ℕ → Option (List ℕ) → Tracker × Option ℤ
complete_in t partition offset none = (t, none)
complete_in t partition offset (some set) =
    settle (record t { in_flight = put partition (remove offset set) t.in_flight }) partition offset
      (remove offset set)

unfoldable pub complete : Tracker → ℕ → ℕ → Tracker × Option ℤ
unfolding complete_in
complete t partition offset = complete_in t partition offset (get partition t.in_flight)

unfoldable pub get_committed : Tracker → ℕ → Option ℤ
get_committed t partition = get partition t.committed

unfoldable pub clear : Tracker → ℕ → Tracker
clear t partition = record {
  in_flight = delete partition t.in_flight;
  committed = delete partition t.committed;
}
