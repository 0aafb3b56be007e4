-- ===== src/Worker/Semaphore.antt =====
-- src/worker/semaphore.service.ts: boxes handed out to callers, and a queue of callers that wait.
-- A pending promise of `acquire` is what its caller goes on with, a value of type `A`; resolving it
-- is a result of `release`. `MAX_WORKERS` is taken to be a natural number.
pub mod Boxes
pub mod Cases
pub mod Trace
pub mod Fifo
use judge_it.Prelude.{
  ℕ, ◌-◌, ◌+◌, List, [], ◌∷◌, ◌++◌, Option, none, some, if◌then◌else◌, ltb, range_from, length,
}

pub record Semaphore {ℓ} (A : Type ℓ) : Type ℓ where
  pub count : ℕ
  pub available_boxes : List ℕ
  pub queue : List A

-- `new SemaphoreService(workers)`.
unfoldable pub new {ℓ} : {A : Type ℓ} → ℕ → Semaphore A
new workers = record { count = workers; available_boxes = range_from 0 workers; queue = [] }

-- What a call of `acquire` gives its caller at once: a box (`undefined` if the list is empty), or a
-- promise that some later `release` resolves.
pub data Acquired : Type 0 where
  resolved : Option ℕ → Acquired
  pending : Acquired

-- `Array.shift`: the first element, `undefined` on an empty array, and what stays.
abbrev pub shift {ℓ} : {A : Type ℓ} → List A → Option A × List A
shift [] = (none, [])
shift (x ∷ xs) = (some x, xs)

unfoldable pub acquire {ℓ} : {A : Type ℓ} → Semaphore A → A → Semaphore A × Acquired
acquire s caller =
    if ltb 0 s.count
    then (let (box, rest) = shift s.available_boxes in
        (record s { count = s.count - 1; available_boxes = rest }, resolved box))
    else (record s { queue = s.queue ++ caller ∷ [] }, pending)

-- The caller whose promise is resolved with the box, if one waits.
hand_over {ℓ} : {A : Type ℓ} → Semaphore A → List A → ℕ → Semaphore A × Option (A × ℕ)
hand_over s [] box_id =
    (record s { available_boxes = s.available_boxes ++ box_id ∷ []; count = s.count + 1 }, none)
hand_over s (next ∷ rest) box_id = (record s { queue = rest }, some (next, box_id))

unfoldable pub release {ℓ} : {A : Type ℓ} → Semaphore A → ℕ → Semaphore A × Option (A × ℕ)
unfolding hand_over
release s box_id = hand_over s s.queue box_id

unfoldable pub available {ℓ} : {A : Type ℓ} → Semaphore A → ℕ
available s = s.count

unfoldable pub pending_count {ℓ} : {A : Type ℓ} → Semaphore A → ℕ
pending_count s = length s.queue
