-- ===== src/Monitoring.antt =====
-- src/common/middlewares/monitoringMiddleware.ts: the gauge of the requests in flight and the counter
-- of the requests that have ended, by method and route. The subtraction of the gauge stops at zero,
-- where that of the client library goes on. The duration of a request is left out.
pub mod Gauge
pub mod Registration
use judge_it.Prelude.{
  ℕ, ◌+◌, ◌-◌, Bool, ◌&&◌, List, [], ◌∷◌, ◌++◌, Option, none, some, if◌then◌else◌, ◌==◌, take_at,
}
use judge_it.Prelude.Eq.{text_beq}
use judge_it.Prelude.Text.{Text}

-- The method and the route that a metric is labelled with.
pub record Labels : Type 0 where
  pub method : Text
  pub route : Text

abbrev pub labels_beq : Labels → Labels → Bool
labels_beq a b = text_beq a.method b.method && text_beq a.route b.route

-- `req.originalUrl.split('?')[0]`.
unfoldable pub before_query : Text → Text
before_query [] = []
before_query (c ∷ url) = let rest = before_query url in if c == b'?' then [] else c ∷ rest

pub record Metrics : Type 0 where
  pub in_flight : Labels → ℕ
  pub total : Labels → Text → ℕ

-- The metrics, and the requests whose `finish` has a listener.
pub record Monitor : Type 0 where
  pub metrics : Metrics
  pub listening : List Labels

unfoldable pub new : Monitor
new = record { metrics = record { in_flight = λ l. 0; total = λ l status. 0 }; listening = [] }

abbrev pub increase : Labels → (Labels → ℕ) → Labels → ℕ
increase l f k = if labels_beq k l then f k + 1 else f k

abbrev pub decrease : Labels → (Labels → ℕ) → Labels → ℕ
decrease l f k = if labels_beq k l then f k - 1 else f k

abbrev pub count_total : Labels → Text → (Labels → Text → ℕ) → Labels → Text → ℕ
count_total l status f k st = if labels_beq k l && text_beq st status then f k st + 1 else f k st

-- A request comes in: `use` up to `next()`.
unfoldable pub begin : Text → Text → Monitor → Monitor
begin method original_url m =
    let l : Labels = record { method = method; route = before_query original_url } in
    record m {
      metrics = record m.metrics { in_flight = increase l m.metrics.in_flight };
      listening = m.listening ++ l ∷ [];
    }

abbrev pub end_request : Text → Monitor → Option (Labels × List Labels) → Monitor
end_request status m none = m
end_request status m (some (l, rest)) = record m {
  metrics = record {
    in_flight = decrease l m.metrics.in_flight;
    total = count_total l status m.metrics.total;
  };
  listening = rest;
}

-- The listener of the response at an index runs, with the status of the response.
unfoldable pub finish : ℕ → Text → Monitor → Monitor
finish i status m = end_request status m (take_at i m.listening)

pub data Event : Type 0 where
  begins : Text → Text → Event
  finishes : ℕ → Text → Event

unfoldable pub step : Monitor → Event → Monitor
step m (begins method url) = begin method url m
step m (finishes i status) = finish i status m

unfoldable pub run : Monitor → List Event → Monitor
run m [] = m
run m (e ∷ es) = run (step m e) es
