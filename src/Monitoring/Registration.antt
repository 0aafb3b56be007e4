-- ===== src/Monitoring/Registration.antt =====
-- src/monitoring/metricService.ts: the metrics, registered one after another in a registry of the
-- client library, which is a parameter; help texts are left out, and buckets are in tenths of a
-- millisecond.
use judge_it.Prelude.{
  ℕ, ◌≡◌, ◌↔◌, refl, sym, ap, ◌∙◌, subst, Bool, true, false, ◌||◌, List, [], ◌∷◌, ◌++◌, All, map,
  arith, Bool-cases, inl, inr,
}
use mathlib.Core.List.{append_assoc, append-nil}
use judge_it.Prelude.Actions.{Action, ◌>>◌, pure, continue-eq-done, pure-eq-done}
use judge_it.Prelude.Eq.{text_beq}
use judge_it.Prelude.Results.{done, thrown}
use judge_it.Prelude.Text.{Text, text}

pub data Kind : Type 0 where
  counter gauge histogram : Kind

pub record Metric : Type 0 where
  pub kind : Kind
  pub name : Text
  pub label_names : List Text
  pub buckets : List ℕ

abbrev pub has_text : Text → List Text → Bool
has_text x [] = false
has_text x (y ∷ ys) = text_beq y x || has_text x ys

-- The registry: the names in it, and a registration, which refuses a name that is taken.
pub record Registry (S : Type 0) : Type 0 where
  pub names : S → List Text
  pub register_metric : Metric → Action S Text (Unit {0})

pub record Laws {S : Type 0} (registry : Registry S) : Type 0 where
  pub register_taken :
      (m : Metric) (s : S)
      → has_text m.name (registry.names s) ≡ true
      → (e : Text) × (registry.register_metric m s ≡ (thrown e, s))
  pub register_fresh :
      (m : Metric) (s : S)
      → has_text m.name (registry.names s) ≡ false
      → (t : S) × (registry.register_metric m s ≡ (done tt, t))
        × (registry.names t ≡ registry.names s ++ m.name ∷ [])

pub record MetricService : Type 0 where
  pub http_requests_total : Metric
  pub http_request_duration : Metric
  pub http_requests_in_flight : Metric
  pub message_queue_consumer_produced_total : Metric
  pub message_queue_consumer_consumed_total : Metric
  pub message_queue_latency : Metric
  pub message_queue_consumer_errors_total : Metric
  pub storage_service_latency : Metric
  pub cache_hits : Metric
  pub cache_miss : Metric
  pub cache_hit_duration : Metric
  pub db_query_duration : Metric

abbrev a_metric : Kind → Text → List Text → List ℕ → Metric
a_metric kind name label_names buckets = record {
  kind = kind;
  name = name;
  label_names = label_names;
  buckets = buckets;
}

abbrev http_labels : List Text
http_labels = text "method" ∷ text "route" ∷ text "status" ∷ []

abbrev topic_label : List Text
topic_label = text "topic" ∷ []

-- The fields as the constructor sets them.
abbrev pub service : MetricService
service = record {
  http_requests_total = a_metric counter (text "http_requests_total") http_labels [];
  http_request_duration =
      a_metric histogram (text "http_request_duration_seconds") http_labels
        (50 ∷ 100 ∷ 500 ∷ 1000 ∷ 3000 ∷ 5000 ∷ 10000 ∷ 20000 ∷ 50000 ∷ []);
  http_requests_in_flight =
      a_metric gauge (text "http_requests_in_flight") (text "method" ∷ text "route" ∷ []) [];
  message_queue_consumer_produced_total =
      a_metric counter (text "mq_messages_produced_total") topic_label [];
  message_queue_consumer_consumed_total =
      a_metric counter (text "mq_messages_consumed_total") topic_label [];
  message_queue_latency =
      a_metric histogram (text "mq_message_latency_seconds") topic_label
        (10 ∷ 100 ∷ 500 ∷ 1000 ∷ 5000 ∷ 10000 ∷ 20000 ∷ 50000 ∷ []);
  message_queue_consumer_errors_total =
      a_metric counter (text "mq_consumer_errors_total") (text "topic" ∷ text "error_type" ∷ []) [];
  storage_service_latency =
      a_metric histogram (text "storage_request_duration_seconds")
        (text "operation" ∷ text "status" ∷ [])
        (100 ∷ 500 ∷ 1000 ∷ 3000 ∷ 10000 ∷ 20000 ∷ 50000 ∷ []);
  cache_hits = a_metric counter (text "cache_hits_total") (text "cache_key" ∷ []) [];
  cache_miss = a_metric counter (text "cache_miss_total") (text "cache_key" ∷ []) [];
  cache_hit_duration =
      a_metric histogram (text "cache_hit_duration_seconds") (text "cache_key" ∷ [])
        (5 ∷ 10 ∷ 50 ∷ 100 ∷ 500 ∷ []);
  db_query_duration =
      a_metric histogram (text "db_query_duration_seconds") (text "query" ∷ text "operation" ∷ [])
        (10 ∷ 100 ∷ 500 ∷ 1000 ∷ 5000 ∷ 10000 ∷ 20000 ∷ []);
}

-- The metrics in the order of their registration.
abbrev pub metrics : MetricService → List Metric
metrics m =
    m.http_requests_total ∷ m.http_request_duration ∷ m.http_requests_in_flight
    ∷ m.message_queue_consumer_produced_total ∷ m.message_queue_consumer_consumed_total
    ∷ m.message_queue_latency ∷ m.message_queue_consumer_errors_total ∷ m.storage_service_latency
    ∷ m.cache_hits ∷ m.cache_miss ∷ m.cache_hit_duration ∷ m.db_query_duration ∷ []

module _ {S : Type 0} (registry : Registry S) where
  unfoldable pub register_all : List Metric → Action S Text (Unit {0})
  register_all [] = pure tt
  register_all (m ∷ ms) = do registry.register_metric m; register_all ms

  -- The constructor: each metric registers itself as it is made.
  unfoldable pub new_service : Action S Text MetricService
  new_service = do register_all (metrics service); pure service

-- No name is the same as a later one.
abbrev Distinct : List Metric → Type 0
Distinct [] = Unit
Distinct (m ∷ ms) = All (λ n. text_beq m.name n.name ≡ false) ms × Distinct ms

abbrev pub Fresh : List Text → List Metric → Type 0
Fresh names ms = All (λ m. has_text m.name names ≡ false) ms

has_text-append :
    (x : Text) (ys zs : List Text) → has_text x (ys ++ zs) ≡ (has_text x ys || has_text x zs)
has_text-append x [] zs = refl
has_text-append x (y ∷ ys) zs = ground (arith, has_text-append x ys zs)

Fresh-append :
    (names : List Text) (m : Metric) (ms : List Metric)
    → All (λ n. text_beq m.name n.name ≡ false) ms
    → Fresh names ms ↔ Fresh (names ++ m.name ∷ []) ms
Fresh-append names m [] others = (λ h. tt, λ h. tt)
Fresh-append names m (n ∷ ms) (other, others) =
    let rest = Fresh-append names m ms others in
    (
      λ h. (ground (arith, h.0, other, has_text-append n.name names (m.name ∷ [])), rest.0 h.1),
      λ h. (ground (arith, h.0, has_text-append n.name names (m.name ∷ [])), rest.1 h.1),
    )

service-Distinct : Distinct (metrics service)
service-Distinct = ground arith

module _ {S : Type 0} (registry : Registry S) (laws : Laws registry) where
  register_all_iff :
      (ms : List Metric) (s : S)
      → Distinct ms
      → ((t : S) × (register_all registry ms s ≡ (done tt, t))
          × (registry.names t ≡ registry.names s ++ map (λ m. m.name) ms))
        ↔ Fresh (registry.names s) ms
  unfolding register_all
  register_all_iff [] s distinct = (λ h. tt, λ h. (s, refl, sym (append-nil (registry.names s))))
  register_all_iff (m ∷ ms) s (others, distinct) =
      elim (Bool-cases (has_text m.name (registry.names s))) [
        | inl taken ↦
            (let (e, refused) = laws.register_taken m s taken in
              (
                λ h.
                    (let (u, t, made, last) =
                        continue-eq-done (registry.register_metric m s) _ h.1 in
                      let clash = sym refused ∙ made in cc),
                λ h. absurd (ground (arith, taken, h.0)),
              ))
        | inr fresh ↦
            (let (t, made, names) = laws.register_fresh m s fresh in
              let rest = register_all_iff ms t distinct in
              let more = Fresh-append (registry.names s) m ms others in
              let regroup : registry.names t ++ map (λ n. n.name) ms
                  ≡ registry.names s ++ map (λ n. n.name) (m ∷ ms) =
                rw names (append_assoc (registry.names s) (m.name ∷ []) (map (λ n. n.name) ms)) in
              (
                λ h.
                    (let (u, t', made', last) =
                        continue-eq-done (registry.register_metric m s) _ h.1 in
                      let same : t' ≡ t = ap (λ p. p.1) (sym made' ∙ made) in
                      (
                        fresh,
                        more.1 (
                            subst (λ l. Fresh l ms) names
                              (rest.0 (
                                h.0,
                                ap (register_all registry ms) (sym same) ∙ last,
                                h.2 ∙ sym regroup,
                              ))),
                      )),
                λ h.
                    (let (x, ok, named) =
                        rest.1 (subst (λ l. Fresh l ms) (sym names) (more.0 h.1)) in
                      (x, rw made ok, named ∙ regroup)),
              ))
      ]

  -- The service is made exactly when the registry has none of its metrics' names before; its metrics
  -- are then in the registry after what was there, in order.
  pub new_service_iff :
      (s : S)
      → ((t : S) × (new_service registry s ≡ (done service, t))
          × (registry.names t ≡ registry.names s ++ map (λ m. m.name) (metrics service)))
        ↔ Fresh (registry.names s) (metrics service)
  unfolding new_service
  new_service_iff s =
      let all = register_all_iff (metrics service) s service-Distinct in
      (
        λ h.
            (let (u, t, made, last) =
                continue-eq-done (register_all registry (metrics service) s) _ h.1 in
              let same = (pure-eq-done last).1 in
              all.0 (h.0, made ∙ ap (λ x. (done tt, x)) same, h.2)),
        λ h. (let (t, made, named) = all.1 h in (t, rw made refl, named)),
      )
