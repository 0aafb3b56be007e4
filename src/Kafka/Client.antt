-- ===== src/Kafka/Client.antt =====
-- src/kafka/kafka.module.ts: the options of the client, from the settings of the environment.
use judge_it.Prelude.{
  ℕ, ◌≡◌, refl, sym, ap, ◌∙◌, inl, inr, List, [], ◌∷◌, ◌++◌, Option, none, some, Bool-cases,
  if◌then◌else◌, ◌==◌, ==_iff,
}
use judge_it.Prelude.Text.{Text, text, join}

-- `get(name, default)` of the configuration.
abbrev pub setting_or : Text → Option Text → Text
setting_or d none = d
setting_or d (some v) = v

abbrev comma : ℕ
comma = 44

abbrev grow : ℕ → List Text → List Text
grow c [] = (c ∷ []) ∷ []
grow c (w ∷ ws) = (c ∷ w) ∷ ws

-- `split(',')`, which gives one empty part for an empty text.
unfoldable pub split_comma : Text → List Text
split_comma [] = [] ∷ []
split_comma (c ∷ s) = let parts = split_comma s in if c == comma then [] ∷ parts else grow c parts

pub record Retry : Type 0 where
  pub retries : ℕ
  pub initial_retry_time : ℕ
  pub factor : ℕ

pub record ClientOptions : Type 0 where
  pub client_id : Text
  pub brokers : List Text
  pub connection_timeout : ℕ
  pub request_timeout : ℕ
  pub retry : Retry

unfoldable pub client_options : (Text → Option Text) → ClientOptions
client_options get = record {
  client_id = setting_or (text "judge-app") (get (text "KAFKA_CLIENT_ID"));
  brokers = split_comma (setting_or (text "localhost:9092") (get (text "KAFKA_BROKERS")));
  connection_timeout = 30000;
  request_timeout = 30000;
  retry = record { retries = 10; initial_retry_time = 1000; factor = 2 };
}

data Nonempty : List Text → Type 0 where
  cons : (w : Text) (ws : List Text) → Nonempty (w ∷ ws)

grow-Nonempty : (c : ℕ) (ws : List Text) → Nonempty (grow c ws)
grow-Nonempty c [] = cons (c ∷ []) []
grow-Nonempty c (w ∷ ws) = cons (c ∷ w) ws

split_comma-Nonempty : (s : Text) → Nonempty (split_comma s)
unfolding split_comma
split_comma-Nonempty [] = cons _ _
split_comma-Nonempty (c ∷ s) = elim (Bool-cases (c == comma)) [
  | inl e ↦ rw e (cons _ _)
  | inr e ↦ rw e (grow-Nonempty c (split_comma s))
]

join-grow :
    (c : ℕ) (sep : Text) {ws : List Text} → Nonempty ws → join sep (grow c ws) ≡ c ∷ join sep ws
unfolding join
join-grow c sep (cons w []) = refl
join-grow c sep (cons w (v ∷ ws)) = refl

join-nil : (sep : Text) {ws : List Text} → Nonempty ws → join sep ([] ∷ ws) ≡ sep ++ join sep ws
unfolding join
join-nil sep (cons w ws) = refl

-- The brokers, joined by commas, are the text of the setting.
pub join-split_comma : (s : Text) → join (text ",") (split_comma s) ≡ s
unfolding split_comma
join-split_comma [] = unfold join in refl
join-split_comma (c ∷ s) = elim (Bool-cases (c == comma)) [
  | inl e ↦ rw e (
      join-nil (text ",") (split_comma-Nonempty s)
      ∙ ap (λ r. comma ∷ r) (join-split_comma s)
      ∙ ap (λ x. x ∷ s) (sym ((==_iff c comma).0 e)))
  | inr e ↦
      rw e (join-grow c (text ",") (split_comma-Nonempty s) ∙ ap (λ r. c ∷ r) (join-split_comma s))
]
