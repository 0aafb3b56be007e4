-- ===== src/Tests/Kafka.antt =====
-- The options of the client of the queue for settings of the environment.
use judge_it.Prelude.{◌≡◌, refl, [], ◌∷◌, Option, none, some, if◌then◌else◌}
use judge_it.Prelude.Eq.{text_beq}
use judge_it.Prelude.Text.{Text, text}
use judge_it.Kafka.Client.{client_options, split_comma}

-- Two brokers, and no id.
abbrev settings : Text → Option Text
settings name = if text_beq name (text "KAFKA_BROKERS") then some (text "a:1,b:2") else none

brokers_test : (client_options settings).brokers ≡ text "a:1" ∷ text "b:2" ∷ []
unfolding client_options split_comma
brokers_test = refl

id_test : (client_options settings).client_id ≡ text "judge-app"
unfolding client_options
id_test = refl
