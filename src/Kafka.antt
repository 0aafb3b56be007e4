-- ===== src/Kafka.antt =====
-- src/kafka/kafka-producer.service.ts: `sendMessage`. The producer of the client library, its metric
-- and JSON are parameters; the options of a send (compression, acknowledgements, time limit) are
-- constants that the library reads, and the connection is made and closed by the framework's hooks.
pub mod Client
use judge_it.Prelude.{◌≡◌}
use judge_it.Prelude.Actions.{Action, ◌>>◌}
use judge_it.Prelude.Results.{Result, done}
use judge_it.Prelude.Text.{Text}
use judge_it.Judge.Service.{SubmissionQueuedEvent}
use judge_it.Submissions.Repository.{QueuedEvent, Database}
use judge_it.Users.Types.{Error}

pub record Producer (S : Type 0) : Type 0 where
  -- `messageQueueConsumerProducedTotal.inc()`
  pub inc_produced : Action S Error (Unit {0})
  -- `producer.send` to a topic of one message with a value
  pub send : Text → Text → Action S Error (Unit {0})

-- `JSON.stringify` of an event, and `JSON.parse` of a text that an event is read from.
pub record Json : Type 1 where
  pub ParseError : Type 0
  pub stringify : QueuedEvent → Text
  pub parse : Text → Result ParseError SubmissionQueuedEvent

-- The fields of an event that the judge reads.
abbrev pub payload_of : QueuedEvent → SubmissionQueuedEvent
payload_of e = record {
  submission_id = e.submission_id;
  problem_id = e.problem_id;
  language = e.language;
  code = e.code;
}

-- What is relied on of JSON: the text of an event is read as that event.
abbrev pub RoundTrip : Json → Type 0
RoundTrip json = (e : QueuedEvent) → json.parse (json.stringify e) ≡ done (payload_of e)

module _ {S : Type 0} (producer : Producer S) (json : Json) where
  unfoldable pub send_message : Text → QueuedEvent → Action S Error (Unit {0})
  send_message topic message = do
    producer.inc_produced
    producer.send topic (json.stringify message)

  -- The submissions with this producer as their queue.
  abbrev pub queued_to : Text → Database S → Database S
  queued_to topic db = record db { send_message = send_message topic }
