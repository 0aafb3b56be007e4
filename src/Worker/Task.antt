-- ===== src/Worker/Task.antt =====
-- The `try` of `processMessage` in src/worker/worker-manager.service.ts: the judgement of a message,
-- of which the errors are caught and logged. What a message is for the boxes and the offsets stands
-- in Worker.Manager.
use judge_it.Prelude.{ℕ, ◌≡◌, ◌↔◌, refl, ap, ◌∙◌, List, Option, none, some}
use judge_it.Prelude.Actions.{continue-eq-done}
use judge_it.Prelude.Results.{Result, done, thrown}
use judge_it.Prelude.Text.{Text}
use judge_it.Execution.Types.{ExecutionResult, TestCase}
use judge_it.Judge.Service.{
  SubmissionQueuedEvent, ProblemDetails, Services, EachTest, config_of, judge_submission,
}
use judge_it.Judge.Service.Outcome.{judge_submission_sound}
use judge_it.Judge.Verdict.{Verdict, acc, final_verdict, collect, verdict_text}
use judge_it.Judge.Verdict.Accepted.{AllPass}
use judge_it.Kafka.{Producer, Json, RoundTrip, send_message, queued_to, payload_of}
use judge_it.Submissions.Repository.{Submission, SubmissionDto, QueuedEvent, Database, submit}
use judge_it.Submissions.Submit.{submit_lem}

module _ {W : Type 0} (services : Services W) (json : Json) where
  abbrev pub judge_payload : Result json.ParseError SubmissionQueuedEvent → ℕ → W → W
  judge_payload (done payload) box_id w = (judge_submission services payload box_id w).1
  judge_payload (thrown e) box_id w = w

  unfoldable pub process_message : Option Text → ℕ → W → W
  process_message none box_id w = w
  process_message (some message) box_id w = judge_payload (json.parse message) box_id w

-- The event that `submit` makes of a row.
abbrev pub event_of : SubmissionDto → Text → Submission → QueuedEvent
event_of dto user_text row = record {
  submission_id = row.id;
  user_id = user_text;
  problem_id = row.problem_id;
  language = row.language;
  code = dto.source_code;
}

-- The part of `judgeSubmission` on a submission: the batch of its code, and its verdict.
abbrev pub Written : {W : Type 0} → Services W → ℕ → Submission → Text → W → W → Type 0
Written {W} services box_id row code w w' =
    (tests : List TestCase) × (details : ProblemDetails) × (results : List ExecutionResult)
    × (vs : List Verdict) × (w1 : W) × (w2 : W) × (w3 : W) × (w4 : W) × (services.get_test_cases
          row.problem_id w
        ≡ (done tests, w1))
    × (services.execute_batch box_id code row.language tests (config_of details) w2
        ≡ (done results, w3))
    × (services.update_submission row.id (verdict_text (final_verdict vs))
          (collect row.id 0 0 vs results tests).execution_time
          (collect row.id 0 0 vs results tests).memory_used w3
        ≡ (done tt, w4))
    × (services.add_submission_results (collect row.id 0 0 vs results tests).rows w4
        ≡ (done tt, w'))
    × ((final_verdict vs ≡ acc) ↔ AllPass results tests)

module _ {S W : Type 0} (db : Database S) (producer : Producer S) (services : Services W)
    (json : Json) (topic : Text) where
  send_message-sent :
      (e : QueuedEvent) (s t : S)
      → send_message producer json topic e s ≡ (done tt, t)
      → (n : S) × (producer.send topic (json.stringify e) n ≡ (done tt, t))
  unfolding send_message
  send_message-sent e s t h =
      let (u, n, counted, sent) = continue-eq-done (producer.inc_produced s) _ h in (n, sent)

  process_message-parsed :
      (e : QueuedEvent) (box_id : ℕ) (w : W)
      → RoundTrip json
      → process_message services json (some (json.stringify e)) box_id w
        ≡ (judge_submission services (payload_of e) box_id w).1
  unfolding process_message
  process_message-parsed e box_id w reads = rw (reads e) refl

  -- A submission that was accepted has sent a value to the queue, and where the judgement of what
  -- the row and the code say returns, a worker that takes the value ends in the state of that
  -- judgement: the code was run on the test cases of the row's problem, the row under the id that
  -- the user was told has the verdict, which is 'ACC' if and only if every test passed.
  pub submission_judged :
      (dto : SubmissionDto) (user_text : Text) (user_id box_id : ℕ) (row : Submission) (s t : S)
      (w w' : W) (answer : List Text)
      → RoundTrip json
      → EachTest services
      → submit (queued_to producer json topic db) dto user_text user_id s ≡ (done row, t)
      → judge_submission services (payload_of (event_of dto user_text row)) box_id w
        ≡ (done answer, w')
      → (n : S) × (value : Text) × (producer.send topic value n ≡ (done tt, t))
        × (process_message services json (some value) box_id w ≡ w')
        × Written services box_id row dto.source_code w w'
  submission_judged dto user_text user_id box_id row s t w w' answer reads each h judged =
      let event = event_of dto user_text row in
      let (m, created, queued) =
        (submit_lem (queued_to producer json topic db) dto user_text user_id s).1 row t h in
      let (n, sent) = send_message-sent event m t queued in
      let (
        tests, details, results, vs, s1, s2, s3, s4, loaded, limits, ran, updated, added, it, all,
      ) =
        judge_submission_sound services each (payload_of event) box_id w w' answer judged in
      (
        n,
        json.stringify event,
        sent,
        process_message-parsed event box_id w reads ∙ ap (λ r. r.1) judged,
        (tests, details, results, vs, s1, s2, s3, s4, loaded, ran, updated, added, all),
      )
