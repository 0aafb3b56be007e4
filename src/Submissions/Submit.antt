-- ===== src/Submissions/Submit.antt =====
-- `submit`, and what counts as a solved problem.
use judge_it.Prelude.{ℕ, ◌≡◌, refl, sym, ap, ◌∙◌, ◌++◌, ◌==◌, ◌&&◌, Bool, true, false, none}
use judge_it.Prelude.Actions.{present, continue-eq-done, pure-eq-done, present-eq-done}
use judge_it.Prelude.Numbers.{show_nat}
use judge_it.Prelude.Eq.{text_beq}
use judge_it.Prelude.Results.{done, thrown}
use judge_it.Prelude.Text.{Text, text}
use judge_it.Execution.Types.{ok, tle, mle, re, ce, se}
use judge_it.Judge.Verdict.{Verdict, acc, wa, failed, verdict_text}
use judge_it.Submissions.Repository.{
  Submission, SubmissionDto, QueuedEvent, Database, add_submission, submit, where_solved,
}
use judge_it.Users.Types.{Error, not_found}

abbrev pub missing : ℕ → Error
missing id = not_found (text "Problem #" ++ (show_nat id ++ text " not found"))

module _ {S : Type 0} (db : Database S) where
  -- A submission for a problem that is not there is refused, with nothing stored or sent. One that
  -- is accepted has been stored first, and then sent to the judge under the id of its row, with the
  -- language of the row and the code that was submitted.
  pub submit_lem :
      (dto : SubmissionDto) (user_text : Text) (user_id : ℕ) (s : S)
      → (db.problem_find dto.problem_id s ≡ none
          → submit db dto user_text user_id s ≡ (thrown (missing dto.problem_id), s))
        × ((row : Submission) (t : S)
            → submit db dto user_text user_id s ≡ (done row, t)
            → (m : S) × (db.submission_create user_id dto s ≡ (done row, m))
              × (db.send_message
                    (record {
                      submission_id = row.id;
                      user_id = user_text;
                      problem_id = row.problem_id;
                      language = row.language;
                      code = dto.source_code;
                    })
                    m
                  ≡ (done tt, t)))
  unfolding submit add_submission
  submit_lem dto user_text user_id s = (
    λ e. rw e,
    λ row t h.
        let event : Submission → QueuedEvent = λ r. record {
          submission_id = r.id;
          user_id = user_text;
          problem_id = r.problem_id;
          language = r.language;
          code = dto.source_code;
        } in
        let (made, m, added, h1) = continue-eq-done (add_submission db dto user_id s) _ h in
        let (problem, s1, found, h2) =
          continue-eq-done (present (db.problem_find dto.problem_id s) (missing dto.problem_id) s) _
            added in
        let (there, same) =
          present-eq-done (db.problem_find dto.problem_id s) (missing dto.problem_id) found in
        let (x, s2, sent, h3) = continue-eq-done (db.send_message (event made) m) _ h1 in
        let (it, same') = pure-eq-done h3 in
        (
          m,
          ap (db.submission_create user_id dto) same ∙ h2 ∙ ap (λ r. (done r, m)) it,
          ap (λ r. db.send_message (event r) m) (sym it) ∙ sent ∙ ap (λ z. (done x, z)) same',
        ),
  )

not_accepted : (v : Verdict) → text_beq (verdict_text v) (text "ACCEPTED") ≡ false
not_accepted acc = refl
not_accepted wa = refl
not_accepted (failed ok) = refl
not_accepted (failed tle) = refl
not_accepted (failed mle) = refl
not_accepted (failed re) = refl
not_accepted (failed ce) = refl
not_accepted (failed se) = refl

and_false : (b : Bool) → (b && false) ≡ false
and_false true = refl
and_false false = refl

-- No verdict that the judge writes makes a submission count as solved.
pub judged-unsolved :
    (v : Verdict) (user_id : ℕ) (row : Submission)
    → row.verdicate ≡ verdict_text v
    → where_solved user_id row ≡ false
judged-unsolved v user_id row h = rw (h, not_accepted v) (and_false (row.user_id == user_id))
