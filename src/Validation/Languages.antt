-- ===== src/Validation/Languages.antt =====
-- `POST /submissions/submit` from its body on: the pipe, and then `submit` of
-- src/submissions/submissions.controller.ts.
use judge_it.Prelude.{
  ℕ, ◌≡◌, refl, sym, ap, subst, inl, inr, true, false, ◌||◌, [], ◌∷◌, Option, none, some,
  Option-cases,
}
use judge_it.Prelude.Actions.{Action, throw}
use judge_it.Prelude.Bools.{or-cases}
use judge_it.Prelude.Eq.{text_beq, text_beq_iff, text_eq}
use judge_it.Prelude.Maps.{get}
use judge_it.Prelude.Results.{Result, done, thrown}
use judge_it.Prelude.Text.{Text, text}
use judge_it.Execution.Types.{LanguageConfig, languages, cpp, python}
use judge_it.Submissions.Repository.{Submission, SubmissionDto, QueuedEvent, Database, submit}
use judge_it.Submissions.Submit.{submit_lem}
use judge_it.Users.Types.{Error, bad_request, failure}
use judge_it.Validation.{
  Value, text_value, texts, number, other_number, boolean, object, Body, Pipe, PipeLaws, options,
  submission_rules, language_values, includes, is_enum,
}

abbrev natural : Option Value → Option ℕ
natural (some (number n)) = some n
natural v = none

abbrev string : Option Value → Option Text
string (some (text_value t)) = some t
string v = none

abbrev dto_from : Option ℕ → Option Text → Option Text → Option SubmissionDto
dto_from (some p) (some code) (some l) =
    some (record { problem_id = p; source_code = code; language = l })
dto_from p code l = none

-- The body as its type, and nothing for a problem id that is no natural number.
unfoldable pub submission_of : Body → Option SubmissionDto
submission_of b =
    dto_from (natural (get (text "problemId") b)) (string (get (text "sourceCode") b))
      (string (get (text "language") b))

-- The database keeps the language of what it stores.
abbrev pub KeepsLanguage : {S : Type 0} → Database S → Type 0
KeepsLanguage {S} db =
    (dto : SubmissionDto) (user_id : ℕ) (s t : S) (row : Submission)
    → db.submission_create user_id dto s ≡ (done row, t)
    → row.language ≡ dto.language

abbrev Known : Text → Type 0
Known l = (lang : LanguageConfig) × (languages l ≡ some lang)

-- The languages that the body may name are those that the judge has a configuration of.
included-Known : (l : Text) → includes language_values l ≡ true → Known l
unfolding languages
included-Known l h =
    elim (or-cases (text_beq (text "cpp") l) (text_beq (text "python") l || false) h) [
      | inl e ↦ subst Known ((text_beq_iff (text "cpp") l).0 e) (cpp, refl)
      | inr e ↦ elim (or-cases (text_beq (text "python") l) false e) [
        | inl e' ↦ subst Known ((text_beq_iff (text "python") l).0 e') (python, refl)
        | inr e' ↦ absurd (cc)
      ]
    ]

string-eq : (v : Option Value) {t : Text} → string v ≡ some t → v ≡ some (text_value t)
string-eq none h = cc
string-eq (some (text_value x)) h = cc
string-eq (some (texts xs)) h = cc
string-eq (some (number n)) h = cc
string-eq (some other_number) h = cc
string-eq (some (boolean x)) h = cc
string-eq (some object) h = cc

text_of : {t u : Text} → text_value t ≡ text_value u → t ≡ u
text_of h = cc

abbrev language_or : Text → Option SubmissionDto → Option Text
language_or l none = some l
language_or l (some d) = some d.language

dto_from-language :
    (p : Option ℕ) (code l : Option Text) {dto : SubmissionDto}
    → dto_from p code l ≡ some dto
    → l ≡ some dto.language
dto_from-language none code l h = cc
dto_from-language (some p) none l h = cc
dto_from-language (some p) (some code) none h = cc
dto_from-language (some p) (some code) (some l) h = ap (language_or l) h

never :
    {S : Type 0} {e : Error} {row : Submission} {s t : S}
    → ¬ (◌≡◌ {A = Result Error Submission × S} (thrown e, s) (done row, t))
never h = cc

module _ {S : Type 0} (pipe : Pipe) (db : Database S) where
  -- No problem has an id that is not natural, so the look-up of the problem ends such a request.
  abbrev submit_dto : Option SubmissionDto → Text → ℕ → Action S Error Submission
  submit_dto none user_text user_id = throw (failure (text "Invalid value for argument"))
  submit_dto (some dto) user_text user_id = submit db dto user_text user_id

  abbrev submit_body : Option Body → Text → ℕ → Action S Error Submission
  submit_body none user_text user_id = throw (bad_request (text "Bad Request"))
  submit_body (some b) user_text user_id = submit_dto (submission_of b) user_text user_id

  unfoldable pub submit_request : Body → Text → ℕ → Action S Error Submission
  submit_request body user_text user_id =
      submit_body (pipe.run options submission_rules body) user_text user_id

  validated-Known :
      PipeLaws pipe
      → {body b : Body} {dto : SubmissionDto} → pipe.run options submission_rules body ≡ some b
      → submission_of b ≡ some dto
      → Known dto.language
  unfolding submission_of
  validated-Known laws {body} {b} {dto} h e =
      let there : get (text "language") b ≡ some (text_value dto.language) =
        string-eq (get (text "language") b) (
          dto_from-language (natural (get (text "problemId") b))
            (string (get (text "sourceCode") b)) (string (get (text "language") b)) e) in
      let all =
        laws.checked options submission_rules body b (text "language")
          (is_enum language_values ∷ []) (text_value dto.language) h (unfold get in refl) there in
      let (t, same, allowed) = laws.is_enum_lem language_values (text_value dto.language) all.0 in
      subst Known (text_of (sym same)) (included-Known t allowed)

  -- Whatever the body of a request to submit, with a pipe that checks as documented and a database that
  -- keeps the language of what it stores: when the request returns a row, a message has been sent to
  -- the queue with the id of the row, and the judge has a configuration of the language that the
  -- message names.
  pub submitted_language_known :
      PipeLaws pipe
      → KeepsLanguage db
      → (body : Body) (user_text : Text) (user_id : ℕ) (s t : S) (row : Submission)
      → submit_request body user_text user_id s ≡ (done row, t)
      → (n : S) × (event : QueuedEvent) × (db.send_message event n ≡ (done tt, t))
        × (event.submission_id ≡ row.id)
        × (lang : LanguageConfig) × (languages event.language ≡ some lang)
  unfolding submit_request
  submitted_language_known laws keeps body user_text user_id s t row h =
      let at_body : (b : Body)
          → pipe.run options submission_rules body ≡ some b
          → submit_dto (submission_of b) user_text user_id s ≡ (done row, t) =
        λ b e. subst (λ o. submit_body o user_text user_id s ≡ (done row, t)) e h in
      elim (Option-cases (pipe.run options submission_rules body)) [
        | inl e ↦
            absurd (never (subst (λ o. submit_body o user_text user_id s ≡ (done row, t)) e h))
        | inr (b, e) ↦ elim (Option-cases (submission_of b)) [
          | inl e' ↦ absurd (
              never
                (subst (λ o. submit_dto o user_text user_id s ≡ (done row, t)) e' (at_body b e)))
          | inr (dto, e') ↦
              let (n, stored, sent) =
                (submit_lem db dto user_text user_id s).1 row t (
                  subst (λ o. submit_dto o user_text user_id s ≡ (done row, t)) e' (at_body b e)) in
              let (lang, known) =
                subst Known (sym (keeps dto user_id s n row stored)) (validated-Known laws e e') in
              (n, _, sent, refl, lang, known)
        ]
      ]
