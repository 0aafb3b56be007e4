-- ===== src/Tests/Validation.antt =====
-- A pipe that asks for every field of a type, and requests through it.
use judge_it.Prelude.{
  ℕ, ◌≡◌, refl, inl, inr, Bool, true, false, ◌&&◌, List, [], ◌∷◌, Option, none, some, All,
  Bool-cases, leb, arith, if◌then◌else◌, subst,
}
use judge_it.Prelude.Eq.{text_beq, text_eq}
use judge_it.Prelude.Maps.{get}
use judge_it.Prelude.Text.{Text, text}
use judge_it.Prelude.Results.{done}
use judge_it.Execution.Types.{LanguageConfig, languages}
use judge_it.Submissions.Bounds.{InBounds}
use judge_it.Submissions.Repository.{Submission, QueuedEvent, submit, add_submission}
use judge_it.Submissions.Service.{get_filtered_submissions}
use judge_it.Tests.Submissions.{row_of, table, table-Laws, table-KeepsLanguage, three, second_page}
use judge_it.Validation.Languages.{submit_request, submission_of, submitted_language_known}
use judge_it.Validation.Pages.{pagination_of, filtered_request, filtered_request-InBounds}
use judge_it.Validation.{
  options, submission_rules, Value, text_value, texts, number, other_number, boolean, object, Body,
  Decorator, min, is_enum, Rules, Pipe, PipeLaws, includes,
}

abbrev in_enum : List Text → Value → Bool
in_enum xs (text_value t) = includes xs t
in_enum xs v = false

abbrev at_least : ℕ → Value → Bool
at_least n (number k) = leb n k
at_least n v = false

abbrev checks : Decorator → Value → Bool
checks (is_enum xs) v = in_enum xs v
checks (min n) v = at_least n v
checks d v = true

abbrev all_pass : List Decorator → Value → Bool
all_pass [] v = true
all_pass (d ∷ ds) v = checks d v && all_pass ds v

abbrev prepend : Text → List Decorator → Option Value → Option Body → Option Body
prepend n ds (some v) (some b) = if all_pass ds v then some ((n, v) ∷ b) else none
prepend n ds v b = none

abbrev keep : Rules → Body → Option Body
keep [] body = some []
keep ((n, ds) ∷ rules) body = prepend n ds (get n body) (keep rules body)

abbrev strict : Pipe
strict = record { passes = checks; run = λ o rules body. keep rules body }

all_pass-All :
    (ds : List Decorator) (v : Value) → all_pass ds v ≡ true → All (λ d. checks d v ≡ true) ds
all_pass-All [] v h = tt
all_pass-All (d ∷ ds) v h = (ground (arith, h), all_pass-All ds v (ground (arith, h)))

-- What `prepend` gives.
prepend-some :
    (n : Text) (ds : List Decorator) (o : Option Value) (r : Option Body) {b : Body}
    → prepend n ds o r ≡ some b
    → (v : Value) × (rest : Body) × (r ≡ some rest) × (b ≡ (n, v) ∷ rest) × (all_pass ds v ≡ true)
prepend-some n ds none none h = cc
prepend-some n ds none (some r) h = cc
prepend-some n ds (some v) none h = cc
prepend-some n ds (some v) (some r) h = elim (Bool-cases (all_pass ds v)) [
  | inl e ↦ (v, r, refl, ground (arith, e, h), e)
  | inr e ↦ absurd (ground (arith, e, h))
]

strict-checked :
    (rules : Rules) (body b : Body) (name : Text) (ds : List Decorator) (v : Value)
    → keep rules body ≡ some b
    → get name rules ≡ some ds
    → get name b ≡ some v
    → All (λ d. checks d v ≡ true) ds
unfolding get
strict-checked [] body b name ds v h there found = absurd (cc)
strict-checked ((n, es) ∷ rules) body b name ds v h there found =
    let (w, rest, kept, made, passed) = prepend-some n es (get n body) (keep rules body) h in
    let found' : get name ((n, w) ∷ rest) ≡ some v = subst (λ o. get name o ≡ some v) made found in
    elim (Bool-cases (text_beq n name)) [
      | inl e ↦
          subst (λ xs. All (λ d. checks d v ≡ true) xs) (ground (arith, e, there))
            (subst (λ x. All (λ d. checks d x ≡ true) es) (ground (arith, e, found'))
              (all_pass-All es w passed))
      | inr e ↦
          strict-checked rules body rest name ds v kept (ground (arith, e, there))
            (ground (arith, e, found'))
    ]

in_enum-text :
    (xs : List Text) (v : Value)
    → in_enum xs v ≡ true
    → (t : Text) × (v ≡ text_value t) × (includes xs t ≡ true)
in_enum-text xs (text_value t) h = (t, refl, h)
in_enum-text xs (texts ts) h = cc
in_enum-text xs (number n) h = cc
in_enum-text xs other_number h = cc
in_enum-text xs (boolean b) h = cc
in_enum-text xs object h = cc

strict-PipeLaws : PipeLaws strict
strict-PipeLaws = record {
  checked = λ o rules body b name ds v. strict-checked rules body b name ds v;
  is_enum_lem = in_enum-text;
  min_lem = λ n k h. ground (arith, h);
}

-- A body with a field that no rule is about, and a query for the second page of two.
abbrev body : Body
body =
    (text "language", text_value (text "cpp"))
    ∷ (text "userId", number 9)
    ∷ (text "problemId", number 4)
    ∷ (text "sourceCode", text_value (text "x"))
    ∷ []

abbrev query : Body
query = (text "limit", number 2) ∷ (text "offset", number 2) ∷ []

submitted_language_known_example :
    (n : List Submission) × (event : QueuedEvent) × (table.send_message event n
      ≡ (done tt, row_of 0 1 ∷ []))
    × (event.submission_id ≡ 0)
    × (lang : LanguageConfig) × (languages event.language ≡ some lang)
unfolding submit_request submission_of submit add_submission get
submitted_language_known_example =
    submitted_language_known strict table strict-PipeLaws table-KeepsLanguage body (text "1") 1 []
      (row_of 0 1 ∷ []) (row_of 0 1) refl

filtered_request-InBounds_example :
    InBounds (get_filtered_submissions table 1 second_page none three)
unfolding filtered_request pagination_of get get_filtered_submissions
filtered_request-InBounds_example =
    filtered_request-InBounds strict table strict-PipeLaws table-Laws query 1 none three
      (get_filtered_submissions table 1 second_page none three) refl

-- A field without a rule is not let through, and neither is a language that is not in the enum.
passed :
    strict.run options submission_rules body
    ≡ some (
        (text "problemId", number 4)
        ∷ (text "sourceCode", text_value (text "x"))
        ∷ (text "language", text_value (text "cpp"))
        ∷ [])
unfolding get
passed = refl
