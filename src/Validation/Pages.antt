-- ===== src/Validation/Pages.antt =====
-- `GET /submissions/filtered` from its query on: the pipe, and then the page.
use judge_it.Prelude.{
  ℕ, ◌≡◌, ap, inl, inr, subst, ◌≤◌, refl, List, [], ◌∷◌, Option, none, some, Option-cases, arith,
}
use judge_it.Prelude.Eq.{text_eq}
use judge_it.Prelude.Maps.{get}
use judge_it.Prelude.Text.{Text, text}
use judge_it.Submissions.Bounds.{InBounds, filtered-InBounds}
use judge_it.Submissions.Repository.{Submission, Database, Laws, Pagination}
use judge_it.Submissions.Service.{PaginationDto, default_pagination, get_filtered_submissions}
use judge_it.Validation.{
  Value, text_value, texts, number, other_number, boolean, object, Body, Pipe, PipeLaws, options,
  pagination_rules, is_optional, type_number, is_int, min,
}

-- A field that is missing keeps the value it is initialised with.
abbrev field : Option Value → ℕ → Option ℕ
field none initial = some initial
field (some (number n)) initial = some n
field (some v) initial = none

abbrev page_from : Option ℕ → Option ℕ → Option PaginationDto
page_from (some limit) (some offset) = some (record { limit = limit; offset = offset })
page_from limit offset = none

unfoldable pub pagination_of : Body → Option PaginationDto
pagination_of b =
    page_from (field (get (text "limit") b) default_pagination.limit)
      (field (get (text "offset") b) default_pagination.offset)

field-min :
    (v : Option Value) (n limit : ℕ)
    → 1 ≤ n
    → ((k : ℕ) → v ≡ some (number k) → 1 ≤ k)
    → field v n ≡ some limit
    → 1 ≤ limit
field-min none n limit h all e = ground (arith, e)
field-min (some (number k)) n limit h all e = ground (arith, e, all k refl)
field-min (some (text_value t)) n limit h all e = cc
field-min (some (texts ts)) n limit h all e = cc
field-min (some other_number) n limit h all e = cc
field-min (some (boolean b)) n limit h all e = cc
field-min (some object) n limit h all e = cc

nothing_there : {A : Type 0} {x : A} → ¬ (none ≡ some x)
nothing_there h = cc

unwrapped : {A : Type 0} {x y : A} → some x ≡ some y → x ≡ y
unwrapped h = cc

abbrev limit_or : ℕ → Option PaginationDto → Option ℕ
limit_or n none = some n
limit_or n (some dto) = some dto.limit

page_from-limit :
    (l o : Option ℕ) {dto : PaginationDto} → page_from l o ≡ some dto → l ≡ some dto.limit
page_from-limit none o h = cc
page_from-limit (some l) none h = cc
page_from-limit (some l) (some o) h = ap (limit_or l) h

module _ {S : Type 0} (pipe : Pipe) (db : Database S) where
  abbrev page_of :
      Option PaginationDto → ℕ → Option Text → S → Option (List Submission × Pagination)
  page_of none user_id verdict s = none
  page_of (some dto) user_id verdict s = some (get_filtered_submissions db user_id dto verdict s)

  abbrev read_query : Option Body → Option PaginationDto
  read_query none = none
  read_query (some b) = pagination_of b

  -- Nothing for a query that is refused.
  unfoldable pub filtered_request :
      Body → ℕ → Option Text → S → Option (List Submission × Pagination)
  filtered_request query user_id verdict s =
      page_of (read_query (pipe.run options pagination_rules query)) user_id verdict s

  read_query-limit :
      PipeLaws pipe
      → (query : Body) {dto : PaginationDto}
      → read_query (pipe.run options pagination_rules query) ≡ some dto
      → 1 ≤ dto.limit
  unfolding pagination_of
  read_query-limit laws query {dto} h =
      elim (Option-cases (pipe.run options pagination_rules query)) [
        | inl e ↦ absurd (nothing_there (subst (λ o. read_query o ≡ some dto) e h))
        | inr (b, e) ↦
            let read : pagination_of b ≡ some dto = subst (λ o. read_query o ≡ some dto) e h in
            field-min (get (text "limit") b) default_pagination.limit dto.limit (omega arith)
              (λ k there.
                laws.min_lem 1 k
                  (laws.checked options pagination_rules query b (text "limit")
                    (is_optional ∷ type_number ∷ is_int ∷ min 1 ∷ []) (number k) e
                    (unfold get in refl) there).1.1.1.0)
              (page_from-limit _ _ read)
      ]

  -- Whatever the query that the pipe, checking as documented, lets through: the answer has at most
  -- `per_page` submissions, which is at least 1, its page is at least 1, a page that `total` fills is
  -- not empty, and the number of a page that is not empty is at most `total_pages`.
  pub filtered_request-InBounds :
      PipeLaws pipe
      → Laws db
      → (query : Body) (user_id : ℕ) (verdict : Option Text) (s : S)
        (answer : List Submission × Pagination)
      → filtered_request query user_id verdict s ≡ some answer
      → InBounds answer
  unfolding filtered_request
  filtered_request-InBounds pipe_laws laws query user_id verdict s answer h =
      elim (Option-cases (read_query (pipe.run options pagination_rules query))) [
        | inl e ↦
            absurd (nothing_there (subst (λ o. page_of o user_id verdict s ≡ some answer) e h))
        | inr (dto, e) ↦
            subst InBounds (unwrapped (subst (λ o. page_of o user_id verdict s ≡ some answer) e h))
              (filtered-InBounds db laws user_id dto verdict s (read_query-limit pipe_laws query e))
      ]
