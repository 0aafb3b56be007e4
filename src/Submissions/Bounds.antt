-- ===== src/Submissions/Bounds.antt =====
-- What the requests for submissions answer, whatever page they ask for.
use native.Mathlib.Nat.{mod-lt, mod-add-div', lt_of_mul-lt-mul_right}
use judge_it.Prelude.{
  ℕ, zero, suc, ◌+◌, ◌-◌, ◌*◌, ◌/◌, ◌≡◌, ◌<◌, ◌≤◌, List, [], ◌∷◌, Option, true, arith, length, take,
  drop,
}
use judge_it.Prelude.Text.{Text}
use judge_it.Submissions.Repository as Repository
use judge_it.Submissions.Repository.{Database, Laws, Pagination, where_}
use judge_it.Submissions.Service.{
  PaginationDto, is_valid, get_all_submissions, get_filtered_submissions,
}

length-take : {A : Type 0} (n : ℕ) (xs : List A) → length (take n xs) ≤ n
length-take zero xs = omega arith
length-take (suc n) [] = omega arith
length-take (suc n) (x ∷ xs) = omega (arith, length-take n xs)

page_below : (c n o : ℕ) → 0 < n → o < c → o / n < (c + (n - 1)) / n
page_below c n o h below =
    lt_of_mul-lt-mul_right n
      (omega (arith, mod-add-div' o n, mod-add-div' (c + (n - 1)) n, mod-lt (c + (n - 1)) h))

full_page : (c n o : ℕ) → 0 < n → (o / n + 1) * n ≤ c → o < c
full_page c n o h full = omega (arith, mod-add-div' o n, mod-lt o h, full)

rest_there :
    {A : Type 0} (n o : ℕ) (xs : List A) → 0 < n → o < length xs → 0 < length (take n (drop o xs))
rest_there n o [] h below = absurd (omega arith)
rest_there zero zero (x ∷ xs) h below = absurd (omega arith)
rest_there (suc n) zero (x ∷ xs) h below = omega arith
rest_there n (suc o) (x ∷ xs) h below = rest_there n o xs h (omega arith)

some_there : {A : Type 0} (n o : ℕ) (xs : List A) → 0 < length (take n (drop o xs)) → o < length xs
some_there zero o xs h = absurd (omega (arith, h))
some_there (suc n) zero [] h = absurd (omega (arith, h))
some_there (suc n) (suc o) [] h = absurd (omega (arith, h))
some_there (suc n) zero (x ∷ xs) h = omega arith
some_there (suc n) (suc o) (x ∷ xs) h = omega (arith, some_there (suc n) o xs h)

-- What holds of an answer for a limit above 0.
abbrev pub InBounds : {A : Type 0} → List A × Pagination → Type 0
InBounds (rows, p) =
    (1 ≤ p.per_page)
    × (length rows ≤ p.per_page)
    × (1 ≤ p.page)
    × (p.page * p.per_page ≤ p.total → 0 < length rows)
    × (0 < length rows → p.page ≤ p.total_pages)

module _ {S : Type 0} (db : Database S) (laws : Laws db) where
  -- A request that passes the checks of its type, with an offset below the number of submissions
  -- that match, gets at least one submission and at most as many as its limit, and the number of its
  -- page is between 1 and the number of pages.
  pub page_in_bounds :
      (user_id : ℕ) (dto : PaginationDto) (verdict : Option Text) (s : S)
      → is_valid dto ≡ true
      → dto.offset < length (laws.rows (where_ user_id verdict) s)
      → (0 < length (get_filtered_submissions db user_id dto verdict s).0)
        × (length (get_filtered_submissions db user_id dto verdict s).0 ≤ dto.limit)
        × (1 ≤ (get_filtered_submissions db user_id dto verdict s).1.page)
        × ((get_filtered_submissions db user_id dto verdict s).1.page
            ≤ (get_filtered_submissions db user_id dto verdict s).1.total_pages)
  unfolding get_filtered_submissions get_all_submissions Repository.get_all_submissions
  page_in_bounds user_id dto verdict s valid below =
      let rows = laws.rows (where_ user_id verdict) s in
      let n = dto.limit in
      let o = dto.offset in
      let positive : 0 < n = ground arith in
      rw
        (
          laws.find_many_lem (where_ user_id verdict) o n s,
          laws.count_lem (where_ user_id verdict) s,
        )
        (
          rest_there n o rows positive below,
          length-take n (drop o rows),
          omega arith,
          omega (arith, page_below (length rows) n o positive below),
        )

  pub filtered-InBounds :
      (user_id : ℕ) (dto : PaginationDto) (verdict : Option Text) (s : S)
      → 1 ≤ dto.limit
      → InBounds (get_filtered_submissions db user_id dto verdict s)
  unfolding get_filtered_submissions get_all_submissions Repository.get_all_submissions
  filtered-InBounds user_id dto verdict s positive =
      let rows = laws.rows (where_ user_id verdict) s in
      let n = dto.limit in
      let o = dto.offset in
      rw
        (
          laws.find_many_lem (where_ user_id verdict) o n s,
          laws.count_lem (where_ user_id verdict) s,
        )
        (
          positive,
          length-take n (drop o rows),
          omega arith,
          λ full. rest_there n o rows positive (full_page (length rows) n o positive full),
          λ found. omega (arith, page_below (length rows) n o positive (some_there n o rows found)),
        )
