-- ===== src/Submissions/Pages.antt =====
-- The pages of `getAllSubmissions` of src/submissions/submissions.repository.ts, one after another.
use native.Mathlib.Nat.{mod-lt, mod-add-div'}
use judge_it.Prelude.{
  ℕ, zero, suc, ◌+◌, ◌-◌, ◌*◌, ◌/◌, ◌≡◌, ◌<◌, ◌≤◌, refl, sym, ap, ◌∙◌, List, [], ◌∷◌, ◌++◌, Option,
  some, arith, length, take, drop,
}
use judge_it.Prelude.Text.{Text}
use judge_it.Submissions.Repository.{Submission, Database, Laws, get_all_submissions, where_}

ceil_covers : (c n : ℕ) → 0 < n → c ≤ ((c + (n - 1)) / n) * n
ceil_covers c n h = omega (arith, mod-add-div' (c + (n - 1)) n, mod-lt (c + (n - 1)) h)

take_nil : {A : Type 0} (n : ℕ) → take {A = A} n [] ≡ []
take_nil zero = refl
take_nil (suc n) = refl

take_add : {A : Type 0} (m n : ℕ) (xs : List A) → take (m + n) xs ≡ take m xs ++ take n (drop m xs)
take_add zero n xs = let e : zero + n ≡ n = omega arith in ap (λ i. take i xs) e
take_add (suc m) n [] =
    let e : suc m + n ≡ suc (m + n) = omega arith in ap (λ i. take i []) e ∙ sym (take_nil n)
take_add (suc m) n (x ∷ xs) =
    let e : suc m + n ≡ suc (m + n) = omega arith in
    ap (λ i. take i (x ∷ xs)) e ∙ ap (◌∷◌ x) (take_add m n xs)

take_all : {A : Type 0} (m : ℕ) (xs : List A) → length xs ≤ m → take m xs ≡ xs
take_all zero [] h = refl
take_all (suc m) [] h = refl
take_all zero (x ∷ xs) h = absurd (omega arith)
take_all (suc m) (x ∷ xs) h = ap (◌∷◌ x) (take_all m xs (omega arith))

module _ {S : Type 0} (db : Database S) where
  -- What the first `k` pages of `n` rows hold, the page numbered `i + 1` being asked for by the
  -- offset `i * n`.
  abbrev pub first_pages : ℕ → Option Text → ℕ → ℕ → S → List Submission
  first_pages user_id verdict n zero s = []
  first_pages user_id verdict n (suc k) s =
      first_pages user_id verdict n k s
      ++ (get_all_submissions db user_id verdict (some n) (some (k * n)) s).0

module _ {S : Type 0} (db : Database S) (laws : Laws db) where
  first_pages_lem :
      (user_id : ℕ) (verdict : Option Text) (n k : ℕ) (s : S)
      → first_pages db user_id verdict n k s ≡ take (k * n) (laws.rows (where_ user_id verdict) s)
  unfolding get_all_submissions
  first_pages_lem user_id verdict n zero s =
      let start : zero * n ≡ zero = omega arith in
      sym (ap (λ i. take i (laws.rows (where_ user_id verdict) s)) start)
  first_pages_lem user_id verdict n (suc k) s =
      let test = where_ user_id verdict in
      let next : suc k * n ≡ k * n + n = omega arith in
      rw (next, first_pages_lem user_id verdict n k s, laws.find_many_lem test (k * n) n s)
        (sym (take_add (k * n) n (laws.rows test s)))

  -- The pages of a limit above 0, as many as `total_pages` says, hold every matching row once, in
  -- the order of the table, whatever page `total_pages` is read from.
  pub pages_cover :
      (user_id : ℕ) (verdict : Option Text) (n : ℕ) (offset : Option ℕ) (s : S)
      → 0 < n
      → first_pages db user_id verdict n
          (get_all_submissions db user_id verdict (some n) offset s).1.total_pages
          s
        ≡ laws.rows (where_ user_id verdict) s
  unfolding get_all_submissions
  pages_cover user_id verdict n offset s h =
      let test = where_ user_id verdict in
      let c = db.submission_count test s in
      first_pages_lem user_id verdict n ((c + (n - 1)) / n) s
      ∙ take_all (((c + (n - 1)) / n) * n) (laws.rows test s)
          (omega (arith, ceil_covers c n h, laws.count_lem test s))
