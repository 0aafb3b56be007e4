-- ===== src/Judge/Normalize/Words.antt =====
-- The words of a text, described without the steps of `normalizeOutputStrict`, and what the steps do
-- to them.
use mathlib.Core.List.{append-nil}
use judge_it.Prelude.{
  ℕ, ◌≡◌, refl, sym, ap, ◌∙◌, inl, inr, ◌↔◌, Bool, true, false, not, List, [], ◌∷◌, ◌++◌,
  if◌then◌else◌, arith, All, Bool-cases,
}
use judge_it.Prelude.Text.{Text, text, is_space, is_nil, trim, trim_start, trim_end, join}
use judge_it.Judge.Normalize.{
  starts_lf, replace_crlf, replace_cr, starts_space, push_head, split_space, non_empty,
  normalize_output_strict,
}

abbrev starts_word : Text → Bool
starts_word [] = false
starts_word (c ∷ s) = not (is_space c)

-- The maximal runs of characters that are not white space, in order.
pub words : Text → List Text
words [] = []
words (c ∷ s) =
    let rest = words s in
    if is_space c then rest else (if starts_word s then push_head c rest else (c ∷ []) ∷ rest)

cr-is_space : is_space 13 ≡ true
unfolding is_space
cr-is_space = refl

lf-is_space : is_space 10 ≡ true
unfolding is_space
lf-is_space = refl

starts_lf-starts_word : (s : Text) → starts_lf s ≡ true → starts_word s ≡ false
starts_lf-starts_word [] h = refl
starts_lf-starts_word (c ∷ s) h = ground (arith, lf-is_space)

replace_crlf-starts_word : (s : Text) → starts_word (replace_crlf s) ≡ starts_word s
unfolding replace_crlf
replace_crlf-starts_word [] = refl
replace_crlf-starts_word (c ∷ s) =
    ground (arith, replace_crlf-starts_word s, cr-is_space, starts_lf-starts_word s)

-- The steps that prepare the text keep its words.
words-replace_crlf : (s : Text) → words (replace_crlf s) ≡ words s
unfolding words replace_crlf
words-replace_crlf [] = refl
words-replace_crlf (c ∷ s) =
    ground (arith, words-replace_crlf s, cr-is_space, replace_crlf-starts_word s)

replace_cr-starts_word : (s : Text) → starts_word (replace_cr s) ≡ starts_word s
unfolding replace_cr
replace_cr-starts_word [] = refl
replace_cr-starts_word (c ∷ s) = ground (arith, cr-is_space, lf-is_space)

words-replace_cr : (s : Text) → words (replace_cr s) ≡ words s
unfolding words replace_cr
words-replace_cr [] = refl
words-replace_cr (c ∷ s) =
    ground (arith, words-replace_cr s, cr-is_space, lf-is_space, replace_cr-starts_word s)

words-trim_start : (s : Text) → words (trim_start s) ≡ words s
unfolding words trim_start
words-trim_start [] = refl
words-trim_start (c ∷ s) = ground (arith, words-trim_start s)

trim_end-starts_word : (s : Text) → starts_word (trim_end s) ≡ starts_word s
unfolding trim_end
trim_end-starts_word [] = refl
trim_end-starts_word (c ∷ s) = ground arith

words_nil : (s : Text) → is_nil s ≡ true → words s ≡ []
unfolding words
words_nil [] h = refl
words_nil (c ∷ s) h = cc

words-trim_end : (s : Text) → words (trim_end s) ≡ words s
unfolding words trim_end
words-trim_end [] = refl
words-trim_end (c ∷ s) =
    ground (arith, words-trim_end s, trim_end-starts_word s, words_nil (trim_end s))

words-trim : (s : Text) → words (trim s) ≡ words s
unfolding trim
words-trim s = words-trim_end (trim_start s) ∙ words-trim_start s

-- The first part that `split` makes is empty unless the text starts with a word.
abbrev Starts : Bool → List Text → Type 0
Starts b ws = (h : Text) × (t : List Text) × (ws ≡ h ∷ t) × (is_nil h ≡ not b)

starts_space-starts_word : (s : Text) → starts_space s ≡ true → starts_word s ≡ false
starts_space-starts_word [] h = refl
starts_space-starts_word (c ∷ s) h = rw h

split_space-Starts : (s : Text) → Starts (starts_word s) (split_space s)
unfolding split_space
split_space-Starts [] = ([], [], refl, refl)
split_space-Starts (c ∷ s) =
    let (h, t, e, n) = split_space-Starts s in
    elim (Bool-cases (is_space c)) [
      | inr word ↦ rw word (c ∷ h, t, rw e, refl)
      | inl space ↦ elim (Bool-cases (starts_space s)) [
        | inl more ↦ rw (space, more) (h, t, e, ground (arith, starts_space-starts_word s))
        | inr last ↦ rw (space, last) ([], split_space s, refl, refl)
      ]
    ]

non_empty-split_space : (s : Text) → non_empty (split_space s) ≡ words s
unfolding split_space non_empty words
non_empty-split_space [] = refl
non_empty-split_space (c ∷ s) = ground (arith, non_empty-split_space s, split_space-Starts s)

-- A word is not empty and has no white space.
abbrev IsSolid : Text → Type 0
IsSolid w = All (λ c. is_space c ≡ false) w

abbrev IsWord : Text → Type 0
IsWord w = (is_nil w ≡ false) × IsSolid w

push_head-IsWord :
    (c : ℕ) (ws : List Text) → is_space c ≡ false → All IsWord ws → All IsWord (push_head c ws)
push_head-IsWord c [] h k = ((refl, (h, tt)), tt)
push_head-IsWord c (w ∷ ws) h k = ((refl, (h, k.0.1)), k.1)

words-IsWord : (s : Text) → All IsWord (words s)
unfolding words
words-IsWord [] = tt
words-IsWord (c ∷ s) = ground (arith, words-IsWord s, push_head-IsWord c (words s))

words-append :
    (c : ℕ) (w r : Text)
    → IsSolid (c ∷ w)
    → starts_word r ≡ false
    → words ((c ∷ w) ++ r) ≡ (c ∷ w) ∷ words r
unfolding words
words-append c [] r h k = ground arith
words-append c (d ∷ w) r h k = rw (words-append d w r h.1 k) (ground arith)

blank-starts_word : (r : Text) → starts_word (32 ∷ r) ≡ false
unfolding is_space
blank-starts_word r = refl

words-blank : (r : Text) → words (32 ∷ r) ≡ words r
unfolding words is_space
words-blank r = refl

words-join : (ws : List Text) → All IsWord ws → words (join (text " ") ws) ≡ ws
unfolding join words
words-join [] h = refl
words-join ((c ∷ w) ∷ []) h = ap words (sym (append-nil (c ∷ w))) ∙ words-append c w [] h.0.1 refl
words-join ((c ∷ w) ∷ v ∷ ws) h =
    words-append c w (32 ∷ join (text " ") (v ∷ ws)) h.0.1
      (blank-starts_word (join (text " ") (v ∷ ws)))
    ∙ ap (◌∷◌ (c ∷ w)) (words-blank (join (text " ") (v ∷ ws)) ∙ words-join (v ∷ ws) h.1)
words-join ([] ∷ []) h = cc
words-join ([] ∷ v ∷ ws) h = cc

-- The normalised output is the words of the output with one space between them.
pub normalize-join : (s : Text) → normalize_output_strict s ≡ join (text " ") (words s)
unfolding normalize_output_strict
normalize-join [] = unfold words join in refl
normalize-join (c ∷ s) =
    ap (join (text " "))
      (non_empty-split_space _ ∙ words-trim _ ∙ words-replace_cr _ ∙ words-replace_crlf (c ∷ s))

pub words-normalize : (s : Text) → words (normalize_output_strict s) ≡ words s
words-normalize s = ap words (normalize-join s) ∙ words-join (words s) (words-IsWord s)

-- Two outputs are the same after normalisation exactly when they have the same words in the same
-- order: the comparison forgets how much white space of whatever kind stands between, before and
-- after them, and nothing else.
pub normalize_eq_iff :
    (a b : Text) → (normalize_output_strict a ≡ normalize_output_strict b) ↔ (words a ≡ words b)
normalize_eq_iff a b = (
  λ e. sym (words-normalize a) ∙ ap words e ∙ words-normalize b,
  λ e. normalize-join a ∙ ap (join (text " ")) e ∙ sym (normalize-join b),
)

-- Normalising twice is normalising once.
pub normalize_idempotent :
    (s : Text) → normalize_output_strict (normalize_output_strict s) ≡ normalize_output_strict s
normalize_idempotent s = (normalize_eq_iff _ s).1 (words-normalize s)
