-- ===== src/Execution/Meta/Fields.antt =====
-- The lines of a meta file read back as the fields that they were written from.
use judge_it.Prelude.{ℕ, ◌≡◌, refl, false, List, [], ◌∷◌, ◌++◌, some, All, ◌==◌}
use judge_it.Prelude.Eq.{text_eq}
use judge_it.Prelude.Maps.{Map, put}
use judge_it.Prelude.Text.{Text, is_nil, trim}
use judge_it.Execution.Meta.{split_lines, at_colon, set_field, read_lines, raw_fields}

abbrev Lacks : ℕ → Text → Type 0
Lacks x s = All (λ c. (c == x) ≡ false) s

-- A key is not empty, holds no colon and no line feed, and has no white space around it; a value
-- holds no line feed and has no white space around it.
pub record IsField (f : Text × Text) : Type 0 where
  pub key_ne_nil : is_nil f.0 ≡ false
  pub key_lacks_colon : Lacks b':' f.0
  pub key_lacks_lf : Lacks b'\n' f.0
  pub value_lacks_lf : Lacks b'\n' f.1
  pub key_trimmed : trim f.0 ≡ f.0
  pub value_trimmed : trim f.1 ≡ f.1

abbrev pub render_field : Text × Text → Text
render_field f = f.0 ++ (b':' ∷ f.1)

abbrev pub render : List (Text × Text) → Text
render [] = []
render (f ∷ []) = render_field f
render (f ∷ g ∷ fs) = render_field f ++ (b'\n' ∷ render (g ∷ fs))

-- Later fields replace earlier ones of the same key.
abbrev pub put_all : Map Text Text → List (Text × Text) → Map Text Text
put_all raw [] = raw
put_all raw (f ∷ fs) = put_all (put f.0 f.1 raw) fs

at_colon-append :
    (key value : Text) → Lacks b':' key → at_colon (key ++ (b':' ∷ value)) ≡ some (key, value)
unfolding at_colon
at_colon-append [] value h = refl
at_colon-append (c ∷ key) value h = rw (h.0, at_colon-append key value h.1)

split_lines-append :
    (l r : Text) → Lacks b'\n' l → split_lines (l ++ (b'\n' ∷ r)) ≡ l ∷ split_lines r
unfolding split_lines
split_lines-append [] r h = refl
split_lines-append (c ∷ l) r h = rw (h.0, split_lines-append l r h.1)

split_lines_one : (l : Text) → Lacks b'\n' l → split_lines l ≡ l ∷ []
unfolding split_lines
split_lines_one [] h = refl
split_lines_one (c ∷ l) h = rw (h.0, split_lines_one l h.1)

Lacks-append : (x : ℕ) (s t : Text) → Lacks x s → Lacks x t → Lacks x (s ++ t)
Lacks-append x [] t h k = k
Lacks-append x (c ∷ s) t h k = (h.0, Lacks-append x s t h.1 k)

render_field-Lacks : (f : Text × Text) → IsField f → Lacks b'\n' (render_field f)
render_field-Lacks f h = Lacks-append b'\n' f.0 (b':' ∷ f.1) h.key_lacks_lf (refl, h.value_lacks_lf)

set_field_lem :
    (raw : Map Text Text) (f : Text × Text)
    → IsField f
    → set_field raw (at_colon (render_field f)) ≡ put f.0 f.1 raw
set_field_lem raw f h =
    rw (at_colon-append f.0 f.1 h.key_lacks_colon, h.key_ne_nil, h.key_trimmed, h.value_trimmed)

read_lines-render :
    (raw : Map Text Text) (fs : List (Text × Text))
    → All IsField fs
    → read_lines raw (split_lines (render fs)) ≡ put_all raw fs
unfolding read_lines
read_lines-render raw [] h = unfold split_lines at_colon in refl
read_lines-render raw (f ∷ []) h =
    rw (split_lines_one (render_field f) (render_field-Lacks f h.0)) (set_field_lem raw f h.0)
read_lines-render raw (f ∷ g ∷ fs) h =
    rw
      (
        split_lines-append (render_field f) (render (g ∷ fs)) (render_field-Lacks f h.0),
        read_lines,
        set_field_lem raw f h.0,
      )
      (read_lines-render (put f.0 f.1 raw) (g ∷ fs) h.1)

-- Reading the lines `key:value` that were written for some fields gives those fields back, the last
-- value of each key. The keys hold no colon, and nothing a line feed or white space at its ends.
pub raw_fields-render :
    (fs : List (Text × Text)) → All IsField fs → raw_fields (render fs) ≡ put_all [] fs
unfolding raw_fields
raw_fields-render fs h = read_lines-render [] fs h
