-- ===== src/Judge/TestCases/Files.antt =====
-- Test cases that are stored as files, one or two for each, are read back as they were.
use mathlib.Core.List.{reverse-append, reverse-reverse, append_assoc, append-nil}
use judge_it.Prelude.{
  ◌≡◌, refl, sym, ap, ◌∙◌, true, false, List, [], ◌∷◌, ◌++◌, Option, none, some, arith, All, map,
}
use judge_it.Prelude.Eq.{text_eq, text_beq}
use judge_it.Prelude.Maps.{Map, get, put_absent, get_last, put_last, get_other, has, has-append}
use judge_it.Prelude.Text.{Text, text, starts_with}
use judge_it.Execution.Types.{TestCase}
use judge_it.Judge.TestCases.{
  ends_with, file_name, base_name, Entry, add_named, group, complete_entries, fetch_test_cases,
}

file_name_plain : (s : Text) → has b'/' s ≡ false → file_name s ≡ s
unfolding file_name
file_name_plain [] h = refl
file_name_plain (c ∷ s) h = rw h

file_name-append : (dir s : Text) → has b'/' s ≡ false → file_name (dir ++ (b'/' ∷ s)) ≡ s
unfolding file_name
file_name-append [] s h = file_name_plain s h
file_name-append (c ∷ dir) s h =
    rw (has-append b'/' dir (b'/' ∷ s)) (ground (arith, file_name-append dir s h))

base_name_in : (n : Text) → base_name (n ++ text ".in.txt") ≡ n
unfolding base_name ends_with starts_with
base_name_in n = rw (reverse-append n (text ".in.txt")) (reverse-reverse n)

base_name_out : (n : Text) → base_name (n ++ text ".out.txt") ≡ n
unfolding base_name ends_with starts_with
base_name_out n = rw (reverse-append n (text ".out.txt")) (reverse-reverse n)

abbrev in_file : Text → Text
in_file n = n ++ text ".in.txt"

abbrev out_file : Text → Text
out_file n = n ++ text ".out.txt"

in_file_ends :
    (n : Text)
    → (ends_with (text ".in.txt") (in_file n) ≡ true)
      × (ends_with (text ".out.txt") (in_file n) ≡ false)
unfolding ends_with starts_with
in_file_ends n = (rw (reverse-append n (text ".in.txt")), rw (reverse-append n (text ".in.txt")))

out_file_ends :
    (n : Text)
    → (ends_with (text ".in.txt") (out_file n) ≡ false)
      × (ends_with (text ".out.txt") (out_file n) ≡ true)
unfolding ends_with starts_with
out_file_ends n = (rw (reverse-append n (text ".out.txt")), rw (reverse-append n (text ".out.txt")))

abbrev of_input : Text → Text → Entry
of_input n input = record { name = n; input = some input; output = none }

add_in :
    (n content : Text) (m : Map Text Entry)
    → get n m ≡ none
    → add_named m (in_file n) content ≡ m ++ (n, of_input n content) ∷ []
unfolding add_named
add_in n content m h =
    rw (base_name_in n, h, (in_file_ends n).0, (in_file_ends n).1)
      (put_absent n (of_input n content) m h)

add_out :
    (n content : Text) (e : Entry) (m : Map Text Entry)
    → get n m ≡ none
    → add_named (m ++ (n, e) ∷ []) (out_file n) content
      ≡ m ++ (n, record e { output = some content }) ∷ []
unfolding add_named
add_out n content e m h =
    rw (base_name_out n, get_last n e m h, (out_file_ends n).0, (out_file_ends n).1)
      (put_last n e (record e { output = some content }) m h)

-- The files of a test case in a directory of the store: its input, and its output if it has one.
abbrev key_of : Text → Text → Text
key_of dir file = dir ++ (b'/' ∷ file)

abbrev pub cons_output : Text → Text → Option Text → List (Text × Text) → List (Text × Text)
cons_output dir n none files = files
cons_output dir n (some output) files = (key_of dir (out_file n), output) ∷ files

abbrev pub files_of : Text → List TestCase → List (Text × Text)
files_of dir [] = []
files_of dir (t ∷ ts) =
    (key_of dir (in_file t.name), t.input) ∷ cons_output dir t.name t.output (files_of dir ts)

abbrev pub NoSlash : TestCase → Type 0
NoSlash t = has b'/' t.name ≡ false

abbrev pub Distinct : List TestCase → Type 0
Distinct [] = Unit
Distinct (t ∷ ts) = All (λ u. text_beq t.name u.name ≡ false) ts × Distinct ts

abbrev entry_of : TestCase → Text × Entry
entry_of t = (t.name, record { name = t.name; input = some t.input; output = t.output })

key_name :
    (dir n suffix : Text)
    → has b'/' n ≡ false
    → has b'/' suffix ≡ false
    → file_name (key_of dir (n ++ suffix)) ≡ n ++ suffix
key_name dir n suffix h k = file_name-append dir (n ++ suffix) (rw (has-append b'/' n suffix, h) k)

group_output :
    (dir n input : Text) (o : Option Text) (m : Map Text Entry) (files : List (Text × Text))
    → has b'/' n ≡ false
    → get n m ≡ none
    → group (m ++ (n, of_input n input) ∷ []) (cons_output dir n o files)
      ≡ group (m ++ (n, record { name = n; input = some input; output = o }) ∷ []) files
unfolding group
group_output dir n input none m files plain h = refl
group_output dir n input (some o) m files plain h =
    ap (λ g. group g files)
      (ap (λ k. add_named (m ++ (n, of_input n input) ∷ []) k o)
          (key_name dir n (text ".out.txt") plain refl)
        ∙ add_out n o (of_input n input) m h)

group_one :
    (dir : Text) (t : TestCase) (m : Map Text Entry) (files : List (Text × Text))
    → NoSlash t
    → get t.name m ≡ none
    → group m ((key_of dir (in_file t.name), t.input) ∷ cons_output dir t.name t.output files)
      ≡ group (m ++ entry_of t ∷ []) files
unfolding group
group_one dir t m files plain h =
    ap (λ g. group g (cons_output dir t.name t.output files))
      (ap (λ k. add_named m k t.input) (key_name dir t.name (text ".in.txt") plain refl)
        ∙ add_in t.name t.input m h)
    ∙ group_output dir t.name t.input t.output m files plain h

-- The names of the other test cases stay absent when one is added.
still_absent :
    (t : TestCase) (ts : List TestCase) (m : Map Text Entry)
    → All (λ u. get u.name m ≡ none) ts
    → All (λ u. text_beq t.name u.name ≡ false) ts
    → All (λ u. get u.name (m ++ entry_of t ∷ []) ≡ none) ts
still_absent t [] m h k = tt
still_absent t (u ∷ ts) m h k =
    (get_other u.name t.name (entry_of t).1 m h.0 k.0, still_absent t ts m h.1 k.1)

group-files_of :
    (dir : Text) (ts : List TestCase) (m : Map Text Entry)
    → All NoSlash ts
    → Distinct ts
    → All (λ u. get u.name m ≡ none) ts
    → group m (files_of dir ts) ≡ m ++ map entry_of ts
unfolding group
group-files_of dir [] m plain apart h = sym (append-nil m)
group-files_of dir (t ∷ ts) m plain apart h =
    group_one dir t m (files_of dir ts) plain.0 h.0
    ∙ group-files_of dir ts (m ++ entry_of t ∷ []) plain.1 apart.1 (still_absent t ts m h.1 apart.0)
    ∙ append_assoc m (entry_of t ∷ []) (map entry_of ts)

complete-entries : (ts : List TestCase) → complete_entries (map entry_of ts) ≡ ts
unfolding complete_entries
complete-entries [] = refl
complete-entries (t ∷ ts) = ap (◌∷◌ t) (complete-entries ts)

none_yet : (ts : List TestCase) → All (λ u. get {V = Entry} u.name [] ≡ none) ts
unfolding get
none_yet [] = tt
none_yet (t ∷ ts) = (refl, none_yet ts)

-- Test cases that are stored in a directory as files `name.in.txt` and `name.out.txt`, under names
-- that differ and hold no slash, are read back as they were and in their order. One without an
-- output, which has the first file alone, is too.
pub fetch_test_cases-files_of :
    (dir : Text) (ts : List TestCase)
    → All NoSlash ts
    → Distinct ts
    → fetch_test_cases (files_of dir ts) ≡ ts
unfolding fetch_test_cases
fetch_test_cases-files_of dir ts plain apart =
    ap complete_entries (group-files_of dir ts [] plain apart (none_yet ts)) ∙ complete-entries ts
