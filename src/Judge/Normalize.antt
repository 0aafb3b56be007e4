-- ===== src/Judge/Normalize.antt =====
-- `normalizeOutputStrict` of src/judge/judge.service.ts, step by step.
pub mod Words
use judge_it.Prelude.{ℕ, Bool, true, false, ◌&&◌, List, [], ◌∷◌, if◌then◌else◌, ◌==◌}
use judge_it.Prelude.Text.{Text, text, is_space, is_nil, trim, join}

abbrev pub starts_lf : Text → Bool
starts_lf [] = false
starts_lf (c ∷ s) = c == 10

-- `replace(/\r\n/g, '\n')`.
unfoldable pub replace_crlf : Text → Text
replace_crlf [] = []
replace_crlf (c ∷ s) =
    let rest = replace_crlf s in if c == 13 && starts_lf s then rest else c ∷ rest

-- `replace(/\r/g, '\n')`.
unfoldable pub replace_cr : Text → Text
replace_cr [] = []
replace_cr (c ∷ s) = (if c == 13 then 10 else c) ∷ replace_cr s

abbrev pub starts_space : Text → Bool
starts_space [] = false
starts_space (c ∷ s) = is_space c

abbrev pub push_head : ℕ → List Text → List Text
push_head c [] = (c ∷ []) ∷ []
push_head c (w ∷ ws) = (c ∷ w) ∷ ws

-- `split(/\s+/)`: a run of white space is one separator, and the parts around it may be empty.
unfoldable pub split_space : Text → List Text
split_space [] = [] ∷ []
split_space (c ∷ s) =
    let rest = split_space s in
    if is_space c then (if starts_space s then rest else [] ∷ rest) else push_head c rest

-- `filter((token) => token.length > 0)`.
unfoldable pub non_empty : List Text → List Text
non_empty [] = []
non_empty (w ∷ ws) = let rest = non_empty ws in if is_nil w then rest else w ∷ rest

unfoldable pub normalize_output_strict : Text → Text
normalize_output_strict output =
    if is_nil output
    then []
    else join (text " ") (non_empty (split_space (trim (replace_cr (replace_crlf output)))))
