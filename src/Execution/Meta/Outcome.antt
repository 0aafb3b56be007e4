-- ===== src/Execution/Meta/Outcome.antt =====
-- Which meta files make which result.
use judge_it.Prelude.{
  ◌≡◌, ◌↔◌, refl, sym, ◌⊎◌, inl, inr, Bool, true, false, [], ◌∷◌, Option, none, some, arith,
  if◌then◌else◌,
}
use judge_it.Prelude.Eq.{text_eq, text_beq_iff}
use judge_it.Prelude.Int.{ℤ, pos, negsuc}
use judge_it.Prelude.Maps.{get}
use judge_it.Prelude.Numbers.{parse_int}
use judge_it.Prelude.Text.{Text, text, includes}
use judge_it.Execution.Types.{IsolateMeta, ok, tle, mle}
use judge_it.Execution.Meta.{
  raw_fields, meta_of, parse_meta_file, build_result_from_meta, on_exit, on_timeout, on_signal,
  on_failure, text_or, int_or, parsed, equals,
}

-- The same for the record that is read from the file.
meta-ok_iff :
    (m : IsolateMeta) (output stderr : Text)
    → let r = build_result_from_meta m output stderr in
      ((r.status ≡ ok)
        ↔ (((m.status ≡ text "OK") ⊎ (m.status ≡ text "RE")) × (m.exit_code ≡ pos 0)))
      × ((r.success ≡ true) ↔ (r.status ≡ ok))
unfolding build_result_from_meta on_exit on_timeout on_signal on_failure
meta-ok_iff m output stderr = ground (
  arith,
  text_beq_iff m.status (text "OK"),
  text_beq_iff m.status (text "RE"),
  text_beq_iff m.status (text "TO"),
  text_beq_iff m.status (text "SG"),
  text_beq_iff m.status (text "XX"),
)

-- A status that is no failure: a missing or empty one counts as 'OK' or 'RE'.
pub IsNormal : Option Text → Type 0
IsNormal o = (o ≡ none) ⊎ (o ≡ some []) ⊎ (o ≡ some (text "OK")) ⊎ (o ≡ some (text "RE"))

pub IsZero : Option ℤ → Type 0
IsZero o = (o ≡ none) ⊎ (o ≡ some (pos 0))

text_or-IsNormal :
    (o : Option Text) (d : Text)
    → (d ≡ text "OK") ⊎ (d ≡ text "RE")
    → ((text_or o d ≡ text "OK") ⊎ (text_or o d ≡ text "RE")) ↔ IsNormal o
unfolding IsNormal
text_or-IsNormal none d h = (λ k. inl refl, λ k. h)
text_or-IsNormal (some []) d h = (λ k. inr (inl refl), λ k. h)
text_or-IsNormal (some (c ∷ t)) d h = ground arith

int_or-IsZero : (o : Option ℤ) → (int_or o (pos 0) ≡ pos 0) ↔ IsZero o
unfolding IsZero
int_or-IsZero none = (λ k. inl refl, λ k. refl)
int_or-IsZero (some (pos n)) = ground arith
int_or-IsZero (some (negsuc n)) = ground arith

fallback :
    (b : Bool) (d : Text)
    → (if b then text "OK" else text "RE") ≡ d
    → (d ≡ text "OK") ⊎ (d ≡ text "RE")
fallback true d h = inl (sym h)
fallback false d h = inr (sym h)

-- A result is OK exactly when the meta file has the status 'OK' or 'RE', an empty one or none, and
-- an exit code that is 0, no number or missing: also when the file is empty. It is a success exactly
-- then.
pub result-ok_iff :
    (content output stderr : Text)
    → let r = build_result_from_meta (parse_meta_file content) output stderr in
      let raw = raw_fields content in
      ((r.status ≡ ok) ↔ (
        IsNormal (get (text "status") raw) × IsZero (parsed parse_int (get (text "exitcode") raw))))
      × ((r.success ≡ true) ↔ (r.status ≡ ok))
unfolding parse_meta_file meta_of
result-ok_iff content output stderr =
    let raw = raw_fields content in
    let same = meta-ok_iff (parse_meta_file content) output stderr in
    let status = get (text "status") raw in
    let normal =
      text_or-IsNormal status _ (fallback (equals (get (text "exitcode") raw) (text "0")) _ refl) in
    let zero = int_or-IsZero (parsed parse_int (get (text "exitcode") raw)) in
    (
      (
        λ h. (let both = same.0.0 h in (normal.0 both.0, zero.0 both.1)),
        λ k. same.0.1 (normal.1 k.0, zero.1 k.1),
      ),
      same.1,
    )

-- The limits: a result is TLE exactly when the status is 'TO', and MLE exactly when the program was
-- killed by signal 9 with a message that speaks of memory.
pub result-limits_iff :
    (m : IsolateMeta) (output stderr : Text)
    → let r = build_result_from_meta m output stderr in
      ((r.status ≡ tle) ↔ (m.status ≡ text "TO"))
      × ((r.status ≡ mle) ↔ (
          (m.status ≡ text "SG")
          × (m.signal ≡ pos 9)
          × (includes (text "memory") m.message ≡ true)))
unfolding build_result_from_meta on_exit on_timeout on_signal on_failure
result-limits_iff m output stderr = ground (
  arith,
  text_beq_iff m.status (text "OK"),
  text_beq_iff m.status (text "RE"),
  text_beq_iff m.status (text "TO"),
  text_beq_iff m.status (text "SG"),
  text_beq_iff m.status (text "XX"),
)

-- A meta file that names neither a status nor an exit code, an empty one for instance, counts as a
-- successful run.
missing_fields-ok :
    (content output stderr : Text)
    → get (text "status") (raw_fields content) ≡ none
    → get (text "exitcode") (raw_fields content) ≡ none
    → let r = build_result_from_meta (parse_meta_file content) output stderr in
      (r.status ≡ ok) × (r.success ≡ true)
unfolding build_result_from_meta parse_meta_file meta_of on_exit
missing_fields-ok content output stderr s e = rw (s, e) (refl, refl)
