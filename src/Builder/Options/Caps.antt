-- ===== src/Builder/Options/Caps.antt =====
-- Which capabilities a request may ask for.
use dockerfile.Base.{
  ℕ, List, [], ◌∷◌, Bool, true, false, Option, none, some, ◌≡◌, refl, ◌∙◌, Bool-cases, inl, inr,
  if◌then◌else◌,
}
use dockerfile.Base.Text.{Text, codes}
use dockerfile.Builder.Options.{
  validate_each, is_enabled, has_text, cap_name, enabled_caps, unsupported_cap, OptionError,
  Validity, validate_caps,
}
use dockerfile.Paths.{split}

abbrev is_known : Text → Bool
is_known c = is_enabled (cap_name c) enabled_caps

abbrev is_forwarded : Text → Bool
is_forwarded c = has_text c (codes "+forward")

-- The first capability that the frontend does not have and may not leave to another one
abbrev pub first_refused : List Text → Option Text
first_refused [] = none
first_refused (c ∷ cs) =
    let rest = first_refused cs in
    if is_known c then rest else if is_forwarded c then rest else some c

-- The last capability that the frontend does not have
abbrev pub last_unknown : List Text → Option Text
last_unknown [] = none
last_unknown (c ∷ cs) =
    let rest = last_unknown cs in
    if is_known c then rest else elim rest [ none ↦ some c | some d ↦ some d ]

abbrev refusal : Text → Option OptionError
refusal c = some (unsupported_cap (cap_name c))

abbrev pub verdict : Option Text → Option Text → Validity → Validity
verdict (some c) unknown valid = (false, refusal c)
verdict none (some c) valid = (true, refusal c)
verdict none none valid = valid

verdict_unknown :
    (refused unknown : Option Text) (c : Text) (valid : Validity)
    → verdict refused unknown (true, refusal c)
      ≡ verdict refused (elim unknown [ none ↦ some c | some d ↦ some d ]) valid
verdict_unknown (some e) unknown c valid = refl
verdict_unknown none none c valid = refl
verdict_unknown none (some d) c valid = refl

validate_each-verdict :
    (cs : List Text) (forward : Bool) (error : Option OptionError)
    → validate_each cs forward error ≡ verdict (first_refused cs) (last_unknown cs) (forward, error)
unfolding validate_each
validate_each-verdict [] forward error = refl
validate_each-verdict (c ∷ cs) forward error = elim (Bool-cases (is_known c)) [
  | inl known ↦ rw known (validate_each-verdict cs forward error)
  | inr unknown ↦ elim (Bool-cases (is_forwarded c)) [
    | inl leaves ↦
        rw (unknown, leaves)
          (validate_each-verdict cs true (refusal c)
            ∙ verdict_unknown (first_refused cs) (last_unknown cs) c (forward, error))
    | inr keeps ↦ rw (unknown, keeps) refl
  ]
]

-- The capabilities of a request are separated by commas. One that the frontend does not have and that does
-- not hold `+forward` is refused, the first one by name. Otherwise the request may be forwarded if there
-- is one that the frontend does not have, and the error names the last such one.
pub validate_caps-verdict :
    (c : ℕ) (req : Text)
    → (validate_caps (c ∷ req)
        ≡ verdict
            (first_refused (split (c ∷ req) b','))
            (last_unknown (split (c ∷ req) b','))
            (false, none))
      × (validate_caps [] ≡ (false, none))
unfolding validate_caps
validate_caps-verdict c req = (validate_each-verdict (split (c ∷ req) b',') false none, refl)
