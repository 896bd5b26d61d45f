-- ===== src/Instructions/Numbers.antt =====
-- What parser/instructions uses of the package strconv.
use dockerfile.Base.{
  ℕ, zero, suc, ◌==◌, ◌+◌, ◌-◌, ◌*◌, ◌^◌, List, [], ◌∷◌, Bool, true, false, ◌&&◌, ◌||◌, Option,
  none, some, ltb, leb, if◌then◌else◌, ◌≡◌, refl,
}
use dockerfile.Base.Text.{Text, codes, text_eq}

unfoldable pub one_of : List Text → Text → Bool
unfolding text_eq
one_of [] s = false
one_of (t ∷ ts) s = text_eq s t || one_of ts s

-- `strconv.ParseBool`
unfoldable pub parse_bool : Text → Option Bool
unfolding one_of
parse_bool s =
    if one_of (codes "1" ∷ codes "t" ∷ codes "T" ∷ codes "TRUE" ∷ codes "true" ∷ codes "True" ∷ [])
      s
    then some true
    else if one_of
        (codes "0" ∷ codes "f" ∷ codes "F" ∷ codes "FALSE" ∷ codes "false" ∷ codes "False" ∷ []) s
    then some false
    else none

unfoldable pub digits_onto : ℕ → ℕ → Text → Option ℕ
digits_onto base n [] = some n
digits_onto base n (c ∷ s) =
    let rest = digits_onto base (n * base + (c - b'0')) s in
    if leb b'0' c && ltb c (b'0' + base) then rest else none

abbrev pub bounded : ℕ → Option ℕ → Option ℕ
bounded limit none = none
bounded limit (some n) = if ltb n limit then some n else none

-- `strconv.ParseUint` with a base up to ten
unfoldable pub parse_uint : ℕ → ℕ → Text → Option ℕ
unfolding digits_onto
parse_uint base bits [] = none
parse_uint base bits (c ∷ s) = bounded (2 ^ bits) (digits_onto base 0 (c ∷ s))

run_numbers :
    (parse_uint 8 32 (codes "0755") ≡ some 493)
    × (parse_uint 10 32 (codes "4294967296") ≡ none)
    × (parse_bool (codes "T") ≡ some true)
unfolding parse_uint parse_bool
run_numbers = (refl, refl, refl)

-- The machine's integers where they may be negative; `negsuc n` is -(n + 1).
pub data ℤ : Type 0 where
  pos : ℕ → ℤ
  negsuc : ℕ → ℤ

abbrev pub negated : ℕ → ℤ
negated zero = pos 0
negated (suc n) = negsuc n

-- `d < n`
abbrev pub below : ℤ → ℕ → Bool
below (pos m) n = ltb m n
below (negsuc m) n = true

abbrev positive : Option ℕ → Option ℤ
positive none = none
positive (some n) = if ltb n (2 ^ 31) then some (pos n) else none

abbrev negative : Option ℕ → Option ℤ
negative none = none
negative (some n) = if ltb (2 ^ 31) n then none else some (negated n)

-- `strconv.ParseInt` with base ten and 32 bits
unfoldable pub parse_int : Text → Option ℤ
unfolding parse_uint
parse_int [] = none
parse_int (c ∷ s) =
    if c == b'-'
    then negative (parse_uint 10 32 s)
    else if c == b'+'
    then positive (parse_uint 10 32 s)
    else positive (parse_uint 10 32 (c ∷ s))
