-- ===== src/Shell/Modifiers/Names.antt =====
-- Names in references to variables, as `processName` of parser/shell/lex.go reads them.
use dockerfile.Base.{ℕ, Bool, true, false, [], ◌∷◌, ◌++◌, ◌≡◌, ◌≢◌, refl, arith, ◌∙◌, ◌==◌}
use dockerfile.Base.Text.{Text, AllOf}
use dockerfile.Shell.Lex.{span, process_name, is_name_char, is_digit, is_special_param}

-- A name as in a shell: no digit in front, and letters, digits and underscores throughout
abbrev pub IsName : Text → Type 0
IsName [] = ⊥
IsName (c ∷ s) = (is_digit c ≡ false) × AllOf is_name_char (c ∷ s)

-- A character that `processStopOn('}')` takes as it is
abbrev pub IsInner : ℕ → ℕ → Type 0
IsInner t c = (c ≢ b'\'') × (c ≢ b'"') × (c ≢ b'$') × (c ≢ t) × (c ≢ b'}')

span-append :
    (p : ℕ → Bool) (s : Text) (c : ℕ) (rest : Text)
    → AllOf p s
    → p c ≡ false
    → span p (s ++ c ∷ rest) ≡ (s, c ∷ rest)
unfolding span
span-append p [] c rest h k = ground arith
span-append p (d ∷ s) c rest h k = ground (arith, span-append p s c rest h.1 k)

name_char-not-special :
    (c : ℕ) → is_digit c ≡ false → is_name_char c ≡ true → is_special_param c ≡ false
unfolding is_name_char is_special_param
name_char-not-special c h k = ground arith

pub name_char-not-brace :
    (c : ℕ)
    → is_name_char c ≡ true
    → ((c == b'{') ≡ false) × ((c == b'}') ≡ false) × ((c == b':') ≡ false)
unfolding is_name_char
name_char-not-brace c h = ground arith

process_name_step :
    (c : ℕ) (s : Text)
    → is_digit c ≡ false
    → is_special_param c ≡ false
    → process_name (c ∷ s) ≡ span is_name_char (c ∷ s)
unfolding process_name
process_name_step c s h k = rw (h, k)

pub process_name-append :
    (name : Text) (rest : Text)
    → IsName name
    → process_name (name ++ b':' ∷ rest) ≡ (name, b':' ∷ rest)
process_name-append [] rest h = absurd h
process_name-append (c ∷ s) rest h =
    process_name_step c (s ++ b':' ∷ rest) h.0 (name_char-not-special c h.0 h.1.0)
    ∙ span-append is_name_char (c ∷ s) b':' rest h.1 (unfold is_name_char in refl)

abbrev pub reference : Text → ℕ → Text → Text
reference name m w = b'$' ∷ b'{' ∷ (name ++ b':' ∷ m ∷ (w ++ b'}' ∷ []))
