-- ===== src/Shell/Lex.antt =====
-- parser/shell/lex.go: `Lex` and `shellWord`. What is left in the scanner is a text; a scanner
-- skips a byte-order mark before the first code point. `unicode.IsLetter` and `unicode.IsDigit`
-- are those of ASCII.
use dockerfile.Base.{
  ℕ, Bool, true, false, ◌&&◌, ◌||◌, List, [], ◌∷◌, ◌++◌, Option, none, some, leb, ◌==◌,
  if◌then◌else◌, snoc,
}
use dockerfile.Base.Text.{Text, codes}
use dockerfile.Shell.Env.{Env, get_env}

pub record Lex : Type 0 where
  pub escape_token : ℕ
  pub raw_quotes : Bool
  pub raw_escapes : Bool
  pub skip_unset_env : Bool

-- `NewLex`
unfoldable pub new_lex : ℕ → Lex
new_lex escape_token = record {
  escape_token = escape_token;
  raw_quotes = false;
  raw_escapes = false;
  skip_unset_env = false;
}

pub data Error : Type 0 where
  unmatched : ℕ → Error
  unmatched_single_quote unmatched_double_quote : Error
  missing_brace bad_substitution missing_colon : Error
  -- the name, and the message of the file or the default one
  not_set : Text → Text → Error
  unsupported_modifier : ℕ → Error
  -- `errors.Wrapf(err, "failed to process %q", source)`
  failed_to_process : Text → Error → Error

-- A result or an error, with what is left in the scanner. `out_of_fuel` is the model's own.
pub data Outcome {ℓ} (A : Type ℓ) : Type ℓ where
  ok : A → Text → Outcome A
  err : Error → Text → Outcome A
  out_of_fuel : Outcome A

abbrev pub is_digit : ℕ → Bool
is_digit c = leb b'0' c && leb c b'9'

abbrev pub is_letter : ℕ → Bool
is_letter c = (leb b'a' c && leb c b'z') || (leb b'A' c && leb c b'Z')

unfoldable pub is_special_param : ℕ → Bool
is_special_param c =
    c == b'@'
    || c == b'*'
    || c == b'#'
    || c == b'?'
    || c == b'-'
    || c == b'$'
    || c == b'!'
    || c == b'0'

unfoldable pub is_name_char : ℕ → Bool
is_name_char c = is_letter c || is_digit c || c == b'_'

-- The code points in front that `p` accepts, and the rest.
unfoldable pub span : (ℕ → Bool) → Text → Text × Text
span p [] = ([], [])
span p (c ∷ s) = let (front, rest) = span p s in if p c then (c ∷ front, rest) else ([], c ∷ s)

-- `processName`
unfoldable pub process_name : Text → Text × Text
unfolding is_special_param is_name_char span
process_name [] = ([], [])
process_name (c ∷ s) =
    if is_digit c
    then span is_digit (c ∷ s)
    else if is_special_param c
    then (c ∷ [], s)
    else span is_name_char (c ∷ s)

-- The loop of `processSingleQuote`, behind the opening quote.
unfoldable pub single_quote_loop : Bool → Text → Text → Outcome Text
single_quote_loop raw [] result = err unmatched_single_quote []
single_quote_loop raw (ch ∷ rest) result =
    let more = single_quote_loop raw rest (snoc result ch) in
    if ch == b'\'' then ok (if raw then snoc result ch else result) rest else more

-- `processSingleQuote`, behind the quote `ch`
unfoldable pub process_single_quote : Lex → ℕ → Text → Outcome Text
unfolding single_quote_loop
process_single_quote lex ch rest =
    single_quote_loop lex.raw_quotes rest (if lex.raw_quotes then ch ∷ [] else [])

abbrev pub or_default : Text → Text → Text
or_default [] default = default
or_default (c ∷ word) default = c ∷ word

abbrev pub is_empty : Text → Bool
is_empty [] = true
is_empty (_ ∷ _) = false

abbrev pub unset_message : Text
unset_message = codes "is not allowed to be unset"

abbrev pub empty_message : Text
empty_message = codes "is not allowed to be empty"

-- The text between `${` and `}` back as it stood
abbrev pub braced : Text → Text
braced inner = b'$' ∷ b'{' ∷ (inner ++ b'}' ∷ [])

module _ (lex : Lex) (env : Env) where
  -- `$xxx` and `${xxx}`: the value, or the reference `shown` if it is to be left alone
  abbrev pub variable : Text → Option Text → Text
  variable shown none = if lex.skip_unset_env then shown else []
  variable shown (some value) = value

  -- `case '?'` behind `${name`, at the word
  abbrev pub required : Text → Text → Option Text → Text → Outcome Text
  required name word none rest =
      if lex.skip_unset_env
      then ok (braced (name ++ b'?' ∷ word)) rest
      else err (not_set name (or_default word unset_message)) rest
  required name word (some value) rest = ok value rest

  abbrev pub left_alone : Text → ℕ → Text → Text
  left_alone name modifier word = braced (name ++ b':' ∷ modifier ∷ word)

  abbrev pub required_non_empty : Text → Text → Text → Text → Outcome Text
  required_non_empty name word [] rest = err (not_set name (or_default word empty_message)) rest
  required_non_empty name word (c ∷ value) rest = ok (c ∷ value) rest

  -- the `switch modifier` of `case ':'`; the value is `none` where the variable is not found
  unfoldable pub apply_modifier : ℕ → Text → Text → Option Text → Text → Outcome Text
  apply_modifier modifier name word none rest =
      if modifier == b'+'
      then ok (if lex.skip_unset_env then left_alone name modifier word else []) rest
      else if modifier == b'-'
      then ok (if lex.skip_unset_env then left_alone name modifier word else word) rest
      else if modifier == b'?'
      then (if lex.skip_unset_env
          then ok (left_alone name modifier word) rest
          else err (not_set name (or_default word unset_message)) rest)
      else err (unsupported_modifier modifier) rest
  apply_modifier modifier name word (some value) rest =
      if modifier == b'+'
      then ok (if is_empty value then value else word) rest
      else if modifier == b'-'
      then ok (if is_empty value then word else value) rest
      else if modifier == b'?'
      then required_non_empty name word value rest
      else err (unsupported_modifier modifier) rest

  -- `if sw.scanner.Peek() == scanner.EOF`, where `processStopOn('}')` has failed
  abbrev pub brace_error : Error → Text → Outcome Text
  brace_error e [] = err missing_brace []
  brace_error e (c ∷ rest) = err e (c ∷ rest)

  abbrev pub modified : ℕ → Text → Outcome (Text × List Text) → Outcome Text
  modified modifier name (ok (word, _) rest) =
      apply_modifier modifier name word (get_env env name) rest
  modified modifier name (err e rest) = brace_error e rest
  modified modifier name out_of_fuel = out_of_fuel

  abbrev pub questioned : Text → Outcome (Text × List Text) → Outcome Text
  questioned name (ok (word, _) rest) = required name word (get_env env name) rest
  questioned name (err e rest) = brace_error e rest
  questioned name out_of_fuel = out_of_fuel

  -- `sub` is `processStopOn('}')`.
  module _ (sub : Text → Outcome (Text × List Text)) where
    -- `case ':'`, at the modifier; at the end of the text `processStopOn` fails there
    abbrev pub at_modifier : Text → Text → Outcome Text
    at_modifier name [] = err missing_brace []
    at_modifier name (modifier ∷ rest) = modified modifier name (sub rest)

    -- behind the name in `${name`
    unfoldable pub after_name : Text → Text → Outcome Text
    after_name name [] = err missing_colon []
    after_name name (ch ∷ rest) =
        if ch == b'}'
        then ok (variable (braced name) (get_env env name)) rest
        else if ch == b'?'
        then questioned name (sub rest)
        else if ch == b':'
        then at_modifier name rest
        else err missing_colon rest

    -- behind `${`
    unfoldable pub in_braces : Text → Outcome Text
    in_braces [] = err missing_brace []
    in_braces (c ∷ s) =
        if c == b'{' || c == b'}' || c == b':'
        then err bad_substitution (c ∷ s)
        else (let (name, rest) = process_name (c ∷ s) in after_name name rest)

    -- `$name`, behind the `$`
    abbrev pub named : Text → Text
    named [] = b'$' ∷ []
    named (c ∷ name) = variable (b'$' ∷ c ∷ name) (get_env env (c ∷ name))

    unfoldable pub bare : Text → Outcome Text
    bare s = let (name, rest) = process_name s in ok (named name) rest

    -- `processDollar`, behind the `$`
    unfoldable pub process_dollar : Text → Outcome Text
    unfolding in_braces bare after_name apply_modifier process_name
    process_dollar [] = bare []
    process_dollar (c ∷ s) = if c == b'{' then in_braces s else bare (c ∷ s)
