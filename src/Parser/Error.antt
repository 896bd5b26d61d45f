-- ===== src/Parser/Error.antt =====
-- The errors of the package parser (parser/errors.go and the messages of its other files) and of
-- the package instructions, and results that carry one.
pub mod Ends
use dockerfile.Base.{
  ◌-◌, ℕ, suc, ◌+◌, List, [], ◌∷◌, ◌≡◌, refl, Option, none, some, ltb, if◌then◌else◌,
}
use dockerfile.Base.Text.{Text}
use dockerfile.Instructions.Error.{FlagError, RunError, InstructionError}
use dockerfile.Shell.Lex

pub data Error : Type 0 where
  -- line_parsers.go
  not_string_array : Error
  two_arguments : Text → Error
  no_equals : Text → Error
  -- parser.go
  invalid_escape_token repeated_directive : Text → Error
  lexing : Lex.Error → Error
  inconsistent_heredoc : Text → Error
  unterminated_heredoc no_instructions line_too_long : Error
  read_failed : Text → Error
  -- `ErrorLocation`, with the start and the end that `withLocation` is given
  located : ℕ → ℕ → Error → Error
  -- the package instructions
  flag : FlagError → Error
  run : RunError → Error
  instruction : InstructionError → Error
  -- `parseError`, at the line that the node starts at
  parse_error : ℕ → Error → Error
  -- the model's own: a loop has run out of fuel
  out_of_fuel : Error

pub data Result {ℓ} (A : Type ℓ) : Type ℓ where
  ok : A → Result A
  err : Error → Result A

infixl 5 ◌>>=◌
abbrev pub ◌>>=◌ {ℓ κ} : {A : Type ℓ} {B : Type κ} → Result A → (A → Result B) → Result B
err e >>= next = err e
ok x >>= next = next x

-- `WithLocation`: an error that has a location keeps it.
unfoldable pub with_location : Error → ℕ → ℕ → Error
with_location (located s t e) start end = located s t e
with_location e start end = located start end e

abbrev pub at_lines {ℓ} : {A : Type ℓ} → ℕ → ℕ → Result A → Result A
at_lines start end (ok a) = ok a
at_lines start end (err e) = err (with_location e start end)

-- `Range`: the characters of its positions are 0 throughout, so a position is its line.
pub record Range : Type 0 where
  pub start : ℕ
  pub end : ℕ

-- `n` ranges of one line each, from `line` on
ranges_from : ℕ → ℕ → List Range
ranges_from ℕ.zero line = []
ranges_from (suc n) line = record { start = line; end = line } ∷ ranges_from n (line + 1)

-- `toRanges`
unfoldable pub to_ranges : ℕ → ℕ → List Range
unfolding ranges_from
to_ranges start end =
    let last = if ltb start end then end else start in ranges_from (suc last - start) start
