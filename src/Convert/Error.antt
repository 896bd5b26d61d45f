-- ===== src/Convert/Error.antt =====
-- The errors of dockerfile2llb/convert.go and of the other files on RUN, and results that carry one.
use dockerfile.Base.{Bool, true, false, List, if◌then◌else◌}
use dockerfile.Base.Text.{Text}
use dockerfile.Parser.Error.{Range, Error as SourceError, Result as SourceResult}
use dockerfile.Shell.Lex.{Error as LexError}
use dockerfile.Instructions.Numbers.{ℤ}

pub data Error : Type 0 where
  -- from the packages parser, instructions and shell
  source : SourceError → Error
  lexing : LexError → Error
  -- convert.go
  empty_dockerfile : Error
  blank_base bad_platform target_not_found circular_dependency : Text → Error
  bad_platform_argument : Text → Error → Error
  invalid_index : ℤ → Error
  single_expression invalid_run url_for_copy no_inline_content no_chmod empty_volume : Error
  bad_signal bad_ports : Text → Error
  -- convert_runmount.go, convert_secrets.go, convert_ssh.go, convert_runnetwork.go and
  -- convert_runsecurity.go
  invalid_target unsupported_network unsupported_security : Text → Error
  no_secret_source ssh_source : Error
  -- from the packages that the code calls
  other : Text → Error
  -- `ErrorLocation`
  located : List Range → Error → Error
  -- the panics on a nil `llbCaps`, on a source that is not there, and in `splitWildcards`
  nil_capabilities no_state wildcard_panic : Error
  -- the model's own: a loop has run out of fuel
  out_of_fuel : Error

pub data Result {ℓ} (A : Type ℓ) : Type ℓ where
  ok : A → Result A
  err : Error → Result A

infixl 5 ◌>>=◌
abbrev pub ◌>>=◌ {ℓ κ} : {A : Type ℓ} {B : Type κ} → Result A → (A → Result B) → Result B
err e >>= next = err e
ok x >>= next = next x

-- `errors.As(err, &el)` with an error of the package parser or instructions
source_has_location : SourceError → Bool
source_has_location (SourceError.located start end e) = true
source_has_location (SourceError.parse_error line e) = source_has_location e
source_has_location e = false

has_location : Error → Bool
unfolding source_has_location
has_location (located ranges e) = true
has_location (source e) = source_has_location e
has_location (bad_platform_argument v e) = has_location e
has_location e = false

-- `WithLocation`
unfoldable pub with_location : List Range → Error → Error
unfolding has_location
with_location ranges e = if has_location e then e else located ranges e

abbrev pub at {ℓ} : {A : Type ℓ} → List Range → Result A → Result A
at ranges (ok x) = ok x
at ranges (err e) = err (with_location ranges e)

abbrev pub of_source {ℓ} : {A : Type ℓ} → SourceResult A → Result A
of_source (SourceResult.ok x) = ok x
of_source (SourceResult.err e) = err (source e)
