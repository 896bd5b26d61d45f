-- ===== src/Parser/Directives.antt =====
-- The parser directives of parser/parser.go: `reDirectives`, `possibleParserDirective` and
-- `setEscapeToken`; the line-continuation expression is a function of the escape token, in Lines.
use dockerfile.Base.{
  ℕ, List, [], ◌∷◌, Bool, true, false, not, ◌&&◌, ◌||◌, ◌==◌, Option, none, some, ◌≡◌, refl,
  if◌then◌else◌,
}
use dockerfile.Base.Text.{Text, codes, text_eq, trim_left, trim_right, to_lower}
use dockerfile.Shell.Lex.{is_letter, is_digit, span}
use dockerfile.Parser.Error.{invalid_escape_token, repeated_directive, Result, ok, err}

-- `\s` of a regular expression
unfoldable pub is_re_space : ℕ → Bool
is_re_space c = c == b'\t' || c == b'\n' || c == 12 || c == b'\r' || c == b' '

abbrev is_name_char : ℕ → Bool
is_name_char c = is_letter c || is_digit c

-- The last element as a value: what `.+?` is left with where only spaces follow the `=`
last_only : Text → Option Text
last_only [] = none
last_only (c ∷ []) = some (c ∷ [])
last_only (c ∷ d ∷ s) = last_only (d ∷ s)

-- `\s*(.+?)\s*$`, on the text behind the `=` and on that text without its spaces in front
abbrev value_of : Text → Text → Option Text
value_of s [] = last_only s
value_of s (c ∷ t) = some (trim_right is_re_space (c ∷ t))

abbrev with_name : Text → Option Text → Option (Text × Text)
with_name name none = none
with_name name (some v) = some (name, v)

abbrev named : Text → Text → Option (Text × Text)
named name [] = none
named name (c ∷ s) =
    if c == b'=' then with_name name (value_of s (trim_left is_re_space s)) else none

-- the name, from its first character on
abbrev at_name : Text → Option (Text × Text)
at_name [] = none
at_name (c ∷ s) =
    if is_letter c
    then (let (name, rest) = span is_name_char (c ∷ s) in named name (trim_left is_re_space rest))
    else none

-- `reDirectives`: `^#\s*([a-zA-Z][a-zA-Z0-9]*)\s*=\s*(.+?)\s*$`, on a line with no newline in it
unfoldable pub match_directive : Text → Option (Text × Text)
unfolding is_re_space span trim_left trim_right last_only
match_directive [] = none
match_directive (c ∷ s) = if c == b'#' then at_name (trim_left is_re_space s) else none

pub record Directives : Type 0 where
  pub escape_token : ℕ
  pub done : Bool
  pub seen : List Text

-- `newDefaultDirectives`, with `DefaultEscapeToken`
abbrev pub new_default_directives : Directives
new_default_directives = record { escape_token = b'\\'; done = false; seen = [] }

unfoldable pub set_escape_token : Directives → Text → Result Directives
set_escape_token d [] = err (invalid_escape_token [])
set_escape_token d (c ∷ s) =
    if (c == b'`' || c == b'\\') && text_eq s []
    then ok (record d { escape_token = c })
    else err (invalid_escape_token (c ∷ s))

unfoldable pub member : List Text → Text → Bool
member [] k = false
member (x ∷ xs) k = text_eq x k || member xs k

-- `validDirectives`
abbrev pub is_valid_directive : Text → Bool
is_valid_directive k = text_eq k (codes "escape") || text_eq k (codes "syntax")

-- behind the match
unfoldable pub known_directive : Directives → Text → Text → Result Directives
known_directive d k v =
    if not (is_valid_directive k)
    then ok (record d { done = true })
    else if member d.seen k
    then err (repeated_directive k)
    else let d' = record d { seen = k ∷ d.seen } in
      if text_eq k (codes "escape") then set_escape_token d' v else ok d'

abbrev pub matched : Directives → Option (Text × Text) → Result Directives
matched d none = ok (record d { done = true })
matched d (some (name, v)) = known_directive d (to_lower name) v

unfoldable pub possible_parser_directive : Directives → Text → Result Directives
unfolding match_directive known_directive member set_escape_token
possible_parser_directive d line = if d.done then ok d else matched d (match_directive line)

directive-escape :
    possible_parser_directive new_default_directives (codes "# Escape = `  ")
    ≡ ok (record { escape_token = b'`'; done = false; seen = codes "escape" ∷ [] })
unfolding possible_parser_directive text_eq to_lower
directive-escape = refl
