-- ===== src/Parser/Lines.antt =====
-- Lines and comments in parser/parser.go: `scanLines`, the trimming functions, and the
-- line-continuation expression.
pub mod Scanning
use mathlib.Core.List.{reverse}
use dockerfile.Base.{
  ℕ, List, [], ◌∷◌, Bool, true, false, not, ◌&&◌, ◌||◌, ◌==◌, ◌≡◌, refl, if◌then◌else◌,
}
use dockerfile.Base.Text.{Text, codes, text_eq, is_space, trim_left, trim_right}
use dockerfile.Parser.Directives.{Directives, possible_parser_directive}
use dockerfile.Parser.Error.{Result, ok, ◌>>=◌}

abbrev pub is_newline : ℕ → Bool
is_newline c = c == b'\r' || c == b'\n'

-- `trimNewline`
unfoldable pub trim_newline : Text → Text
unfolding trim_right
trim_newline s = trim_right is_newline s

-- `trimLeadingWhitespace`
unfoldable pub trim_leading_whitespace : Text → Text
unfolding trim_left
trim_leading_whitespace s = trim_left is_space s

-- `trimLeadingTabs`
unfoldable pub trim_leading_tabs : Text → Text
unfolding trim_left
trim_leading_tabs s = trim_left (λ c. c == b'\t') s

-- `reComment`, `^#.*$`, on a line with no newline in it
unfoldable pub starts_comment : Text → Bool
starts_comment [] = false
starts_comment (c ∷ s) = c == b'#'

-- `trimComments`
unfoldable pub trim_comments : Text → Text
unfolding starts_comment
trim_comments s = if starts_comment s then [] else s

-- `isComment`
unfoldable pub is_comment : Text → Bool
unfolding starts_comment trim_leading_whitespace trim_newline
is_comment line = starts_comment (trim_leading_whitespace (trim_newline line))

-- `isEmptyContinuationLine`
unfoldable pub is_empty_continuation_line : Text → Bool
unfolding trim_leading_whitespace trim_newline text_eq
is_empty_continuation_line line = text_eq (trim_leading_whitespace (trim_newline line)) []

abbrev is_line_blank : ℕ → Bool
is_line_blank c = c == b' ' || c == b'\t'

-- The line from its end on, without its blanks there: an escape token that no other one stands
-- before continues the line, and is removed with the blanks.
abbrev continued : ℕ → Text → Text → Text × Bool
continued token line [] = (line, true)
continued token line (c ∷ []) = if c == token then ([], false) else (line, true)
continued token line (c ∷ d ∷ s) =
    if c == token && not (d == token) then (reverse (d ∷ s), false) else (line, true)

-- `trimContinuationCharacter`, with `([^\\])\\[ \t]*$|^\\[ \t]*$` for the escape token `\`. The
-- flag says whether the line ends the instruction.
unfoldable pub trim_continuation_character : ℕ → Text → Text × Bool
unfolding trim_left
trim_continuation_character token line =
    continued token line (trim_left is_line_blank (reverse line))

-- `processLine`
unfoldable pub process_line : Directives → Text → Bool → Result (Text × Directives)
unfolding trim_newline trim_leading_whitespace trim_comments possible_parser_directive
process_line d token strip_left_whitespace =
    let line = trim_newline token in
    let line' = if strip_left_whitespace then trim_leading_whitespace line else line in
    possible_parser_directive d line' >>= λ d'. ok (trim_comments line', d')

abbrev pub cons_line : ℕ → List Text → List Text
cons_line c [] = (c ∷ []) ∷ []
cons_line c (l ∷ ls) = (c ∷ l) ∷ ls

-- The tokens that a scanner with `scanLines` returns: the lines with their ends. That the scanner stops with
-- an error at a line longer than its buffer of 64 KB is the `failure` of a source.
unfoldable pub scan_lines : Text → List Text
scan_lines [] = []
scan_lines (c ∷ s) =
    let rest = scan_lines s in if c == b'\n' then (c ∷ []) ∷ rest else cons_line c rest

run_continuation :
    (trim_continuation_character b'\\' (codes "RUN a \\ \t") ≡ (codes "RUN a ", false))
    × (trim_continuation_character b'\\' (codes "RUN a \\\\") ≡ (codes "RUN a \\\\", true))
    × (trim_continuation_character b'\\' (codes "\\") ≡ ([], false))
unfolding trim_continuation_character
run_continuation = (refl, refl, refl)
