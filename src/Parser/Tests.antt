-- ===== src/Parser/Tests.antt =====
-- Runs of the parser on small files.
use dockerfile.Base.{ℕ, List, [], ◌∷◌, Option, none, ◌≡◌, refl, true, map}
use dockerfile.Base.Text.{Text, codes, text_eq, is_space, to_lower}
use dockerfile.Parser.Ast.{Node, fields}
use dockerfile.Parser.Error.{Result, ok, ◌>>=◌}
use dockerfile.Parser.Lines.{scan_lines}
use dockerfile.Parser.Parse.{parse}

abbrev no_json : Text → Option (List (Option Text))
no_json s = none

abbrev shape : Node → Text × ℕ × ℕ
shape n = ((fields n).value, (fields n).start_line, (fields n).end_line)

abbrev shapes : Text → Result (List (Text × ℕ × ℕ))
shapes s = parse true no_json (record { lines = scan_lines s; failure = none }) >>= λ d.
    ok (map shape d.ast.children)

two_instructions :
    shapes (codes "# c\nFROM a AS b\n\nENV x=1 \\\n # no\n y=2\nRUN <<EOF\nls\nEOF\nCMD z")
    ≡ ok (
        (codes "FROM", 2, 2)
        ∷ (codes "ENV", 4, 6)
        ∷ (codes "RUN", 7, 9)
        ∷ (codes "CMD", 10, 10)
        ∷ [])
unfolding parse scan_lines text_eq is_space to_lower
two_instructions = refl
