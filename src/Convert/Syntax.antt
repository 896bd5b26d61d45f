-- ===== src/Convert/Syntax.antt =====
-- dockerfile2llb/directives.go: the directives at the head of a Dockerfile, and its syntax. The
-- lines are the tokens of `bufio.ScanLines`; its expression is that of the package parser.
use dockerfile.Base.{ℕ, ◌+◌, List, [], ◌∷◌, ◌++◌, Option, none, some, if◌then◌else◌, ◌≡◌, refl, ap}
use dockerfile.Base.Text.{Text, codes, text_eq, cut, to_lower}
use dockerfile.Parser.Directives.{match_directive}

-- `Directive`, with the line for its location
pub record Directive : Type 0 where
  pub name : Text
  pub value : Text
  pub line : ℕ

-- `map[string]Directive`
abbrev pub Directives : Type 0
Directives = List (Text × Directive)

unfoldable pub put : Directives → Text → Directive → Directives
put [] k d = (k, d) ∷ []
put ((key, e) ∷ m) k d = if text_eq k key then (key, d) ∷ m else (key, e) ∷ put m k d

unfoldable pub find : Directives → Text → Option Directive
find [] k = none
find ((key, d) ∷ m) k = if text_eq k key then some d else find m k

abbrev pub directive_at : ℕ → Text × Text → Directive
directive_at l (name, value) = record { name = name; value = value; line = l }

-- The loop of `ParseDirectives`, with `l` lines read
unfoldable pub read_directives : ℕ → Directives → List Text → Directives
read_directives l m [] = m
read_directives l m (line ∷ lines) = elim (match_directive line) [
  | none ↦ m
  | some p ↦ read_directives (l + 1) (put m (to_lower p.0) (directive_at (l + 1) p)) lines
]

-- `ParseDirectives`
unfoldable pub parse_directives : List Text → Directives
unfolding read_directives put match_directive to_lower
parse_directives lines = read_directives 0 [] lines

abbrev pub syntax_of : Option Directive → Option (Text × Text × ℕ)
syntax_of none = none
syntax_of (some d) = some ((cut d.value b' ').0, d.value, d.line)

-- `DetectSyntax`: the name, the whole value and the line
unfoldable pub detect_syntax : List Text → Option (Text × Text × ℕ)
unfolding parse_directives find cut
detect_syntax lines = syntax_of (find (parse_directives lines) (codes "syntax"))

read_directives-stop :
    (l : ℕ) (m : Directives) (head : List Text) (line : Text) (rest : List Text)
    → match_directive line ≡ none
    → read_directives l m (head ++ line ∷ rest) ≡ read_directives l m head
unfolding read_directives
read_directives-stop l m [] line rest h =
    ap
      (λ (o : Option (Text × Text)). elim o [
        | none ↦ m
        | some p ↦ read_directives (l + 1) (put m (to_lower p.0) (directive_at (l + 1) p)) rest
      ])
      h
read_directives-stop l m (a ∷ head) line rest h =
    by_match (match_directive a) (λ l' m'. read_directives-stop l' m' head line rest h)
  where
    by_match :
        (o : Option (Text × Text))
        → ((l' : ℕ) (m' : Directives)
            → read_directives l' m' (head ++ line ∷ rest) ≡ read_directives l' m' head)
        → elim o [
          | none ↦ m
          | some p ↦
              read_directives
                (l + 1)
                (put m (to_lower p.0) (directive_at (l + 1) p))
                (head ++ line ∷ rest)
        ]
          ≡ elim o [
            | none ↦ m
            | some p ↦ read_directives (l + 1) (put m (to_lower p.0) (directive_at (l + 1) p)) head
          ]
    by_match none k = refl
    by_match (some p) k = k (l + 1) (put m (to_lower p.0) (directive_at (l + 1) p))

-- The syntax depends on the lines before the first line that is no directive, and on nothing from
-- that line on.
pub detect_syntax-stop :
    (head : List Text) (line : Text) (rest : List Text)
    → match_directive line ≡ none
    → detect_syntax (head ++ line ∷ rest) ≡ detect_syntax head
unfolding detect_syntax parse_directives
detect_syntax-stop head line rest h =
    ap (λ m. syntax_of (find m (codes "syntax"))) (read_directives-stop 0 [] head line rest h)
