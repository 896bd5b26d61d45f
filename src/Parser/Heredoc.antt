-- ===== src/Parser/Heredoc.antt =====
-- Here-documents in parser/parser.go and parser/parser_heredoc.go. The instructions that may hold
-- one are those of the build with the tag dfheredoc; `enabled` is false without it.
pub mod Fuel
use dockerfile.Base.{
  ℕ, ◌+◌, ◌-◌, ◌*◌, ◌^◌, List, [], ◌∷◌, Bool, true, false, not, ◌&&◌, ◌||◌, ◌==◌, Option, none,
  some, snoc, if◌then◌else◌, ltb,
}
use dockerfile.Base.Text.{Text, codes, contains, count, to_lower}
use dockerfile.Command.{Command, of_name}
use dockerfile.Shell.Lex.{Lex, is_digit, span}
use dockerfile.Shell.Quote
use dockerfile.Shell.Quote.{process_words, value, failure, unfinished}
use dockerfile.Parser.Ast.{Heredoc, attribute, Fields, Node, node, Link, next, child}
use dockerfile.Parser.Error.{lexing, inconsistent_heredoc, out_of_fuel, Result, ok, err, ◌>>=◌}

-- The three groups of `reHeredoc`, `^(\d*)<<(-?)([^<]*)$`
abbrev Match : Type 0
Match = Text × Bool × Text

abbrev rest_of : Text → Bool → Text → Option Match
rest_of fd chomp rest = if contains rest b'<' then none else some (fd, chomp, rest)

abbrev after_arrows : Text → Text → Option Match
after_arrows fd [] = rest_of fd false []
after_arrows fd (c ∷ s) = if c == b'-' then rest_of fd true s else rest_of fd false (c ∷ s)

abbrev arrows : Text → Text → Option Match
arrows fd (a ∷ b ∷ s) = if a == b'<' && b == b'<' then after_arrows fd s else none
arrows fd _ = none

unfoldable pub match_heredoc : Text → Option Match
unfolding span contains
match_heredoc src = let (fd, rest) = span is_digit src in arrows fd rest

max_u64 : ℕ
max_u64 = 2 ^ 64 - 1

-- `strconv.ParseUint` on digits, with its error ignored: 0 for no digits, and the largest uint64
-- for a number that does not fit
unfoldable pub parse_fd : ℕ → Text → ℕ
unfolding max_u64
parse_fd n [] = n
parse_fd n (c ∷ s) =
    let m = n * 10 + (c - b'0') in parse_fd (if ltb max_u64 m then max_u64 else m) s

abbrev quote_count : Text → ℕ
quote_count word = count word b'\'' + count word b'"'

-- the lexers of `heredocFromMatch`
abbrev pub heredoc_lex : Bool → Lex
heredoc_lex raw_quotes = record {
  escape_token = b'\\';
  raw_quotes = raw_quotes;
  raw_escapes = false;
  skip_unset_env = true;
}

abbrev lexed {ℓ} : {A : Type ℓ} → Quote.Result (List Text) → (List Text → Result A) → Result A
lexed (value words) f = f words
lexed (failure e) f = err (lexing e)
lexed unfinished f = err out_of_fuel

abbrev from_words : Text → Bool → Text → List Text → List Text → Result (Option Heredoc)
from_words fd chomp rest (word ∷ []) (raw ∷ []) = ok (
    some (record {
      name = word;
      file_descriptor = parse_fd 0 fd;
      expand = quote_count word == quote_count raw;
      chomp = chomp;
      content = [];
    }))
from_words fd chomp rest (word ∷ []) _ = err (inconsistent_heredoc rest)
from_words fd chomp rest _ _ = ok none

-- The two runs of the lexer; the second only if the first has found a single word
abbrev single_word : List Text → Bool
single_word (word ∷ []) = true
single_word _ = false

-- `heredocFromMatch`
unfoldable pub heredoc_from_match : Option Match → Result (Option Heredoc)
unfolding process_words count parse_fd
heredoc_from_match none = ok none
heredoc_from_match (some (fd, chomp, [])) = ok none
heredoc_from_match (some (fd, chomp, c ∷ rest)) =
    lexed (process_words (heredoc_lex false) (c ∷ rest) []) λ words.
      if single_word words
      then lexed (process_words (heredoc_lex true) (c ∷ rest) [])
          (λ raw. from_words fd chomp (c ∷ rest) words raw)
      else ok none

-- `ParseHeredoc`
unfoldable pub parse_heredoc : Text → Result (Option Heredoc)
unfolding match_heredoc heredoc_from_match
parse_heredoc src = heredoc_from_match (match_heredoc src)

abbrev found : Result (Option Heredoc) → Option Heredoc
found (ok h) = h
found (err e) = none

-- `MustParseHeredoc`
unfoldable pub must_parse_heredoc : Text → Option Heredoc
unfolding parse_heredoc
must_parse_heredoc src = found (parse_heredoc src)

-- the lexer of `heredocsFromLine`
abbrev pub line_lex : Lex
line_lex = record {
  escape_token = b'\\';
  raw_quotes = true;
  raw_escapes = true;
  skip_unset_env = true;
}

-- `words, _ := …`: no words where the lexer fails
abbrev words_or_none : Quote.Result (List Text) → List Text
words_or_none (value words) = words
words_or_none _ = []

abbrev append_some : List Heredoc → Option Heredoc → List Heredoc
append_some docs none = docs
append_some docs (some h) = snoc docs h

heredocs_of : List Heredoc → List Text → Result (List Heredoc)
heredocs_of docs [] = ok docs
heredocs_of docs (word ∷ words) = parse_heredoc word >>= λ h. heredocs_of (append_some docs h) words

-- `heredocsFromLine`
unfoldable pub heredocs_from_line : Text → Result (List Heredoc)
unfolding heredocs_of parse_heredoc
heredocs_from_line line = heredocs_of [] (words_or_none (process_words line_lex line []))

-- `heredocDirectives` and `heredocCompoundDirectives`
abbrev pub is_heredoc_directive : Bool → Option Command → Bool
is_heredoc_directive enabled (some Command.add) = enabled
is_heredoc_directive enabled (some Command.copy) = enabled
is_heredoc_directive enabled (some Command.run) = enabled
is_heredoc_directive enabled _ = false

abbrev pub is_compound : Bool → Option Command → Bool
is_compound enabled (some Command.onbuild) = enabled
is_compound enabled _ = false

abbrev may_contain : Bool → Fields → Bool
may_contain enabled f =
    is_heredoc_directive enabled (of_name (to_lower f.value))
    && not (attribute f.attributes (codes "json"))

-- the instruction behind ONBUILD, or the node itself
abbrev inner : Fields → Link → Fields
inner f (next (node _ _ (child (node g _ _) _))) = g
inner f _ = f

-- `canContainHeredoc`
unfoldable pub can_contain_heredoc : Bool → Node → Bool
unfolding of_name to_lower attribute
can_contain_heredoc enabled (node f l _) =
    may_contain enabled (if is_compound enabled (of_name (to_lower f.value)) then inner f l else f)

-- `ChompHeredocContent`: no tabs at the start of a line; `start` is set there
chomp_from : Bool → Text → Text
chomp_from start [] = []
chomp_from start (c ∷ s) =
    let tab = start && c == b'\t' in
    let rest = chomp_from (tab || c == b'\n') s in if tab then rest else c ∷ rest

unfoldable pub chomp_heredoc_content : Text → Text
unfolding chomp_from
chomp_heredoc_content src = chomp_from true src
