-- ===== src/Parser/Parse.antt =====
-- `Parse` of parser/parser.go: the loop over the lines of a Dockerfile. The scanner is the list of
-- the tokens that it returns, and the error that it stops with, if any. The byte-order mark is one
-- code point.
pub mod Reading
pub mod Ranges
use dockerfile.Base.{
  ℕ, zero, suc, ◌+◌, List, [], ◌∷◌, ◌++◌, Bool, true, false, ◌&&◌, ◌==◌, Option, none, some, snoc,
  if◌then◌else◌, length,
}
use dockerfile.Base.Text.{Text, text_eq, trim_space, trim_prefix, to_lower}
use dockerfile.Parser.Ast.{Heredoc, Node, node, Root, add_child}
use dockerfile.Parser.Directives.{Directives, new_default_directives}
use dockerfile.Parser.Error.{
  unterminated_heredoc, no_instructions, out_of_fuel, line_too_long, read_failed, Error,
  with_location, Result, ok, err, ◌>>=◌, at_lines,
}
use dockerfile.Parser.Heredoc.{heredocs_from_line, can_contain_heredoc}
use dockerfile.Parser.LineParsers.{new_node, dispatch}
use dockerfile.Command.{of_name}
use dockerfile.SplitCommand.{split_command}
use dockerfile.Parser.Lines.{
  is_comment, is_empty_continuation_line, process_line, trim_continuation_character, trim_newline,
  trim_leading_tabs,
}

-- `bufio.ErrTooLong`, or any other error of the reader
pub data ScanError : Type 0 where
  too_long : ScanError
  other : Text → ScanError

-- `handleScannerError`, on an error
abbrev pub handle_scanner_error : ScanError → Error
handle_scanner_error too_long = line_too_long
handle_scanner_error (other message) = read_failed message

pub record Source : Type 0 where
  pub lines : List Text
  pub failure : Option ScanError

-- An "Empty continuation line found in" the text, at the line
pub record Warning : Type 0 where
  pub found_in : Text
  pub line : ℕ

-- The variables of `Parse`
pub record Parsing : Type 0 where
  pub directives : Directives
  pub current_line : ℕ
  pub root : Root
  pub warnings : List Warning
  pub comments : List Text

-- An instruction with its continuation lines, and what the scanner has left
pub record Joined : Type 0 where
  pub line : Text
  pub directives : Directives
  pub current_line : ℕ
  pub has_empty : Bool
  pub rest : List Text

-- What a continuation line does to the instruction: it goes on, or ends there.
pub data Piece : Type 0 where
  goes_on : Text → Bool → Piece
  ends : Text → Piece

abbrev pub trimmed : Text → Bool → Text × Bool → Piece
trimmed line has_empty (more, true) = ends (line ++ more)
trimmed line has_empty (more, false) = goes_on (line ++ more) has_empty

-- behind `processLine`; `bytes` is the line as it was read
unfoldable pub piece : Text → Bool → Text → ℕ → Text → Piece
unfolding is_comment is_empty_continuation_line trim_continuation_character
piece line has_empty bytes token bytes' =
    if is_comment bytes
    then goes_on line has_empty
    else if is_empty_continuation_line bytes'
    then goes_on line true
    else trimmed line has_empty (trim_continuation_character token bytes')

-- `go` is the loop behind this line.
abbrev pub next_piece :
    (Directives → Text → Bool → Result Joined)
    → ℕ
    → Bool
    → List Text
    → Directives
    → Piece
    → Result Joined
next_piece go n has_empty rest d (goes_on line e) = go d line e
next_piece go n has_empty rest d (ends line) = ok (record {
  line = line;
  directives = d;
  current_line = n + 1;
  has_empty = has_empty;
  rest = rest;
})

abbrev pub after_process :
    (Directives → Text → Bool → Result Joined)
    → ℕ
    → Text
    → Bool
    → Text
    → List Text
    → Text × Directives
    → Result Joined
after_process go n line has_empty bytes rest (bytes', d) =
    next_piece go n has_empty rest d (piece line has_empty bytes d.escape_token bytes')

-- `for !isEndOfLine && scanner.Scan()`
unfoldable pub join_lines : Directives → ℕ → Text → Bool → List Text → Result Joined
join_lines d n line has_empty [] =
    ok (record { line = line; directives = d; current_line = n; has_empty = has_empty; rest = [] })
join_lines d n line has_empty (bytes ∷ rest) =
    at_lines n 0 (process_line d bytes false)
    >>= after_process (λ d' line' e. join_lines d' (n + 1) line' e rest) n line has_empty bytes rest

-- The body of a here-document: its content, the current line and the lines behind the
-- terminator; or the current line at the end of the file.
pub data Body : Type 0 where
  terminated : Text → ℕ → List Text → Body
  unterminated : ℕ → Body

abbrev pub possible_terminator : Bool → Text → Text
possible_terminator chomp bytes =
    let line = trim_newline bytes in if chomp then trim_leading_tabs line else line

unfoldable pub read_body : Text → Bool → ℕ → Text → List Text → Body
unfolding trim_newline trim_leading_tabs
read_body terminator chomp n content [] = unterminated n
read_body terminator chomp n content (bytes ∷ rest) =
    let more = read_body terminator chomp (n + 1) (content ++ bytes) rest in
    if text_eq (possible_terminator chomp bytes) terminator
    then terminated content (n + 1) rest
    else more

-- The here-documents read so far, the current line, and what the scanner has left
pub record Bodies : Type 0 where
  pub heredocs : List Heredoc
  pub current_line : ℕ
  pub rest : List Text

-- `for _, heredoc := range heredocs`
unfoldable pub read_bodies : ℕ → Bodies → List Heredoc → Result Bodies
unfolding read_body
read_bodies start b [] = ok b
read_bodies start b (h ∷ hs) = elim (read_body h.name h.chomp b.current_line h.content b.rest) [
  | terminated content n rest ↦
      read_bodies start
        (record {
          heredocs = snoc b.heredocs (record h { content = content });
          current_line = n;
          rest = rest;
        })
        hs
  | unterminated n ↦ err (with_location unterminated_heredoc start n)
]

abbrev pub with_heredocs : Node → List Heredoc → Node
with_heredocs (node f l c) hs = node (record f { heredocs = f.heredocs ++ hs }) l c

abbrev byte_order_mark : Text
byte_order_mark = 0xfeff ∷ []

-- The comments before the next instruction
abbrev pub add_comment : List Text → Text → List Text
add_comment comments [] = comments
add_comment comments (c ∷ s) =
    let comment = trim_space s in if text_eq comment [] then [] else snoc comments comment

abbrev pub add_warning : List Warning → Joined → List Warning
add_warning warnings j =
    if j.has_empty
    then snoc warnings (record { found_in = j.line; line = j.current_line })
    else warnings

module _ (enabled : Bool) (decode : Text → Option (List (Option Text))) where
  -- the here-documents of an instruction
  unfoldable pub heredoc_bodies : ℕ → Node → Joined → Result Bodies
  unfolding can_contain_heredoc heredocs_from_line read_bodies with_location
  heredoc_bodies start child j =
      let none_read : Bodies = record {
        heredocs = [];
        current_line = j.current_line;
        rest = j.rest;
      } in
      if can_contain_heredoc enabled child
      then (at_lines start j.current_line (heredocs_from_line j.line) >>= λ hs.
          read_bodies start none_read hs)
      else ok none_read

  -- from the joined line on; the comments are those before the instruction
  unfoldable pub add_instruction : Parsing → List Text → ℕ → Joined → Result (Parsing × List Text)
  unfolding heredoc_bodies add_child
  add_instruction st comments start j =
      at_lines start j.current_line
        (new_node decode j.directives.escape_token (length j.line + 1) j.line comments)
      >>= λ child. heredoc_bodies start child j >>= λ b. ok (
        record {
          directives = j.directives;
          current_line = b.current_line;
          root = add_child st.root (with_heredocs child b.heredocs) start b.current_line;
          warnings = add_warning st.warnings j;
          comments = [];
        },
        b.rest,
      )

  abbrev pub first_line : Parsing → Text → Text
  first_line st bytes = if st.current_line == 0 then trim_prefix bytes byte_order_mark else bytes

  abbrev pub comments_at : Parsing → Text → List Text
  comments_at st bytes = if is_comment bytes then add_comment st.comments bytes else st.comments

  -- the rest of the instruction that begins with `line`; `flag` is `isEndOfLine`
  abbrev pub rest_of_line : Directives → ℕ → Text → Bool → List Text → Result Joined
  rest_of_line d n line true rest =
      ok (record { line = line; directives = d; current_line = n; has_empty = false; rest = rest })
  rest_of_line d n line false rest = join_lines d n line false rest

  -- behind `trimContinuationCharacter` on the first line
  unfoldable pub after_first :
      Parsing → List Text → Directives → Text × Bool → List Text → Result (Parsing × List Text)
  unfolding add_instruction join_lines
  after_first st comments d (line, is_end) rest =
      let n = st.current_line + 1 in
      if is_end && text_eq line []
      then ok (record st { directives = d; current_line = n; comments = comments }, rest)
      else rest_of_line d n line is_end rest >>= λ j. add_instruction st comments n j

  -- One round of the loop of `Parse`, at the line `bytes`
  unfoldable pub parse_line : Parsing → Text → List Text → Result (Parsing × List Text)
  unfolding after_first is_comment process_line trim_continuation_character trim_prefix
  parse_line st bytes rest =
      let bytes' = first_line st bytes in
      at_lines st.current_line 0 (process_line st.directives bytes' true) >>= λ (line, d).
      after_first st (comments_at st bytes') d (trim_continuation_character d.escape_token line)
        rest

  unfoldable pub parse_lines : ℕ → Parsing → List Text → Result Parsing
  parse_lines f st [] = ok st
  parse_lines zero st (bytes ∷ rest) = err out_of_fuel
  parse_lines (suc f) st (bytes ∷ rest) =
      parse_line st bytes rest >>= λ (st', rest'). parse_lines f st' rest'

  -- What `Parse` returns beside a nil error, or beside the error of the scanner
  pub record Document : Type 0 where
    pub ast : Root
    pub escape_token : ℕ
    pub warnings : List Warning
    pub failure : Option Error

  abbrev pub initial : Parsing
  initial = record {
    directives = new_default_directives;
    current_line = 0;
    root = record { start_line = none; end_line = 0; children = [] };
    warnings = [];
    comments = [];
  }

  abbrev pub scan_failure : Option ScanError → ℕ → Option Error
  scan_failure none n = none
  scan_failure (some e) n = some (with_location (handle_scanner_error e) n 0)

  abbrev pub document : Option ScanError → Parsing → Option ℕ → Result Document
  document failure st none = err (with_location no_instructions st.current_line 0)
  document failure st (some _) = ok (record {
    ast = st.root;
    escape_token = st.directives.escape_token;
    warnings = st.warnings;
    failure = scan_failure failure st.current_line;
  })

  unfoldable pub parse : Source → Result Document
  unfolding parse_lines parse_line with_location new_node dispatch of_name split_command to_lower
      piece
  parse src = parse_lines (length src.lines) initial src.lines >>= λ st.
      document src.failure st st.root.start_line
