-- ===== src/Parser/Parse/Ranges.antt =====
-- `Parse` as a whole: the ranges of lines of the instructions that it returns.
pub mod Order
use dockerfile.Base.{
  ℕ, zero, suc, ◌+◌, ◌≤◌, ◌<◌, List, [], ◌∷◌, Bool, true, false, Option, none, some, ◌≡◌, refl,
  arith, length, snoc, if◌then◌else◌, ◌&&◌,
}
use dockerfile.Base.Text.{Text, text_eq}
use dockerfile.Parser.Ast.{Node, node, Root, lines, add_child}
use dockerfile.Parser.Directives.{Directives}
use dockerfile.Parser.Error.{Result, ok, ◌>>=◌, at_lines, no_instructions}
use dockerfile.Parser.Error.Ends.{with_location-IsReal, Ends, Ends-bind, Ends-at_lines}
use dockerfile.Parser.Heredoc.Fuel.{Anything}
use dockerfile.Parser.LineParsers.{new_node}
use dockerfile.Parser.LineParsers.Fuel.{new_node-Ends}
use dockerfile.Parser.Lines.{process_line, trim_continuation_character}
use dockerfile.Parser.Parse.{
  Joined, Parsing, Bodies, Source, Document, parse, parse_lines, parse_line, after_first,
  add_instruction, heredoc_bodies, with_heredocs, initial, document, ScanError, first_line,
  comments_at, rest_of_line, add_warning,
}
use dockerfile.Parser.Parse.Reading.{
  Counted, JoinedWithin, BodiesWithin, join_lines-Ends, heredoc_bodies-Ends, process_line-Ends,
}
use dockerfile.Parser.Parse.Ranges.Order.{
  Ordered, Started, Ordered-lines, Ordered-le, Started-first, Inv, Started-add_child,
}

module _ (enabled : Bool) (decode : Text → Option (List (Option Text))) where
  add_instruction-Ends :
      (total : ℕ) (st : Parsing) (comments : List Text) (start : ℕ) (j : Joined)
      → Ordered 0 st.root.children st.current_line
      → Started st.root.start_line st.root.children
      → st.current_line < start
      → JoinedWithin start total j
      → Ends (Inv start total) (add_instruction enabled decode st comments start j)
  unfolding add_instruction add_child
  add_instruction-Ends total st comments start j o s n h =
      Ends-bind Anything (Inv start total)
        (at_lines start j.current_line
          (new_node decode j.directives.escape_token (length j.line + 1) j.line comments))
        with_bodies
        (Ends-at_lines Anything start j.current_line
          (new_node decode j.directives.escape_token (length j.line + 1) j.line comments)
          (new_node-Ends decode j.directives.escape_token (length j.line + 1) j.line comments
            (omega arith)))
        (λ child _.
          Ends-bind (BodiesWithin start total) (Inv start total)
            (heredoc_bodies enabled decode start child j) (added child)
            (heredoc_bodies-Ends enabled decode start total child j h) (λ b w. added-Inv child b w))
    where
      added : Node → Bodies → Result (Parsing × List Text)
      added child b = ok (
        record {
          directives = j.directives;
          current_line = b.current_line;
          root = add_child st.root (with_heredocs child b.heredocs) start b.current_line;
          warnings = add_warning st.warnings j;
          comments = [];
        },
        b.rest,
      )

      with_bodies : Node → Result (Parsing × List Text)
      with_bodies child = heredoc_bodies enabled decode start child j >>= added child

      added-Inv :
          (child : Node) (b : Bodies)
          → BodiesWithin start total b
          → Ends (Inv start total) (added child b)
      added-Inv child b w = (
        Ordered-lines 0 st.root.children st.current_line start b.current_line
            (with_heredocs child b.heredocs) o n w.0,
        w,
        Started-add_child st.root (with_heredocs child b.heredocs) start b.current_line s,
      )

  rest_of_line-Ends :
      (d : Directives) (start total n : ℕ) (line : Text) (is_end : Bool) (rest : List Text)
      → Counted start total n rest
      → Ends (JoinedWithin start total) (rest_of_line enabled decode d n line is_end rest)
  rest_of_line-Ends d start total n line true rest h = h
  rest_of_line-Ends d start total n line false rest h =
      join_lines-Ends d start total n line false rest h

  after_first-Ends :
      (total : ℕ) (st : Parsing) (comments : List Text) (d : Directives) (line : Text)
      (is_end : Bool) (rest : List Text)
      → Ordered 0 st.root.children st.current_line
      → Started st.root.start_line st.root.children
      → (st.current_line + 1) + length rest ≡ total
      → Ends
          (Inv (st.current_line + 1) total)
          (after_first enabled decode st comments d (line, is_end) rest)
  unfolding after_first
  after_first-Ends total st comments d line is_end rest o s k = by_test (is_end && text_eq line [])
    where
      by_test :
          (b : Bool)
          → Ends (Inv (st.current_line + 1) total) (
              if b
              then ok (
                record st {
                  directives = d;
                  current_line = st.current_line + 1;
                  comments = comments;
                },
                rest,
              )
              else (rest_of_line enabled decode d (st.current_line + 1) line is_end rest >>= λ j.
                  add_instruction enabled decode st comments (st.current_line + 1) j))
      by_test true = (
        Ordered-le 0 st.root.children st.current_line (st.current_line + 1) o (omega arith),
        (omega arith, k),
        s,
      )
      by_test false =
          Ends-bind (JoinedWithin (st.current_line + 1) total) (Inv (st.current_line + 1) total)
            (rest_of_line enabled decode d (st.current_line + 1) line is_end rest)
            (add_instruction enabled decode st comments (st.current_line + 1))
            (rest_of_line-Ends d (st.current_line + 1) total (st.current_line + 1) line is_end rest
              (omega arith, k))
            (λ j h.
              add_instruction-Ends total st comments (st.current_line + 1) j o s (omega arith) h)

  parse_line-Ends :
      (from total : ℕ) (st : Parsing) (bytes : Text) (rest : List Text)
      → Inv from total (st, bytes ∷ rest)
      → Ends (Inv (st.current_line + 1) total) (parse_line enabled decode st bytes rest)
  unfolding parse_line
  parse_line-Ends from total st bytes rest h =
      let line = first_line enabled decode st bytes in
      Ends-bind Anything (Inv (st.current_line + 1) total)
        (at_lines st.current_line 0 (process_line st.directives line true))
        (λ (l, d).
          after_first enabled decode st (comments_at enabled decode st line) d
            (trim_continuation_character d.escape_token l) rest)
        (Ends-at_lines Anything st.current_line 0 (process_line st.directives line true)
          (process_line-Ends st.directives line true))
        (λ (l, d) _.
          let c = trim_continuation_character d.escape_token l in
          after_first-Ends total st (comments_at enabled decode st line) d c.0 c.1 rest h.0 h.2
            (omega (arith, h.1.1)))

  parse_lines-Ends :
      (f from total : ℕ) (st : Parsing) (rest : List Text)
      → Inv from total (st, rest)
      → length rest ≤ f
      → Ends (λ st'. (n : ℕ) × Inv n total (st', [])) (parse_lines enabled decode f st rest)
  unfolding parse_lines
  parse_lines-Ends f from total st [] h k = (from, h)
  parse_lines-Ends zero from total st (bytes ∷ rest) h k = absurd (omega arith)
  parse_lines-Ends (suc f) from total st (bytes ∷ rest) h k =
      Ends-bind (Inv (st.current_line + 1) total) (λ st'. (n : ℕ) × Inv n total (st', []))
        (parse_line enabled decode st bytes rest)
        (λ (st', rest'). parse_lines enabled decode f st' rest')
        (parse_line-Ends from total st bytes rest h)
        (λ (st', rest') i.
          parse_lines-Ends f (st.current_line + 1) total st' rest' i
            (omega (arith, h.1.1, i.1.0, i.1.1)))

  -- The instructions have a first one, whose start is that of the root, and disjoint ranges of
  -- lines, in order, between 1 and the number of lines.
  abbrev pub Ranged : ℕ → Document enabled decode → Type 0
  Ranged total d =
      ((c : Node) × (cs : List Node) × (d.ast.children ≡ c ∷ cs))
      × Started d.ast.start_line d.ast.children
      × Ordered 0 d.ast.children total

  document-Ends :
      (failure : Option ScanError) (total : ℕ) (st : Parsing)
      → ((n : ℕ) × Inv n total (st, []))
      → Ends (Ranged total) (document enabled decode failure st st.root.start_line)
  document-Ends failure total st h = by_start st.root.start_line h.1.2
    where
      by_start :
          (sl : Option ℕ)
          → Started sl st.root.children
          → Ends (Ranged total) (document enabled decode failure st sl)
      by_start none s = with_location-IsReal no_instructions st.current_line 0 tt
      by_start (some n) s = (
        Started-first n st.root.children s,
        h.1.2,
        Ordered-le 0 st.root.children st.current_line total h.1.0 (omega (arith, h.1.1.1)),
      )

  -- Whatever the lines are, `Parse` ends in an error of the source or in a tree with an instruction
  -- at least, whose start is the first instruction's; the instructions have ranges of lines that do
  -- not overlap, in order, within the lines of the source.
  pub parse-Ranged : (src : Source) → Ends (Ranged (length src.lines)) (parse enabled decode src)
  unfolding parse
  parse-Ranged src =
      Ends-bind (λ st. (n : ℕ) × Inv n (length src.lines) (st, [])) (Ranged (length src.lines))
        (parse_lines enabled decode (length src.lines) (initial enabled decode) src.lines)
        (λ st. document enabled decode src.failure st st.root.start_line)
        (parse_lines-Ends (length src.lines) 0 (length src.lines) (initial enabled decode) src.lines
          (omega arith, (omega arith, omega arith), tt) (omega arith))
        (λ st h. document-Ends src.failure (length src.lines) st h)
