-- ===== src/Parser/Parse/Reading.antt =====
-- The inner loops of `Parse`: each takes as many lines as it counts, and ends in a value or an
-- error of the source.
use dockerfile.Base.{
  ℕ, ◌+◌, ◌≤◌, List, [], ◌∷◌, ◌++◌, Bool, true, false, Option, none, some, ◌≡◌, inl, inr, arith,
  length, snoc, Bool-cases, if◌then◌else◌,
}
use dockerfile.Base.Text.{Text, text_eq, to_lower}
use dockerfile.Parser.Ast.{Heredoc, Node}
use dockerfile.Parser.Directives.{
  Directives, match_directive, set_escape_token, known_directive, matched,
  possible_parser_directive,
}
use dockerfile.Parser.Error.{with_location, Result, ok, err, ◌>>=◌, at_lines, unterminated_heredoc}
use dockerfile.Parser.Error.Ends.{Ends, Ends-bind, Ends-at_lines, with_location-IsReal}
use dockerfile.Parser.Heredoc.{can_contain_heredoc, heredocs_from_line}
use dockerfile.Parser.Heredoc.Fuel.{Anything, heredocs_from_line-Ends}
use dockerfile.Parser.Lines.{process_line, trim_comments, trim_leading_whitespace, trim_newline}
use dockerfile.Parser.Parse.{
  next_piece, after_process, Joined, Piece, goes_on, ends, piece, join_lines, Body, terminated,
  unterminated, read_body, possible_terminator, Bodies, read_bodies, heredoc_bodies,
}

set_escape_token-Ends : (d : Directives) (v : Text) → Ends Anything (set_escape_token d v)
unfolding set_escape_token
set_escape_token-Ends d [] = tt
set_escape_token-Ends d (c ∷ s) = ground arith

known_directive-Ends : (d : Directives) (k v : Text) → Ends Anything (known_directive d k v)
unfolding known_directive
known_directive-Ends d k v =
    ground (arith, set_escape_token-Ends (record d { seen = k ∷ d.seen }) v)

matched-Ends : (d : Directives) (m : Option (Text × Text)) → Ends Anything (matched d m)
matched-Ends d none = tt
matched-Ends d (some (name, v)) = known_directive-Ends d (to_lower name) v

possible_parser_directive-Ends :
    (d : Directives) (line : Text) → Ends Anything (possible_parser_directive d line)
possible_parser_directive-Ends d line = elim (Bool-cases d.done) [
  | inl y ↦ unfold possible_parser_directive in rw y tt
  | inr n ↦ unfold possible_parser_directive in simp n (matched-Ends d (match_directive line))
]

pub process_line-Ends :
    (d : Directives) (bytes : Text) (strip : Bool) → Ends Anything (process_line d bytes strip)
unfolding process_line
process_line-Ends d bytes strip =
    let line =
      (if strip then trim_leading_whitespace (trim_newline bytes) else trim_newline bytes) in
    ended line (possible_parser_directive-Ends d line)
  where
    ended :
        (line : Text)
        → Ends Anything (possible_parser_directive d line)
        → Ends
            (Anything {A = Text × Directives})
            (possible_parser_directive d line >>= λ d'. ok (trim_comments line, d'))
    ended line h =
        Ends-bind Anything Anything (possible_parser_directive d line)
          (λ d'. ok (trim_comments line, d')) h (λ _ _. tt)

-- `n` lines read, and `left` behind them, make `total` lines; none is given back.
abbrev pub Counted : ℕ → ℕ → ℕ → List Text → Type 0
Counted start total n left = (start ≤ n) × (n + length left ≡ total)

abbrev pub JoinedWithin : ℕ → ℕ → Joined → Type 0
JoinedWithin start total j = Counted start total j.current_line j.rest

next_piece-Ends :
    (start total : ℕ) (go : Directives → Text → Bool → Result Joined) (n : ℕ) (e : Bool)
    (rest : List Text) (d : Directives) (p : Piece)
    → Counted start total (n + 1) rest
    → ((d' : Directives) (line : Text) (e' : Bool)
        → Ends (JoinedWithin start total) (go d' line e'))
    → Ends (JoinedWithin start total) (next_piece go n e rest d p)
next_piece-Ends start total go n e rest d (goes_on line e') h k = k d line e'
next_piece-Ends start total go n e rest d (ends line) h k = h

pub join_lines-Ends :
    (d : Directives) (start total n : ℕ) (line : Text) (has_empty : Bool) (rest : List Text)
    → Counted start total n rest
    → Ends (JoinedWithin start total) (join_lines d n line has_empty rest)
unfolding join_lines
join_lines-Ends d start total n line e [] h = h
join_lines-Ends d start total n line e (bytes ∷ rest) h =
    let go : Directives → Text → Bool → Result Joined =
      λ d' line' e'. join_lines d' (n + 1) line' e' rest in
    Ends-bind Anything (JoinedWithin start total) (at_lines n 0 (process_line d bytes false))
      (after_process go n line e bytes rest)
      (Ends-at_lines Anything n 0 (process_line d bytes false) (process_line-Ends d bytes false))
      (λ (bytes', d') _.
        next_piece-Ends start total go n e rest d' (piece line e bytes d'.escape_token bytes')
          (omega arith)
          (λ d' line' e'. join_lines-Ends d' start total (n + 1) line' e' rest (omega arith)))

abbrev BodyWithin : ℕ → ℕ → Body → Type 0
BodyWithin start total (terminated content n rest) = Counted start total n rest
BodyWithin start total (unterminated n) = Unit

read_body-BodyWithin :
    (terminator : Text) (chomp : Bool) (start total n : ℕ) (content : Text) (rest : List Text)
    → Counted start total n rest
    → BodyWithin start total (read_body terminator chomp n content rest)
unfolding read_body
read_body-BodyWithin t chomp start total n content [] h = tt
read_body-BodyWithin t chomp start total n content (bytes ∷ rest) h =
    if_both (text_eq (possible_terminator chomp bytes) t) (terminated content (n + 1) rest) _
      (omega arith)
      (read_body-BodyWithin t chomp start total (n + 1) (content ++ bytes) rest (omega arith))
  where
    if_both :
        (b : Bool) (x y : Body)
        → BodyWithin start total x
        → BodyWithin start total y
        → BodyWithin start total (if b then x else y)
    if_both true x y h k = h
    if_both false x y h k = k

abbrev pub BodiesWithin : ℕ → ℕ → Bodies → Type 0
BodiesWithin start total b = Counted start total b.current_line b.rest

read_bodies-Ends :
    (start total : ℕ) (b : Bodies) (hs : List Heredoc)
    → BodiesWithin start total b
    → Ends (BodiesWithin start total) (read_bodies start b hs)
unfolding read_bodies
read_bodies-Ends start total b [] h = h
read_bodies-Ends start total b (d ∷ hs) h =
    next (read_body d.name d.chomp b.current_line d.content b.rest)
      (read_body-BodyWithin d.name d.chomp start total b.current_line d.content b.rest h)
      (λ b'. read_bodies-Ends start total b' hs)
  where
    next :
        (r : Body)
        → BodyWithin start total r
        → ((b' : Bodies)
            → BodiesWithin start total b'
            → Ends (BodiesWithin start total) (read_bodies start b' hs))
        → Ends (BodiesWithin start total) (elim r [
          | terminated content n rest ↦
              read_bodies start
                (record {
                  heredocs = snoc b.heredocs (record d { content = content });
                  current_line = n;
                  rest = rest;
                })
                hs
          | unterminated n ↦ err (with_location unterminated_heredoc start n)
        ])
    next (terminated content n rest) w k = k _ w
    next (unterminated n) w k = with_location-IsReal unterminated_heredoc start n tt

pub heredoc_bodies-Ends :
    (enabled : Bool) (decode : Text → Option (List (Option Text))) (start total : ℕ) (child : Node)
    (j : Joined)
    → JoinedWithin start total j
    → Ends (BodiesWithin start total) (heredoc_bodies enabled decode start child j)
unfolding heredoc_bodies
heredoc_bodies-Ends enabled decode start total child j h =
    by_test (can_contain_heredoc enabled child)
  where
    none_read : Bodies
    none_read = record { heredocs = []; current_line = j.current_line; rest = j.rest }

    by_test :
        (b : Bool)
        → Ends (BodiesWithin start total) (
            if b
            then (at_lines start j.current_line (heredocs_from_line j.line) >>= λ hs.
                read_bodies start none_read hs)
            else ok none_read)
    by_test true =
        Ends-bind Anything (BodiesWithin start total)
          (at_lines start j.current_line (heredocs_from_line j.line)) (read_bodies start none_read)
          (Ends-at_lines Anything start j.current_line (heredocs_from_line j.line)
            (heredocs_from_line-Ends j.line))
          (λ hs _. read_bodies-Ends start total none_read hs h)
    by_test false = h
