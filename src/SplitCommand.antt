-- ===== src/SplitCommand.antt =====
-- parser/split_command.go: the command word of a line, its builder flags and its arguments.
-- `extractBuilderFlags` and `splitCommand` return a nil error on every path, so none is modelled.
pub mod Flags
pub mod RoundTrip
pub mod Bounds
use dockerfile.Base.{
  ◌≡◌, refl, ℕ, Bool, true, false, not, ◌&&◌, ◌||◌, List, [], ◌∷◌, ◌++◌, Option, none, some, ◌==◌,
  if◌then◌else◌, snoc,
}
use dockerfile.Base.Text.{Text, codes, text_eq, is_space, trim_left, trim_space}

pub data Phase : Type 0 where
  in_spaces in_word in_quote : Phase

-- The variables of the loop of `extractBuilderFlags`.
pub record Scan : Type 0 where
  pub phase : Phase
  pub word : Text
  pub quote : ℕ
  pub blank_ok : Bool
  pub words : List Text

-- How a round ends: a return with the rest of the line, `pos++`, or `pos++` twice.
pub data Move : Type 0 where
  stop : Text → List Text → Move
  advance : Scan → Move
  advance_two : Scan → Move

abbrev dashes : Text
dashes = b'-' ∷ b'-' ∷ []

abbrev is_empty : Text → Bool
is_empty [] = true
is_empty (_ ∷ _) = false

-- `if blankOK || len(word) > 0 { words = append(words, word) }`
unfoldable pub flush : Scan → List Text
flush s = if s.blank_ok || not (is_empty s.word) then snoc s.words s.word else s.words

abbrev push : Scan → ℕ → Scan
push s c = record s { word = snoc s.word c }

-- The escape in `inWord`, with the text behind the backslash.
abbrev escape_word : Scan → Text → Move
escape_word s [] = advance s
escape_word s (d ∷ _) = advance_two (push s d)

-- The round in `inWord`, at `ch` with the rest of the line behind it.
step_word : Scan → ℕ → Text → Move
unfolding flush
step_word s c rest =
    if is_space c
    then (if text_eq s.word dashes
        then stop (c ∷ rest) s.words
        else advance (record s { phase = in_spaces; words = flush s; word = []; blank_ok = false }))
    else if c == b'\'' || c == b'"'
    then advance (record s { quote = c; blank_ok = true; phase = in_quote })
    else if c == b'\\'
    then escape_word s rest
    else advance (push s c)

-- `pos+1 == len(line) || line[pos+1] != '-'`, negated
abbrev next_is_dash : Text → Bool
next_is_dash [] = false
next_is_dash (d ∷ _) = d == b'-'

-- Only a word that starts with -- is a flag; anything else ends the flags.
step_spaces : Scan → ℕ → Text → Move
unfolding step_word
step_spaces s c rest =
    if is_space c
    then advance s
    else if not (c == b'-') || not (next_is_dash rest)
    then stop (c ∷ rest) s.words
    else step_word (record s { phase = in_word }) c rest

abbrev escape_quote : Scan → Text → Move
escape_quote s [] = advance (record s { phase = in_word })
escape_quote s (d ∷ _) = advance_two (push s d)

step_quote : Scan → ℕ → Text → Move
step_quote s c rest =
    if c == s.quote
    then advance (record s { phase = in_word })
    else if c == b'\\'
    then escape_quote s rest
    else advance (push s c)

unfoldable pub step : Phase → Scan → ℕ → Text → Move
unfolding step_spaces step_word step_quote
step in_spaces = step_spaces
step in_word = step_word
step in_quote = step_quote

-- The round at `pos == len(line)`: the words, with nothing left of the line.
pub finish : Phase → Scan → Text × List Text
unfolding flush
finish in_spaces s = ([], s.words)
finish _ s = ([], if text_eq s.word dashes then s.words else flush s)

-- The loop of `extractBuilderFlags`, from `ch` on.
unfoldable pub scan : Text → Scan → Text × List Text
scan [] s = finish s.phase s
scan (c ∷ []) s = elim (step s.phase s c []) [
  | stop rest words ↦ (rest, words)
  | advance s' ↦ finish s'.phase s'
  | advance_two s' ↦ finish s'.phase s'
]
scan (c ∷ d ∷ line) s = elim (step s.phase s c (d ∷ line)) [
  | stop rest words ↦ (rest, words)
  | advance s' ↦ scan (d ∷ line) s'
  | advance_two s' ↦ scan line s'
]

abbrev pub start : Scan
start = record { phase = in_spaces; word = []; quote = 0; blank_ok = false; words = [] }

-- The rest of the line, and the flags.
unfoldable pub extract_builder_flags : Text → Text × List Text
unfolding scan step finish
extract_builder_flags line = scan line start

-- `reWhitespace`: `[\t\v\f\r ]+`
unfoldable pub is_blank : ℕ → Bool
is_blank c = c == b'\t' || c == 11 || c == 12 || c == b'\r' || c == b' '

-- `reWhitespace.Split(s, 2)`: the part before the first run of blanks, and what follows the run.
unfoldable pub split_whitespace : Text → Text × Option Text
unfolding is_blank
split_whitespace [] = ([], none)
split_whitespace (c ∷ s) =
    let (word, rest) = split_whitespace s in
    if is_blank c then ([], some (trim_left is_blank s)) else (c ∷ word, rest)

pub record Split : Type 0 where
  pub cmd : Text
  pub flags : List Text
  pub args : Text

-- The flags and the arguments, where the line has a second part.
abbrev pub with_args : Text → Option Text → Split
with_args cmd none = record { cmd = cmd; flags = []; args = trim_space [] }
with_args cmd (some line) =
    let (args, flags) = extract_builder_flags line in
    record { cmd = cmd; flags = flags; args = trim_space args }

unfoldable pub split_command : Text → Split
unfolding extract_builder_flags split_whitespace trim_space
split_command line = let (cmd, line') = split_whitespace (trim_space line) in with_args cmd line'

split_command-copy :
    split_command (codes "  COPY --from=a\\ b --chown=\"x y\"  src  dst \n") ≡ record {
      cmd = codes "COPY";
      flags = codes "--from=a b" ∷ codes "--chown=x y" ∷ [];
      args = codes "src  dst";
    }
unfolding split_command text_eq
split_command-copy = refl
