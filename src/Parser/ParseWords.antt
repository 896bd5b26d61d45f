-- ===== src/Parser/ParseWords.antt =====
-- `parseWords` of parser/line_parsers.go. Its loop has the variables of `extractBuilderFlags`.
pub mod Spec
use dockerfile.Base.{
  ℕ, List, [], ◌∷◌, ◌++◌, Bool, true, false, not, ◌&&◌, ◌||◌, ◌==◌, ◌≡◌, refl, snoc, if◌then◌else◌,
}
use dockerfile.Base.Text.{Text, codes, is_space}
use dockerfile.SplitCommand.{Phase, in_spaces, in_word, in_quote, Scan, start, flush}

-- `pos += chWidth`, once or twice
pub data Move : Type 0 where
  advance : Scan → Move
  advance_two : Scan → Move

abbrev pub push : Scan → ℕ → Scan
push s c = record s { word = snoc s.word c }

module _ (token : ℕ) where
  -- An escape token is kept, with the character behind it; at the end of the text it is dropped.
  abbrev pub escape_word : Scan → ℕ → Text → Move
  escape_word s c [] = advance s
  escape_word s c (d ∷ _) = advance_two (push (push s c) d)

  unfoldable pub step_word : Scan → ℕ → Text → Move
  unfolding flush
  step_word s c rest =
      if is_space c
      then advance (record s { phase = in_spaces; words = flush s; word = []; blank_ok = false })
      else let s' =
          if c == b'\'' || c == b'"'
          then record s { quote = c; blank_ok = true; phase = in_quote }
          else s in
        if c == token then escape_word s' c rest else advance (push s' c)

  unfoldable pub step_spaces : Scan → ℕ → Text → Move
  unfolding step_word
  step_spaces s c rest =
      if is_space c then advance s else step_word (record s { phase = in_word }) c rest

  abbrev pub escape_quote : Scan → ℕ → Text → Move
  escape_quote s c [] = advance (record s { phase = in_word })
  escape_quote s c (d ∷ _) = advance_two (push (push s c) d)

  unfoldable pub step_quote : Scan → ℕ → Text → Move
  step_quote s c rest =
      let s' = if c == s.quote then record s { phase = in_word } else s in
      if c == token && not (s.quote == b'\'') then escape_quote s' c rest else advance (push s' c)

  unfoldable pub step : Phase → Scan → ℕ → Text → Move
  unfolding step_spaces step_word step_quote
  step in_spaces = step_spaces
  step in_word = step_word
  step in_quote = step_quote

  -- The round at the end of the text
  unfoldable pub finish : Phase → Scan → List Text
  unfolding flush
  finish in_spaces s = s.words
  finish _ s = flush s

  unfoldable pub scan : Text → Scan → List Text
  scan [] s = finish s.phase s
  scan (c ∷ []) s = elim (step s.phase s c []) [
    | advance s' ↦ finish s'.phase s'
    | advance_two s' ↦ finish s'.phase s'
  ]
  scan (c ∷ d ∷ rest) s = elim (step s.phase s c (d ∷ rest)) [
    | advance s' ↦ scan (d ∷ rest) s'
    | advance_two s' ↦ scan rest s'
  ]

  unfoldable pub parse_words : Text → List Text
  unfolding scan step finish
  parse_words rest = scan rest start

parse_words-quotes :
    parse_words b'\\' (codes " a=\"b c\" d\\ e  'f\\' g\\")
    ≡ codes "a=\"b c\"" ∷ codes "d\\ e" ∷ codes "'f\\'" ∷ codes "g" ∷ []
unfolding parse_words is_space
parse_words-quotes = refl
