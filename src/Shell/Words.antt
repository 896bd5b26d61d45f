-- ===== src/Shell/Words.antt =====
-- `wordsStruct` of parser/shell/lex.go: the words that a text is split into as it is read.
use dockerfile.Base.{ℕ, Bool, true, false, not, ◌&&◌, List, [], ◌∷◌, ◌++◌, if◌then◌else◌, snoc}
use dockerfile.Base.Text.{Text, is_space}

pub record Words : Type 0 where
  pub word : Text
  pub words : List Text
  pub in_word : Bool

abbrev pub no_words : Words
no_words = record { word = []; words = []; in_word = false }

-- `if len(w.word) != 0 { … }` on the current word
abbrev close_word : Words → Text → Words
close_word w [] = w
close_word w (c ∷ s) = record { word = []; words = snoc w.words (c ∷ s); in_word = false }

unfoldable pub add_raw_char : Words → ℕ → Words
add_raw_char w ch = record w { word = snoc w.word ch; in_word = true }

unfoldable pub add_char : Words → ℕ → Words
unfolding add_raw_char
add_char w ch =
    if is_space ch && w.in_word
    then close_word w w.word
    else if not (is_space ch)
    then add_raw_char w ch
    else w

unfoldable pub add_string : Words → Text → Words
unfolding add_char
add_string w [] = w
add_string w (ch ∷ str) = add_string (add_char w ch) str

unfoldable pub add_raw_string : Words → Text → Words
add_raw_string w str = record w { word = w.word ++ str; in_word = true }

unfoldable pub get_words : Words → List Text
get_words w = (close_word w w.word).words
