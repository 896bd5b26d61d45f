-- ===== src/Parser/Heredoc/Fuel.antt =====
-- Looking for here-documents ends in a list or an error of the source.
use dockerfile.Base.{
  List, [], ◌∷◌, Bool, true, false, Option, none, some, ◌≡◌, if◌then◌else◌, ◌⊎◌, inl, inr,
  Bool-cases,
}
use dockerfile.Base.Text.{Text}
use dockerfile.Shell.Env.{build_envs}
use dockerfile.Shell.Lex.{Lex}
use dockerfile.Shell.Quote
use dockerfile.Shell.Quote.{process, process_words, second, value, failure, unfinished}
use dockerfile.Shell.Fuel
use dockerfile.Shell.Fuel.{process-Ends}
use dockerfile.Parser.Ast.{Heredoc}
use dockerfile.Parser.Error.{Result, ok, err, ◌>>=◌}
use dockerfile.Parser.Error.Ends.{Ends}
use dockerfile.Parser.Heredoc.{
  Match, lexed, heredoc_lex, from_words, single_word, heredoc_from_match, match_heredoc,
  parse_heredoc, append_some, heredocs_of, words_or_none, line_lex, heredocs_from_line,
}

abbrev pub Anything {ℓ} : {A : Type ℓ} → A → Type 0
Anything a = Unit

lexed-Ends :
    {A : Type 0} (lex : Lex) (word : Text) (f : List Text → Result A)
    → ((words : List Text) → Ends Anything (f words))
    → Ends Anything (lexed (process_words lex word []) f)
unfolding process_words
lexed-Ends {A} lex word f h =
    by_end (process lex word (build_envs [])) (process-Ends lex word (build_envs []))
  where
    by_end :
        (r : Quote.Result (Text × List Text))
        → Fuel.Ends word r
        → Ends (Anything {A = A}) (lexed (second r) f)
    by_end (value (w, words)) e = h words
    by_end (failure e) k = tt
    by_end unfinished (inl e) = cc
    by_end unfinished (inr e) = cc

from_words-Ends :
    (fd : Text) (chomp : Bool) (rest : Text) (words raw : List Text)
    → Ends Anything (from_words fd chomp rest words raw)
from_words-Ends fd chomp rest (w ∷ []) (r ∷ []) = tt
from_words-Ends fd chomp rest (w ∷ []) _ = tt
from_words-Ends fd chomp rest _ _ = tt

heredoc_from_match-Ends : (m : Option Match) → Ends Anything (heredoc_from_match m)
unfolding heredoc_from_match
heredoc_from_match-Ends none = tt
heredoc_from_match-Ends (some (fd, chomp, [])) = tt
heredoc_from_match-Ends (some (fd, chomp, c ∷ rest)) =
    lexed-Ends (heredoc_lex false) (c ∷ rest) _
      λ words. second_run words (Bool-cases (single_word words))
  where
    second_run :
        (words : List Text)
        → (single_word words ≡ true) ⊎ (single_word words ≡ false)
        → Ends Anything (
            if single_word words
            then lexed
                (process_words (heredoc_lex true) (c ∷ rest) [])
                (λ raw. from_words fd chomp (c ∷ rest) words raw)
            else ok none)
    second_run words (inl y) =
        rw y
          (lexed-Ends (heredoc_lex true) (c ∷ rest) _ (from_words-Ends fd chomp (c ∷ rest) words))
    second_run words (inr n) = rw n tt

heredocs_of-Ends :
    (docs : List Heredoc) (words : List Text) → Ends Anything (heredocs_of docs words)
unfolding heredocs_of
heredocs_of-Ends docs [] = tt
heredocs_of-Ends docs (word ∷ words) =
    next (parse_heredoc word) (unfold parse_heredoc in heredoc_from_match-Ends (match_heredoc word))
      (λ h. heredocs_of-Ends (append_some docs h) words)
  where
    next :
        (r : Result (Option Heredoc))
        → Ends Anything r
        → ((h : Option Heredoc) → Ends Anything (heredocs_of (append_some docs h) words))
        → Ends Anything (r >>= λ h. heredocs_of (append_some docs h) words)
    next (ok h) e k = k h
    next (err e) h k = h

pub heredocs_from_line-Ends : (line : Text) → Ends Anything (heredocs_from_line line)
unfolding heredocs_from_line
heredocs_from_line-Ends line = heredocs_of-Ends [] (words_or_none (process_words line_lex line []))
