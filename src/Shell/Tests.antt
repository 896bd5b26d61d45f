-- ===== src/Shell/Tests.antt =====
-- Runs of the lexer.
use dockerfile.Base.{List, [], ◌∷◌, ◌≡◌, refl}
use dockerfile.Base.Text.{Text, codes, text_eq, is_space}
use dockerfile.Shell.Env.{get_env}
use dockerfile.Shell.Lex.{new_lex, failed_to_process, unmatched_single_quote, missing_brace}
use dockerfile.Shell.Quote.{process_word, process_words, value, failure}

abbrev env : List Text
env = codes "PWD=/home" ∷ codes "SHELL=bash" ∷ codes "KOREAN=한국어" ∷ codes "NULL=" ∷ []

run_dollar :
    process_word (new_lex b'\\') (codes "he${SHELL:-x}o $PWD.${NULL:-'a b'}") env
    ≡ value (codes "hebasho /home.a b")
unfolding process_word new_lex get_env text_eq
run_dollar = refl

run_words :
    process_words (new_lex b'\\') (codes "a 'b c' \"d$PWD\"e\\ f  ${NULL:-x y}") env
    ≡ value (codes "a" ∷ codes "b c" ∷ codes "d/homee f" ∷ codes "x" ∷ codes "y" ∷ [])
unfolding process_words new_lex get_env text_eq is_space
run_words = refl

run_unmatched :
    process_word (new_lex b'\\') (codes "ab'c") env
    ≡ failure (failed_to_process (codes "ab'c") unmatched_single_quote)
unfolding process_word new_lex get_env text_eq
run_unmatched = refl

run_brace :
    process_word (new_lex b'\\') (codes "${a:-b") env
    ≡ failure (failed_to_process (codes "${a:-b") missing_brace)
unfolding process_word new_lex get_env text_eq
run_brace = refl
