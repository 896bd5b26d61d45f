-- ===== src/Examples.antt =====
-- The properties at concrete inputs.
use dockerfile.Base.{List, [], ◌∷◌, true, Option, none, some, ◌≡◌, refl, inl, arith}
use dockerfile.Base.Text.{Text, codes, text_eq, contains, is_space}
use dockerfile.Shell.Env.{build_envs, get_env, get_env-build_envs}
use dockerfile.Shell.Expand.{Spells}
use dockerfile.Shell.Expand
use dockerfile.Shell.Fuel
use dockerfile.Shell.Lex.{is_name_char, new_lex, not_set, failed_to_process}
use dockerfile.Shell.Modifiers.{process_word_with_map-modifiers}
use dockerfile.Shell.Quote.{process, value, failure, process_word_with_map}
use dockerfile.SplitCommand.{extract_builder_flags, split_command}
use dockerfile.SplitCommand.Flags.{extract_builder_flags-render}
use dockerfile.SplitCommand.RoundTrip.{split_command-render, split_command-around}
use dockerfile.Parser.Lines.{scan_lines}
use dockerfile.Parser.Lines.Scanning.{joined, AreLines, scan_lines-AreLines}
use dockerfile.Parser.ParseWords.{parse_words}
use dockerfile.Parser.ParseWords.Spec.{Inside, IsWord, Spaced, parse_words-Spaced}
use dockerfile.Parser.Error.Ends.{Ends}
use dockerfile.Parser.Parse.{Source, parse}
use dockerfile.Parser.Parse.Ranges.{Ranged, parse-Ranged}

extract_builder_flags-render_example :
    extract_builder_flags (codes "--from=a\\ b --x src  dst")
    ≡ (codes "src  dst", codes "--from=a b" ∷ codes "--x" ∷ [])
unfolding is_space
extract_builder_flags-render_example =
    extract_builder_flags-render (codes "from=a b" ∷ codes "x" ∷ []) (codes "src  dst")
      (ground arith) (refl, refl)

split_command-render_example :
    split_command (codes "COPY --from=a\\ b src dst")
    ≡ record { cmd = codes "COPY"; flags = codes "--from=a b" ∷ []; args = codes "src dst" }
unfolding is_space
split_command-render_example =
    split_command-render b'C' (codes "OPY") (codes "from=a b" ∷ []) (codes "src ds") b't'
      (refl, (refl, (refl, (refl, tt)))) (ground arith) (refl, refl) refl

split_command-around_example : split_command (codes " \tRUN x\n") ≡ split_command (codes "RUN x")
unfolding is_space
split_command-around_example =
    split_command-around (codes " \t") (codes "RUN x") (codes "\n") (refl, (refl, tt)) (refl, tt)

get_env-build_envs_example :
    get_env (build_envs (codes "A=1" ∷ codes "A=b=c" ∷ [])) (codes "A") ≡ some (codes "b=c")
unfolding text_eq contains
get_env-build_envs_example =
    get_env-build_envs (codes "A=1" ∷ []) (codes "A") (codes "b=c") (codes "A") refl

process-Ends_example :
    Fuel.Ends
      (codes "${x:-$y}")
      (process (new_lex b'\\') (codes "${x:-$y}") (build_envs (codes "y=1" ∷ [])))
process-Ends_example =
    Fuel.process-Ends (new_lex b'\\') (codes "${x:-$y}") (build_envs (codes "y=1" ∷ []))

a_quoted : Spells b'\\' (codes "a'b c'\\ ") (codes "ab c ")
unfolding is_space
a_quoted =
    Spells.plain b'a' (ground arith) refl
      (Spells.single (codes "b c") (ground arith) (Spells.escape b' ' Spells.end))

process-Spells_example :
    process (new_lex b'\\') (codes "a'b c'\\ ") [] ≡ value (codes "ab c ", codes "ab c " ∷ [])
unfolding new_lex
process-Spells_example =
    Expand.process-Spells (new_lex b'\\') [] (ground arith) refl refl a_quoted (ground arith)

process_word_with_map-modifiers_example :
    (process_word_with_map (new_lex b'\\') (codes "${x:-w}") [] ≡ value (codes "w"))
    × (process_word_with_map (new_lex b'\\') (codes "${x:+w}") [] ≡ value [])
    × (process_word_with_map (new_lex b'\\') (codes "${x:?w}") []
        ≡ failure (failed_to_process (codes "${x:?w}") (not_set (codes "x") (codes "w"))))
unfolding new_lex get_env is_name_char
process_word_with_map-modifiers_example =
    process_word_with_map-modifiers (new_lex b'\\') [] (codes "x") (codes "w") refl
      (refl, (refl, tt)) (ground arith)

two_words : Spaced b'\\' (codes " a\\ b 'c d'") (codes "a\\ b" ∷ codes "'c d'" ∷ [])
unfolding is_space
two_words =
    Spaced.more (codes " ") (codes "a\\ b") b' ' (refl, tt)
      (IsWord.plain b'a' (ground arith)
        (IsWord.escape b' ' (IsWord.plain b'b' (ground arith) IsWord.end)))
      (ground arith) refl
      (Spaced.last [] (codes "'c d'") tt
        (IsWord.quoted {body = codes "c d"} b'\'' (inl refl)
          (Inside.keep b'c' (ground arith) (ground arith) (
            Inside.keep b' ' (ground arith) (ground arith)
              (Inside.keep b'd' (ground arith) (ground arith) Inside.end)))
          IsWord.end)
        (ground arith))

parse_words-Spaced_example :
    parse_words b'\\' (codes " a\\ b 'c d'") ≡ codes "a\\ b" ∷ codes "'c d'" ∷ []
unfolding is_space
parse_words-Spaced_example = parse_words-Spaced b'\\' (ground arith) two_words

abbrev no_json : Text → Option (List (Option Text))
no_json s = none

abbrev two_lines : Source
two_lines = record { lines = codes "FROM a\n" ∷ codes "RUN b" ∷ []; failure = none }

parse-Ranged_example : Ends (Ranged true no_json 2) (parse true no_json two_lines)
parse-Ranged_example = parse-Ranged true no_json two_lines

scan_lines-AreLines_example :
    (joined (scan_lines (codes "FROM a\n\nRUN b")) ≡ codes "FROM a\n\nRUN b")
    × AreLines (scan_lines (codes "FROM a\n\nRUN b"))
scan_lines-AreLines_example = scan_lines-AreLines (codes "FROM a\n\nRUN b")
