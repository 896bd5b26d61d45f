-- ===== src/Parser/LineParsers/Fuel.antt =====
-- The line parsers end in a value or an error of the source, also where ONBUILD calls them again.
use dockerfile.Base.{
  ℕ, zero, suc, ◌<◌, List, [], ◌∷◌, Option, none, some, ◌≡◌, ◌⊎◌, inl, inr, arith, length,
  Bool-cases,
}
use dockerfile.Base.Text.{Text, contains, cut, to_lower}
use dockerfile.Command.{Command, of_name}
use dockerfile.SplitCommand.{split_whitespace, split_command}
use dockerfile.SplitCommand.Bounds.{split_command-lt}
use dockerfile.Parser.Ast.{Node}
use dockerfile.Parser.Error.{Result, ok, err}
use dockerfile.Parser.Error.Ends.{Ends, Ends-bind}
use dockerfile.Parser.ParseWords.{parse_words}
use dockerfile.Parser.LineParsers.{
  made_node, name_val_words, Parsed, parse_sub_command, name_value, name_values, old_format,
  parse_name_val, parse_strings, parse_string, Json, strings, not_strings, not_json, parse_json,
  maybe_json, parse_maybe_json, parse_maybe_json_to_list, break_space, health, dispatch, new_node,
}

abbrev Anything {ℓ} : {A : Type ℓ} → A → Type 0
Anything a = Unit

name_value-Ends :
    (kv : Text × Option Text) (word : Text) (r : Result (List Text))
    → Ends Anything r
    → Ends Anything (name_value kv word r)
name_value-Ends (k, none) word r h = tt
name_value-Ends (k, some v) word (ok vs) h = tt
name_value-Ends (k, some v) word (err e) h = h

name_values-Ends : (words : List Text) → Ends Anything (name_values words)
unfolding name_values
name_values-Ends [] = tt
name_values-Ends (word ∷ words) = name_value-Ends (cut word b'=') word _ (name_values-Ends words)

old_format-Ends : (key : Text) (r : Text × Option Text) → Ends Anything (old_format key r)
old_format-Ends key (k, none) = tt
old_format-Ends key (k, some v) = tt

name_val_words-Ends :
    (rest key : Text) (words : List Text) → Ends Anything (name_val_words rest key words)
name_val_words-Ends rest key [] = tt
name_val_words-Ends rest key (word ∷ words) = elim (Bool-cases (contains word b'=')) [
  | inl y ↦ rw y (
      Ends-bind Anything Anything (name_values (word ∷ words)) _ (name_values-Ends (word ∷ words))
        (λ _ _. tt))
  | inr n ↦ rw n (old_format-Ends key (split_whitespace rest))
]

parse_name_val-Ends : (token : ℕ) (rest key : Text) → Ends Anything (parse_name_val token rest key)
unfolding parse_name_val
parse_name_val-Ends token rest key = name_val_words-Ends rest key (parse_words token rest)

parse_strings-Ends : (rest : Text) → Ends Anything (parse_strings rest)
unfolding parse_strings
parse_strings-Ends [] = tt
parse_strings-Ends (c ∷ rest) = tt

parse_string-Ends : (rest : Text) → Ends Anything (parse_string rest)
unfolding parse_string
parse_string-Ends [] = tt
parse_string-Ends (c ∷ rest) = tt

module _ (decode : Text → Option (List (Option Text))) where
  maybe_json-Ends :
      (otherwise : Parsed) (j : Json)
      → Ends Anything otherwise
      → Ends Anything (maybe_json decode otherwise j)
  maybe_json-Ends otherwise (strings ss) h = tt
  maybe_json-Ends otherwise not_strings h = tt
  maybe_json-Ends otherwise not_json h = h

  parse_maybe_json-Ends : (rest : Text) → Ends Anything (parse_maybe_json decode rest)
  unfolding parse_maybe_json
  parse_maybe_json-Ends [] = tt
  parse_maybe_json-Ends (c ∷ rest) = maybe_json-Ends _ (parse_json decode (c ∷ rest)) tt

  parse_maybe_json_to_list-Ends :
      (rest : Text) → Ends Anything (parse_maybe_json_to_list decode rest)
  unfolding parse_maybe_json_to_list
  parse_maybe_json_to_list-Ends rest =
      maybe_json-Ends (parse_strings rest) (parse_json decode rest) (parse_strings-Ends rest)

  health-Ends : (typ cmd : Text) → Ends Anything (health decode typ cmd)
  health-Ends [] cmd = tt
  health-Ends (c ∷ typ) cmd =
      Ends-bind Anything Anything (parse_maybe_json decode cmd) _ (parse_maybe_json-Ends cmd)
        (λ _ _. tt)

  sub_command-Ends :
      (sub : Text → Result Node) (rest : Text)
      → ((rest ≡ []) ⊎ Ends Anything (sub rest))
      → Ends Anything (parse_sub_command sub rest)
  unfolding parse_sub_command
  sub_command-Ends sub [] h = tt
  sub_command-Ends sub (c ∷ rest) (inl e) = cc
  sub_command-Ends sub (c ∷ rest) (inr h) =
      Ends-bind Anything Anything (sub (c ∷ rest)) _ h (λ _ _. tt)

  module _ (token : ℕ) where
    dispatch-Ends :
        (sub : Text → Result Node) (c : Option Command) (rest : Text)
        → ((rest ≡ []) ⊎ Ends Anything (sub rest))
        → Ends Anything (dispatch decode token sub c rest)
    unfolding dispatch
    dispatch-Ends sub none rest h = tt
    dispatch-Ends sub (some Command.add) rest h = parse_maybe_json_to_list-Ends rest
    dispatch-Ends sub (some Command.arg) rest h = tt
    dispatch-Ends sub (some Command.cmd) rest h = parse_maybe_json-Ends rest
    dispatch-Ends sub (some Command.copy) rest h = parse_maybe_json_to_list-Ends rest
    dispatch-Ends sub (some Command.entrypoint) rest h = parse_maybe_json-Ends rest
    dispatch-Ends sub (some Command.env) rest h =
        Ends-bind Anything Anything (parse_name_val token rest _) _
          (parse_name_val-Ends token rest _) (λ _ _. tt)
    dispatch-Ends sub (some Command.expose) rest h = parse_strings-Ends rest
    dispatch-Ends sub (some Command.from) rest h = parse_strings-Ends rest
    dispatch-Ends sub (some Command.healthcheck) rest h =
        health-Ends (break_space rest).0 (break_space rest).1
    dispatch-Ends sub (some Command.label) rest h =
        Ends-bind Anything Anything (parse_name_val token rest _) _
          (parse_name_val-Ends token rest _) (λ _ _. tt)
    dispatch-Ends sub (some Command.maintainer) rest h = parse_string-Ends rest
    dispatch-Ends sub (some Command.onbuild) rest h = sub_command-Ends sub rest h
    dispatch-Ends sub (some Command.run) rest h = parse_maybe_json-Ends rest
    dispatch-Ends sub (some Command.shell) rest h = parse_maybe_json-Ends rest
    dispatch-Ends sub (some Command.stop_signal) rest h = parse_string-Ends rest
    dispatch-Ends sub (some Command.user) rest h = parse_string-Ends rest
    dispatch-Ends sub (some Command.volume) rest h = parse_maybe_json_to_list-Ends rest
    dispatch-Ends sub (some Command.workdir) rest h = parse_string-Ends rest

    pub new_node-Ends :
        (f : ℕ) (line : Text) (comments : List Text)
        → length line < f
        → Ends Anything (new_node decode token f line comments)
    unfolding new_node
    new_node-Ends zero line comments h = absurd (omega arith)
    new_node-Ends (suc f) line comments h =
        let s = split_command line in
        let sub : Text → Result Node = λ rest. new_node decode token f rest [] in
        Ends-bind Anything Anything (dispatch decode token sub (of_name (to_lower s.cmd)) s.args)
          (λ parsed. ok (made_node s line comments parsed))
          (dispatch-Ends sub (of_name (to_lower s.cmd)) s.args
            (shorter s.args (split_command-lt line) (λ k. new_node-Ends f s.args [] (omega arith))))
          (λ _ _. tt)
      where
        shorter :
            (args : Text)
            → (args ≡ []) ⊎ (length args < length line)
            → (length args < length line → Ends Anything (new_node decode token f args []))
            → (args ≡ []) ⊎ Ends Anything (new_node decode token f args [])
        shorter args (inl e) k = inl e
        shorter args (inr l) k = inr (k l)
