-- ===== src/Shell/Quote.antt =====
-- `processDoubleQuote` and `processStopOn` of parser/shell/lex.go, and the methods of `Lex`. Both
-- loops run on fuel; a round makes all its calls with less.
use dockerfile.Base.{
  ℕ, zero, suc, ◌+◌, Bool, false, ◌||◌, List, [], ◌∷◌, ◌++◌, Option, none, some, ◌==◌,
  if◌then◌else◌, snoc, length,
}
use dockerfile.Base.Text.{Text}
use dockerfile.Shell.Env.{Env, build_envs}
use dockerfile.Shell.Words.{
  Words, no_words, add_raw_char, add_char, add_string, add_raw_string, get_words,
}
use dockerfile.Shell.Lex.{
  Lex, Error, unmatched, unmatched_double_quote, failed_to_process, Outcome, ok, err, out_of_fuel,
  process_single_quote, process_dollar,
}

-- A round ends the loop, or goes on with the rest of the text and what was written so far.
pub data Round : Type 0 where
  done : Outcome Text → Round
  again : Text → Text → Round

-- behind a value that the round writes
abbrev pub write_value : Text → Outcome Text → Round
write_value result (ok value rest) = again rest (result ++ value)
write_value result (err e rest) = done (err e rest)
write_value result out_of_fuel = done out_of_fuel

module _ (lex : Lex) (dollar : Text → Outcome Text) where
  -- behind the escape token `ch` in double quotes; only a quote, `$` and the token are escaped
  abbrev escape_in_quotes : ℕ → Text → Text → Round
  escape_in_quotes ch [] result = again [] (if lex.raw_escapes then snoc result ch else result)
  escape_in_quotes ch (d ∷ rest) result =
      let kept = if lex.raw_escapes then snoc result ch else result in
      if d == b'"' || d == b'$' || d == lex.escape_token
      then again rest (snoc kept d)
      else again (d ∷ rest) (snoc kept ch)

  unfoldable pub quote_round : ℕ → Text → Text → Round
  quote_round ch rest result =
      if ch == b'"'
      then done (ok (if lex.raw_quotes then snoc result ch else result) rest)
      else if ch == b'$'
      then write_value result (dollar rest)
      else if ch == lex.escape_token
      then escape_in_quotes ch rest result
      else again rest (snoc result ch)

  -- The loop of `processDoubleQuote`.
  unfoldable pub double_quote_loop : ℕ → Text → Text → Outcome Text
  double_quote_loop zero s result = out_of_fuel
  double_quote_loop (suc f) [] result = err unmatched_double_quote []
  double_quote_loop (suc f) (ch ∷ rest) result = elim (quote_round ch rest result) [
    | done o ↦ o
    | again rest' result' ↦ double_quote_loop f rest' result'
  ]

  -- `processDoubleQuote`, behind the quote `ch`
  unfoldable pub process_double_quote : ℕ → ℕ → Text → Outcome Text
  process_double_quote f ch rest = double_quote_loop f rest (if lex.raw_quotes then ch ∷ [] else [])

-- The variables of the loop of `processStopOn`, with the rest of the text.
pub record State : Type 0 where
  pub rest : Text
  pub result : Text
  pub words : Words

pub data Step : Type 0 where
  halt : Outcome (Text × List Text) → Step
  go : State → Step

-- behind the loop
abbrev pub at_end : Option ℕ → State → Outcome (Text × List Text)
at_end none st = ok (st.result, get_words st.words) []
at_end (some stop) st = err (unmatched stop) []

abbrev is_stop : Option ℕ → ℕ → Bool
is_stop none ch = false
is_stop (some stop) ch = ch == stop

-- `words.addRawString(tmp)` behind a quoted text, `words.addString(tmp)` behind a variable
abbrev pub add_quoted : State → Outcome Text → Step
add_quoted st (ok tmp rest) =
    go (record { rest = rest; result = st.result ++ tmp; words = add_raw_string st.words tmp })
add_quoted st (err e rest) = halt (err e rest)
add_quoted st out_of_fuel = halt out_of_fuel

abbrev pub add_value : State → Outcome Text → Step
add_value st (ok tmp rest) =
    go (record { rest = rest; result = st.result ++ tmp; words = add_string st.words tmp })
add_value st (err e rest) = halt (err e rest)
add_value st out_of_fuel = halt out_of_fuel

module _ (lex : Lex) (env : Env) where
  -- behind the escape token `ch`; at the end of the text this is the `break`
  abbrev pub escaped : Option ℕ → ℕ → Text → State → Step
  escaped stop ch [] st = halt (
      at_end stop
        (record st { words = if lex.raw_escapes then add_raw_char st.words ch else st.words }))
  escaped stop ch (d ∷ rest) st = go (record {
    rest = rest;
    result = snoc st.result d;
    words = add_raw_char (if lex.raw_escapes then add_raw_char st.words ch else st.words) d;
  })

  -- A round at `ch`, with fuel and `processStopOn('}')` for the calls that it makes.
  unfoldable pub stop_round :
      ℕ → (Text → Outcome (Text × List Text)) → Option ℕ → ℕ → Text → State → Step
  stop_round f sub stop ch rest st =
      if is_stop stop ch
      then halt (ok (st.result, get_words st.words) rest)
      else if ch == b'\''
      then add_quoted st (process_single_quote lex ch rest)
      else if ch == b'"'
      then add_quoted st (process_double_quote lex (process_dollar lex env sub) f ch rest)
      else if ch == b'$'
      then add_value st (process_dollar lex env sub rest)
      else if ch == lex.escape_token
      then escaped stop ch rest st
      else go (record { rest = rest; result = snoc st.result ch; words = add_char st.words ch })

  abbrev pub begin : Text → State
  begin s = record { rest = s; result = []; words = no_words }

  -- The loop of `processStopOn`, at the text `s` that `st.rest` holds.
  unfoldable pub stop_loop : ℕ → Option ℕ → Text → State → Outcome (Text × List Text)
  stop_loop zero stop s st = out_of_fuel
  stop_loop (suc f) stop [] st = at_end stop st
  stop_loop (suc f) stop (ch ∷ rest) st =
      elim (stop_round f (λ t. stop_loop f (some b'}') t (begin t)) stop ch rest st) [
        | halt o ↦ o
        | go st' ↦ stop_loop f stop st'.rest st'
      ]

  -- `processStopOn`
  unfoldable pub process_stop_on : ℕ → Option ℕ → Text → Outcome (Text × List Text)
  process_stop_on f stop s = stop_loop f stop s (begin s)

abbrev pub skip_mark : Text → Text
skip_mark [] = []
skip_mark (c ∷ s) = if c == 0xfeff then s else c ∷ s

-- A word and its words, or an error. `unfinished` is the model's own, and never comes about.
pub data Result {ℓ} (A : Type ℓ) : Type ℓ where
  value : A → Result A
  failure : Error → Result A
  unfinished : Result A

-- `(*shellWord).process`: the error names the source.
abbrev pub wrap : Text → Outcome (Text × List Text) → Result (Text × List Text)
wrap source (ok r _) = value r
wrap source (err e _) = failure (failed_to_process source e)
wrap source out_of_fuel = unfinished

-- `(*Lex).process`
unfoldable pub process : Lex → Text → Env → Result (Text × List Text)
unfolding process_stop_on stop_loop stop_round process_single_quote process_double_quote
    double_quote_loop quote_round process_dollar get_words add_raw_char add_char add_string
    add_raw_string
process lex word env =
    wrap word (process_stop_on lex env (length (skip_mark word) + 1) none (skip_mark word))

abbrev pub first : Result (Text × List Text) → Result Text
first (value (word, _)) = value word
first (failure e) = failure e
first unfinished = unfinished

abbrev pub second : Result (Text × List Text) → Result (List Text)
second (value (_, words)) = value words
second (failure e) = failure e
second unfinished = unfinished

unfoldable pub process_word_with_map : Lex → Text → Env → Result Text
unfolding process
process_word_with_map lex word env = first (process lex word env)

unfoldable pub process_words_with_map : Lex → Text → Env → Result (List Text)
unfolding process
process_words_with_map lex word env = second (process lex word env)

unfoldable pub process_word : Lex → Text → List Text → Result Text
unfolding process build_envs
process_word lex word env = first (process lex word (build_envs env))

unfoldable pub process_words : Lex → Text → List Text → Result (List Text)
unfolding process build_envs
process_words lex word env = second (process lex word (build_envs env))
