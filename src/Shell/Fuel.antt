-- ===== src/Shell/Fuel.antt =====
-- The fuel of the lexer's loops suffices: every call leaves no more in the scanner than it found.
pub mod Parts
use dockerfile.Base.{
  ℕ, zero, suc, ◌+◌, ◌≤◌, ◌<◌, Bool, List, [], ◌∷◌, Option, none, some, ◌≡◌, ◌⊎◌, refl, arith,
  length, inl, inr, snoc,
}
use dockerfile.Base.Text.{Text}
use dockerfile.Shell.Env.{Env, get_env}
use dockerfile.Shell.Lex.{
  Lex, Error, failed_to_process, Outcome, ok, err, out_of_fuel, span, process_name,
  single_quote_loop, process_single_quote, apply_modifier, is_digit, is_name_char, required,
  modified, questioned, after_name, in_braces, bare, process_dollar,
}
use dockerfile.Shell.Quote.{
  failure, value, wrap, skip_mark, Result, Round, done, again, quote_round, double_quote_loop,
  process_double_quote, State, Step, halt, go, at_end, stop_round, stop_loop, begin, write_value,
  add_quoted, add_value, escaped, process_stop_on, process,
}
use dockerfile.Shell.Fuel.Parts.{
  Within, Within-le, process_name-le, single_quote_loop-Within, RoundWithin, write_value-Within,
  StepWithin, add_quoted-Within, add_value-Within, at_end-Within,
}

module _ (lex : Lex) (env : Env) where
  apply_modifier-Within :
      (modifier : ℕ) (name word : Text) (found : Option Text) (rest : Text)
      → Within (length rest) (apply_modifier lex env modifier name word found rest)
  unfolding apply_modifier
  apply_modifier-Within modifier name word none rest = ground arith
  apply_modifier-Within modifier name word (some []) rest = ground arith
  apply_modifier-Within modifier name word (some (c ∷ v)) rest = ground arith

  modified-Within :
      (m modifier : ℕ) (name : Text) (o : Outcome (Text × List Text))
      → Within m o
      → Within m (modified lex env modifier name o)
  modified-Within m modifier name (ok (word, _) rest) w =
      Within-le (length rest) m _ w
        (apply_modifier-Within modifier name word (get_env env name) rest)
  modified-Within m modifier name (err e []) w = w
  modified-Within m modifier name (err e (c ∷ rest)) w = w
  modified-Within m modifier name out_of_fuel w = w

  required-Within :
      (m : ℕ) (name word : Text) (found : Option Text) (rest : Text)
      → length rest ≤ m
      → Within m (required lex env name word found rest)
  required-Within m name word none rest w = ground arith
  required-Within m name word (some v) rest w = w

  questioned-Within :
      (m : ℕ) (name : Text) (o : Outcome (Text × List Text))
      → Within m o
      → Within m (questioned lex env name o)
  questioned-Within m name (ok (word, _) rest) w =
      required-Within m name word (get_env env name) rest w
  questioned-Within m name (err e []) w = w
  questioned-Within m name (err e (c ∷ rest)) w = w
  questioned-Within m name out_of_fuel w = w

  -- The inner call comes to an end on every text shorter than `n`.
  module _ (sub : Text → Outcome (Text × List Text)) (n : ℕ)
      (sub-Within : (s : Text) → length s < n → Within (length s) (sub s)) where
    after_name-Within :
        (name s : Text) → length s ≤ n → Within (length s) (after_name lex env sub name s)
    unfolding after_name
    after_name-Within name [] h = omega arith
    after_name-Within name (ch ∷ []) h =
        ground (arith, sub-Within [], questioned-Within 1 name (sub []))
    after_name-Within name (ch ∷ d ∷ s) h =
        let m = suc (suc (length s)) in
        ground (
          arith,
          questioned-Within m name (sub (d ∷ s)),
          Within-le (suc (length s)) m (sub (d ∷ s)),
          sub-Within (d ∷ s),
          modified-Within m d name (sub s),
          Within-le (length s) m (sub s),
          sub-Within s,
        )

    in_braces-Within : (s : Text) → length s ≤ n → Within (length s) (in_braces lex env sub s)
    unfolding in_braces
    in_braces-Within [] h = omega arith
    in_braces-Within (c ∷ s) h =
        let named = process_name (c ∷ s) in
        ground (
          arith,
          process_name-le (c ∷ s),
          after_name-Within named.0 named.1,
          Within-le (length named.1) (suc (length s)) (after_name lex env sub named.0 named.1),
        )

    process_dollar-Within :
        (s : Text) → length s ≤ n → Within (length s) (process_dollar lex env sub s)
    unfolding process_dollar bare
    process_dollar-Within [] h = process_name-le []
    process_dollar-Within (c ∷ s) h = ground (
      arith,
      process_name-le (c ∷ s),
      in_braces-Within s,
      Within-le (length s) (suc (length s)) (in_braces lex env sub s),
    )

    quote_round-Within :
        (ch : ℕ) (s result : Text)
        → length s ≤ n
        → RoundWithin (length s) (quote_round lex (process_dollar lex env sub) ch s result)
    unfolding quote_round
    quote_round-Within ch [] result h = ground (
      arith,
      process_dollar-Within [],
      write_value-Within 0 result (process_dollar lex env sub []),
    )
    quote_round-Within ch (d ∷ s) result h = ground (
      arith,
      process_dollar-Within (d ∷ s),
      write_value-Within (suc (length s)) result (process_dollar lex env sub (d ∷ s)),
    )

    double_quote_loop-Within :
        (f : ℕ) (s result : Text)
        → length s < f
        → length s ≤ n
        → Within (length s) (double_quote_loop lex (process_dollar lex env sub) f s result)
    unfolding double_quote_loop
    double_quote_loop-Within zero s result h k = absurd (omega arith)
    double_quote_loop-Within (suc f) [] result h k = omega arith
    double_quote_loop-Within (suc f) (ch ∷ s) result h k =
        next (quote_round lex (process_dollar lex env sub) ch s result)
          (quote_round-Within ch s result (omega arith))
          (λ s' result' m. double_quote_loop-Within f s' result' (omega arith) (omega arith))
      where
        next :
            (r : Round)
            → RoundWithin (length s) r
            → ((s' result' : Text)
                → length s' ≤ length s
                → Within
                    (length s')
                    (double_quote_loop lex (process_dollar lex env sub) f s' result'))
            → Within (suc (length s)) (elim r [
              | done o ↦ o
              | again rest' result' ↦
                  double_quote_loop lex (process_dollar lex env sub) f rest' result'
            ])
        next (done o) w ih = Within-le (length s) (suc (length s)) o (omega arith) w
        next (again s' result') w ih =
            Within-le (length s') (suc (length s)) _ (omega arith) (ih s' result' w)

    process_single_quote-Within :
        (ch : ℕ) (s : Text) → Within (length s) (process_single_quote lex ch s)
    unfolding process_single_quote
    process_single_quote-Within ch s = single_quote_loop-Within lex.raw_quotes s _

    process_double_quote-Within :
        (f ch : ℕ) (s : Text)
        → length s < f
        → length s ≤ n
        → Within (length s) (process_double_quote lex (process_dollar lex env sub) f ch s)
    unfolding process_double_quote
    process_double_quote-Within f ch s h k = double_quote_loop-Within f s _ h k

    escaped-Within :
        (stop : Option ℕ) (ch : ℕ) (s : Text) (st : State)
        → StepWithin (length s) (escaped lex env stop ch s st)
    escaped-Within stop ch [] st = at_end-Within 0 stop _
    escaped-Within stop ch (d ∷ s) st = omega arith

    stop_round-Within :
        (f : ℕ) (stop : Option ℕ) (ch : ℕ) (s : Text) (st : State)
        → length s < f
        → length s ≤ n
        → StepWithin (length s) (stop_round lex env f sub stop ch s st)
    unfolding stop_round
    stop_round-Within f stop ch s st h k =
        let single = process_single_quote lex ch s in
        let double = process_double_quote lex (process_dollar lex env sub) f ch s in
        let dollar = process_dollar lex env sub s in
        ground (
          arith,
          process_single_quote-Within ch s,
          add_quoted-Within (length s) st single,
          process_double_quote-Within f ch s,
          add_quoted-Within (length s) st double,
          process_dollar-Within s,
          add_value-Within (length s) st dollar,
          escaped-Within stop ch s st,
        )

  abbrev closing : ℕ → Text → Outcome (Text × List Text)
  closing f t = stop_loop lex env f (some b'}') t (begin lex env t)

  stop_loop-Within :
      (f : ℕ) (stop : Option ℕ) (s : Text) (st : State)
      → length s < f
      → Within (length s) (stop_loop lex env f stop s st)
  unfolding stop_loop
  stop_loop-Within zero stop s st h = absurd (omega arith)
  stop_loop-Within (suc f) stop [] st h = at_end-Within 0 stop st
  stop_loop-Within (suc f) stop (ch ∷ s) st h =
      next (stop_round lex env f (closing f) stop ch s st)
        (stop_round-Within (closing f) f
          (λ t k. stop_loop-Within f (some b'}') t (begin lex env t) k) f stop ch s st (omega arith)
          (omega arith))
        (λ st' k. stop_loop-Within f stop st'.rest st' (omega arith))
    where
      next :
          (r : Step)
          → StepWithin (length s) r
          → ((st' : State)
              → length st'.rest ≤ length s
              → Within (length st'.rest) (stop_loop lex env f stop st'.rest st'))
          → Within
              (suc (length s))
              (elim r [ halt o ↦ o | go st' ↦ stop_loop lex env f stop st'.rest st' ])
      next (halt o) w ih = Within-le (length s) (suc (length s)) o (omega arith) w
      next (go st') w ih = Within-le (length st'.rest) (suc (length s)) _ (omega arith) (ih st' w)

-- A value, or an error that names the source.
abbrev pub Ends : Text → Result (Text × List Text) → Type 0
Ends source r =
    ((v : Text × List Text) × (r ≡ value v))
    ⊎ ((e : Error) × (r ≡ failure (failed_to_process source e)))

wrap-Ends :
    (source : Text) (n : ℕ) (o : Outcome (Text × List Text))
    → Within n o
    → Ends source (wrap source o)
wrap-Ends source n (ok v rest) w = inl (v, refl)
wrap-Ends source n (err e rest) w = inr (e, refl)
wrap-Ends source n out_of_fuel w = absurd w

process_stop_on-Within :
    (lex : Lex) (env : Env) (f : ℕ) (stop : Option ℕ) (s : Text)
    → length s < f
    → Within (length s) (process_stop_on lex env f stop s)
unfolding process_stop_on
process_stop_on-Within lex env f stop s h = stop_loop-Within lex env f stop s (begin lex env s) h

-- Lexing comes to an end, with a value or with an error that names the word, whatever the word,
-- the environment and the settings: the fuel that `process` starts with is enough.
pub process-Ends : (lex : Lex) (word : Text) (env : Env) → Ends word (process lex word env)
unfolding process
process-Ends lex word env =
    let s = skip_mark word in
    wrap-Ends word (length s) (process_stop_on lex env (length s + 1) none s)
      (process_stop_on-Within lex env (length s + 1) none s (omega arith))
