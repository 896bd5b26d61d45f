-- ===== src/Shell/Modifiers.antt =====
-- References to variables: `${name:-word}`, `${name:+word}`, `${name:?word}`, at the level of the
-- whole lexer.
pub mod Names
use dockerfile.Base.{
  ℕ, zero, suc, ◌<◌, Bool, true, false, List, [], ◌∷◌, ◌++◌, Option, none, some, ◌≡◌, ◌≢◌, refl,
  arith, ap, ◌∙◌, ◌==◌, if◌then◌else◌, append-nil, append_assoc, All, length, length-append, snoc,
}
use dockerfile.Base.Text.{Text, AllOf}
use dockerfile.Shell.Env.{Env, get_env}
use dockerfile.Shell.Words.{get_words, add_char}
use dockerfile.Shell.Lex.{
  Lex, modified, Outcome, ok, err, out_of_fuel, not_set, span, process_name, is_name_char, is_digit,
  is_special_param, or_default, unset_message, empty_message, is_empty, apply_modifier, after_name,
  in_braces, process_dollar, failed_to_process,
}
use dockerfile.Shell.Unroll.{closing, after, stop_loop_step, process_loop}
use dockerfile.Shell.Quote.{
  unfinished, add_value, State, go, stop_round, stop_loop, begin, Result, value, failure, wrap,
  first, process_word_with_map,
}
use dockerfile.Shell.Modifiers.Names.{
  IsName, IsInner, name_char-not-brace, process_name-append, reference,
}

module _ (lex : Lex) (env : Env) where
  abbrev brace : Option ℕ
  brace = some b'}'

  abbrev step_on : State → ℕ → Text → State
  step_on st c rest = record { rest = rest; result = snoc st.result c; words = add_char st.words c }

  stop_round-inner :
      (f c : ℕ) (rest : Text) (st : State)
      → IsInner lex.escape_token c
      → stop_round lex env f (closing lex env f) brace c rest st ≡ go (step_on st c rest)
  unfolding stop_round
  stop_round-inner f c rest st h = ground arith

  closing-plain :
      (f : ℕ) (w rest : Text) (st : State)
      → All (IsInner lex.escape_token) w
      → length w < f
      → (ws : List Text) × (stop_loop lex env f brace (w ++ b'}' ∷ rest) st
          ≡ ok (st.result ++ w, ws) rest)
  closing-plain zero w rest st h k = absurd (omega arith)
  closing-plain (suc f) [] rest st h k =
      (get_words st.words, unfold stop_loop stop_round in rw (append-nil st.result))
  closing-plain (suc f) (c ∷ w) rest st h k =
      let (ws, e) = closing-plain f w rest (step_on st c (w ++ b'}' ∷ rest)) h.1 (omega arith) in
      (
        ws,
        stop_loop_step lex env f brace c (w ++ b'}' ∷ rest) st
            ∙ ap (after lex env f brace) (stop_round-inner f c (w ++ b'}' ∷ rest) st h.0)
            ∙ e
            ∙ rw append_assoc,
      )

  process_dollar_brace :
      (sub : Text → Outcome (Text × List Text)) (s : Text)
      → process_dollar lex env sub (b'{' ∷ s) ≡ in_braces lex env sub s
  unfolding process_dollar
  process_dollar_brace sub s = refl

  after_name_modifier :
      (sub : Text → Outcome (Text × List Text)) (name : Text) (m : ℕ) (s : Text)
      → after_name lex env sub name (b':' ∷ m ∷ s) ≡ modified lex env m name (sub s)
  unfolding after_name
  after_name_modifier sub name m s = refl

  in_braces_name :
      (sub : Text → Outcome (Text × List Text)) (c : ℕ) (s : Text)
      → is_name_char c ≡ true
      → in_braces lex env sub (c ∷ s)
        ≡ after_name lex env sub (process_name (c ∷ s)).0 (process_name (c ∷ s)).1
  in_braces_name sub c s h =
      let (a, b, d) = name_char-not-brace c h in unfold in_braces in rw (a, b, d)

  -- `${name:…}` behind the `$`
  process_dollar-modifier :
      (f : ℕ) (name w rest : Text) (m : ℕ)
      → IsName name
      → All (IsInner lex.escape_token) w
      → length w < f
      → process_dollar lex env (closing lex env f) (b'{' ∷ (name ++ b':' ∷ m ∷ (w ++ b'}' ∷ rest)))
        ≡ apply_modifier lex env m name w (get_env env name) rest
  process_dollar-modifier f [] w rest m n h k = absurd n
  process_dollar-modifier f (c ∷ s) w rest m n h k =
      let tail = w ++ b'}' ∷ rest in
      let (ws, e) = closing-plain f w rest (begin lex env tail) h k in
      process_dollar_brace (closing lex env f) (c ∷ (s ++ b':' ∷ m ∷ tail))
      ∙ in_braces_name (closing lex env f) c (s ++ b':' ∷ m ∷ tail) n.1.0
      ∙ ap (λ p. after_name lex env (closing lex env f) p.0 p.1)
          (process_name-append (c ∷ s) (m ∷ tail) n)
      ∙ after_name_modifier (closing lex env f) (c ∷ s) m tail
      ∙ ap (modified lex env m (c ∷ s)) e

  -- What the whole lexer returns where its only word is a reference
  abbrev of_reference : Text → Outcome Text → Result Text
  of_reference source (ok v _) = value v
  of_reference source (err e _) = failure (failed_to_process source e)
  of_reference source out_of_fuel = unfinished

  abbrev ReadsAll : Outcome Text → Type 0
  ReadsAll (ok v rest) = rest ≡ []
  ReadsAll _ = Unit

  apply_modifier-ReadsAll :
      (m : ℕ) (name w : Text) (found : Option Text)
      → ReadsAll (apply_modifier lex env m name w found [])
  unfolding apply_modifier
  apply_modifier-ReadsAll m name w none = ground arith
  apply_modifier-ReadsAll m name w (some []) = ground arith
  apply_modifier-ReadsAll m name w (some (c ∷ v)) = ground arith

  add_value_last :
      (source : Text) (f : ℕ) (o : Outcome Text) (st : State)
      → st.result ≡ []
      → ReadsAll o
      → first (wrap source (after lex env (suc f) none (add_value st o))) ≡ of_reference source o
  add_value_last source f (ok v []) st e h = unfold stop_loop in rw e
  add_value_last source f (ok v (c ∷ rest)) st e h = cc
  add_value_last source f (err e _) st _ h = refl
  add_value_last source f out_of_fuel st e h = refl

  loop_reference :
      (source s : Text) (f : ℕ) (o : Outcome Text)
      → process_dollar lex env (closing lex env (suc f)) s ≡ o
      → ReadsAll o
      → first
          (wrap source (stop_loop lex env (suc (suc f)) none (b'$' ∷ s) (begin lex env (b'$' ∷ s))))
        ≡ of_reference source o
  loop_reference source s f o e h =
      let st = begin lex env (b'$' ∷ s) in
      let round : stop_round lex env (suc f) (closing lex env (suc f)) none b'$' s st
          ≡ add_value st o =
        unfold stop_round in ap (add_value st) e in
      ap (λ r. first (wrap source r))
        (stop_loop_step lex env (suc f) none b'$' s st ∙ ap (after lex env (suc f) none) round)
      ∙ add_value_last source f o st refl h

  process_word-modifier :
      (name w : Text) (m : ℕ)
      → IsName name
      → All (IsInner lex.escape_token) w
      → process_word_with_map lex (reference name m w) env
        ≡ of_reference (reference name m w) (apply_modifier lex env m name w (get_env env name) [])
  process_word-modifier name w m n h =
      let s = b'{' ∷ (name ++ b':' ∷ m ∷ (w ++ b'}' ∷ [])) in
      let f = length s in
      let fits : length w < suc f =
        omega
          (arith, length-append name (b':' ∷ m ∷ (w ++ b'}' ∷ [])), length-append w (b'}' ∷ [])) in
      unfold process_word_with_map in
      ap first (process_loop lex (b'$' ∷ s) env (suc (suc f)) (omega arith))
      ∙ loop_reference (b'$' ∷ s) s f (apply_modifier lex env m name w (get_env env name) [])
          (process_dollar-modifier (suc f) name w [] m n h fits)
          (apply_modifier-ReadsAll m name w (get_env env name))

abbrev pub value_or_empty : Option Text → Text
value_or_empty none = []
value_or_empty (some v) = v

-- The message of `${name:?word}`
abbrev pub message : Text → Option Text → Text
message w none = or_default w unset_message
message w (some _) = or_default w empty_message

module _ (lex : Lex) (env : Env) (no_skip : lex.skip_unset_env ≡ false) where
  modifier_minus :
      (source name w : Text) (found : Option Text)
      → of_reference lex env source (apply_modifier lex env b'-' name w found [])
        ≡ value (or_default (value_or_empty found) w)
  unfolding apply_modifier
  modifier_minus source name w none = rw no_skip
  modifier_minus source name w (some []) = refl
  modifier_minus source name w (some (c ∷ v)) = refl

  modifier_plus :
      (source name w : Text) (found : Option Text)
      → of_reference lex env source (apply_modifier lex env b'+' name w found [])
        ≡ value (if is_empty (value_or_empty found) then [] else w)
  unfolding apply_modifier
  modifier_plus source name w none = rw no_skip
  modifier_plus source name w (some []) = refl
  modifier_plus source name w (some (c ∷ v)) = refl

  modifier_question :
      (source name w : Text) (found : Option Text)
      → of_reference lex env source (apply_modifier lex env b'?' name w found []) ≡ (
          if is_empty (value_or_empty found)
          then failure (failed_to_process source (not_set name (message w found)))
          else value (value_or_empty found))
  unfolding apply_modifier
  modifier_question source name w none = rw no_skip
  modifier_question source name w (some []) = refl
  modifier_question source name w (some (c ∷ v)) = refl

-- `${name:-w}`, `${name:+w}` and `${name:?w}` mean what they mean in a shell, an unset variable
-- counting as empty: the value, or `w` where it is empty; nothing where the value is empty, or
-- `w`; the value, or an error with the message `w` where it is empty (with a default message, if
-- `w` is empty, that tells unset from empty). This is for a lexer that does not leave references
-- to unset variables alone, a name of letters, digits and underscores with no digit in front, and
-- a `w` with no quote, `$`, escape token or `}` in it.
pub process_word_with_map-modifiers :
    (lex : Lex) (env : Env) (name w : Text)
    → lex.skip_unset_env ≡ false
    → IsName name
    → All (IsInner lex.escape_token) w
    → (process_word_with_map lex (reference name b'-' w) env
        ≡ value (or_default (value_or_empty (get_env env name)) w))
      × (process_word_with_map lex (reference name b'+' w) env
          ≡ value (if is_empty (value_or_empty (get_env env name)) then [] else w))
      × (process_word_with_map lex (reference name b'?' w) env ≡ (
          if is_empty (value_or_empty (get_env env name))
          then failure (
              failed_to_process
                (reference name b'?' w)
                (not_set name (message w (get_env env name))))
          else value (value_or_empty (get_env env name))))
process_word_with_map-modifiers lex env name w skip n h = (
  process_word-modifier lex env name w b'-' n h ∙ modifier_minus lex env skip _ name w _,
  process_word-modifier lex env name w b'+' n h ∙ modifier_plus lex env skip _ name w _,
  process_word-modifier lex env name w b'?' n h ∙ modifier_question lex env skip _ name w _,
)
