-- ===== src/Shell/Expand.antt =====
-- What the lexer makes of quoted, escaped and plain text, and of references to variables.
use dockerfile.Base.{
  ℕ, zero, suc, ◌+◌, ◌<◌, true, false, List, [], ◌∷◌, ◌++◌, none, ◌≡◌, ◌≢◌, refl, arith, ap, ◌∙◌,
  append-nil, append_assoc, All, length, length-append, snoc,
}
use dockerfile.Base.Text.{Text, is_space}
use dockerfile.Shell.Env.{Env}
use dockerfile.Shell.Words.{Words, add_raw_char, add_char, add_raw_string, get_words}
use dockerfile.Shell.Lex.{Lex, Outcome, ok, single_quote_loop, process_single_quote, process_dollar}
use dockerfile.Shell.Unroll.{closing, after, stop_loop_step}
use dockerfile.Shell.Quote.{
  process_double_quote, quote_round, double_quote_loop, State, Step, go, stop_round, stop_loop,
  begin, process_stop_on, process, value, skip_mark, wrap,
}

-- A token that is none of the characters that the lexer handles before the escape token
abbrev pub IsToken : ℕ → Type 0
IsToken t = (t ≢ b'\'') × (t ≢ b'"') × (t ≢ b'$')

-- The lexer takes `c` as it is, outside of quotes.
abbrev pub IsPlain : ℕ → ℕ → Type 0
IsPlain t c = (c ≢ b'\'') × (c ≢ b'"') × (c ≢ b'$') × (c ≢ t)

abbrev pub IsDoubleQuoted : ℕ → ℕ → Type 0
IsDoubleQuoted t c = (c ≢ b'"') × (c ≢ b'$') × (c ≢ t)

-- `Spells t source text`: `source` is one shell word for `text`, made of plain characters, escaped
-- characters and quoted texts, with `t` for the escape token.
pub data Spells (t : ℕ) : Text → Text → Type 0 where
  end : Spells t [] []
  plain :
      {source text : Text} (c : ℕ)
      → IsPlain t c
      → is_space c ≡ false
      → Spells t source text
      → Spells t (c ∷ source) (c ∷ text)
  escape :
      {source text : Text} (c : ℕ) → Spells t source text → Spells t (t ∷ c ∷ source) (c ∷ text)
  single :
      {source text : Text} (q : Text)
      → All (λ c. c ≢ b'\'') q
      → Spells t source text
      → Spells t (b'\'' ∷ (q ++ b'\'' ∷ source)) (q ++ text)
  double :
      {source text : Text} (q : Text)
      → All (IsDoubleQuoted t) q
      → Spells t source text
      → Spells t (b'"' ∷ (q ++ b'"' ∷ source)) (q ++ text)

-- The words before, and the word that is being read if it is not empty
abbrev pub all_words : List Text → Text → List Text
all_words words [] = words
all_words words (c ∷ s) = snoc words (c ∷ s)

get_words_lem : (w : Words) → get_words w ≡ all_words w.words w.word
get_words_lem w = go_word w w.word refl
  where
    go_word : (w : Words) (s : Text) → w.word ≡ s → get_words w ≡ all_words w.words w.word
    go_word w [] e = unfold get_words in rw e
    go_word w (c ∷ s) e = unfold get_words in rw e

single_quote_loop-append :
    (q rest result : Text)
    → All (λ c. c ≢ b'\'') q
    → single_quote_loop false (q ++ b'\'' ∷ rest) result ≡ ok (result ++ q) rest
unfolding single_quote_loop
single_quote_loop-append [] rest result h = rw append-nil
single_quote_loop-append (c ∷ q) rest result h =
    ground
      (arith, single_quote_loop-append q rest (snoc result c) h.1, append_assoc result (c ∷ []) q)

module _ (lex : Lex) (env : Env) (token : IsToken lex.escape_token)
    (no_quotes : lex.raw_quotes ≡ false) (no_escapes : lex.raw_escapes ≡ false) where
  double_quote_loop-append :
      (dollar : Text → Outcome Text) (f : ℕ) (q rest result : Text)
      → All (IsDoubleQuoted lex.escape_token) q
      → length q < f
      → double_quote_loop lex dollar f (q ++ b'"' ∷ rest) result ≡ ok (result ++ q) rest
  unfolding double_quote_loop quote_round
  double_quote_loop-append dollar zero q rest result h k = absurd (omega arith)
  double_quote_loop-append dollar (suc f) [] rest result h k = rw (no_quotes, append-nil)
  double_quote_loop-append dollar (suc f) (c ∷ q) rest result h k = ground (
    arith,
    double_quote_loop-append dollar f q rest (snoc result c) h.1,
    append_assoc result (c ∷ []) q,
  )

  abbrev reads : State → Text → Outcome (Text × List Text)
  reads st text = ok (st.result ++ text, all_words st.words.words (st.words.word ++ text)) []

  -- behind a piece that spells `q`
  abbrev moved : State → Text → Text → State
  moved st source q = record {
    rest = source;
    result = st.result ++ q;
    words = record { word = st.words.word ++ q; words = st.words.words; in_word = true };
  }

  round : ℕ → ℕ → Text → State → Step
  unfolding stop_loop
  round f ch rest st = stop_round lex env f (closing lex env f) none ch rest st

  stop_loop_piece :
      (f ch : ℕ) (rest source q text : Text) (st : State)
      → round f ch rest st ≡ go (moved st source q)
      → stop_loop lex env f none source (moved st source q) ≡ reads (moved st source q) text
      → stop_loop lex env (suc f) none (ch ∷ rest) st ≡ reads st (q ++ text)
  unfolding round
  stop_loop_piece f ch rest source q text st e ih =
      stop_loop_step lex env f none ch rest st
      ∙ ap (after lex env f none) e
      ∙ ih
      ∙ simp append_assoc

  round_plain :
      (f c : ℕ) (source : Text) (st : State)
      → IsPlain lex.escape_token c
      → is_space c ≡ false
      → round f c source st ≡ go (moved st source (c ∷ []))
  unfolding round stop_round add_char add_raw_char
  round_plain f c source st p n = ground arith

  round_escape :
      (f c : ℕ) (source : Text) (st : State)
      → round f lex.escape_token (c ∷ source) st ≡ go (moved st source (c ∷ []))
  unfolding round stop_round add_raw_char
  round_escape f c source st = ground arith

  round_single :
      (f : ℕ) (q source : Text) (st : State)
      → All (λ c. c ≢ b'\'') q
      → round f b'\'' (q ++ b'\'' ∷ source) st ≡ go (moved st source q)
  unfolding round stop_round add_raw_string process_single_quote
  round_single f q source st h = rw (no_quotes, single_quote_loop-append q source [] h)

  round_double :
      (f : ℕ) (q source : Text) (st : State)
      → All (IsDoubleQuoted lex.escape_token) q
      → length q < f
      → round f b'"' (q ++ b'"' ∷ source) st ≡ go (moved st source q)
  unfolding round stop_round add_raw_string process_double_quote
  round_double f q source st h k =
      simp no_quotes (
        rw
          (double_quote_loop-append (process_dollar lex env (closing lex env f)) f q source [] h k))

  stop_loop-Spells :
      (f : ℕ) {source text : Text} (st : State)
      → Spells lex.escape_token source text
      → length source < f
      → stop_loop lex env f none source st ≡ reads st text
  stop_loop-Spells zero st w h = absurd (omega arith)
  stop_loop-Spells (suc f) st end h =
      unfold stop_loop in
      rw (append-nil {A = ℕ} st.result, append-nil st.words.word) (rw get_words_lem)
  stop_loop-Spells (suc f) st (plain {source} {text} c p n w) h =
      stop_loop_piece f c source source (c ∷ []) text st (round_plain f c source st p n)
        (stop_loop-Spells f (moved st source (c ∷ [])) w (omega arith))
  stop_loop-Spells (suc f) st (escape {source} {text} c w) h =
      stop_loop_piece f lex.escape_token (c ∷ source) source (c ∷ []) text st
        (round_escape f c source st) (stop_loop-Spells f (moved st source (c ∷ [])) w (omega arith))
  stop_loop-Spells (suc f) st (single {source} {text} q p w) h =
      stop_loop_piece f b'\'' (q ++ b'\'' ∷ source) source q text st (round_single f q source st p)
        (stop_loop-Spells f (moved st source q) w (omega (arith, length-append q (b'\'' ∷ source))))
  stop_loop-Spells (suc f) st (double {source} {text} q p w) h =
      stop_loop_piece f b'"' (q ++ b'"' ∷ source) source q text st
        (round_double f q source st p (omega (arith, length-append q (b'"' ∷ source))))
        (stop_loop-Spells f (moved st source q) w (omega (arith, length-append q (b'"' ∷ source))))

  process_stop_on-Spells :
      {source text : Text}
      → Spells lex.escape_token source text
      → process_stop_on lex env (length source + 1) none source ≡ ok (text, all_words [] text) []
  unfolding process_stop_on
  process_stop_on-Spells {source} w =
      stop_loop-Spells (length source + 1) (begin lex env source) w (omega arith)

abbrev HasNoMark : Text → Type 0
HasNoMark [] = Unit
HasNoMark (c ∷ s) = c ≢ 0xfeff

skip_mark_lem : (s : Text) → HasNoMark s → skip_mark s ≡ s
skip_mark_lem [] h = refl
skip_mark_lem (c ∷ s) h = ground arith

-- A shell word made of plain characters, escaped characters and quoted texts stands for the text
-- that it spells, whatever the environment: `process` removes the quotes and the escape tokens and
-- nothing else, and returns the text as the only word (none, if it is empty). This is for an escape
-- token that is no quote and no `$`, with neither raw quotes nor raw escapes, and a source that does
-- not begin with a byte-order mark.
pub process-Spells :
    (lex : Lex) (env : Env) {source text : Text}
    → IsToken lex.escape_token
    → lex.raw_quotes ≡ false
    → lex.raw_escapes ≡ false
    → Spells lex.escape_token source text
    → HasNoMark source
    → process lex source env ≡ value (text, all_words [] text)
process-Spells lex env {source} t q e w m =
    unfold process in
    rw (skip_mark_lem source m) (ap (wrap source) (process_stop_on-Spells lex env t q e w))
