-- ===== src/Parser/ParseWords/Spec.antt =====
-- The words that `parseWords` finds, described without its loop.
use dockerfile.Base.{
  ◌⊎◌, inl, inr, ℕ, List, [], ◌∷◌, ◌++◌, Bool, true, false, ◌≡◌, ◌≢◌, refl, sym, ap, ◌∙◌, arith,
  snoc, append-nil, append_assoc,
}
use dockerfile.Base.Text.{Text, is_space, AllOf}
use dockerfile.SplitCommand.{Phase, in_spaces, in_word, in_quote, Scan}
use dockerfile.Parser.ParseWords.{Move, advance, advance_two, step, scan, finish, parse_words}

-- `Inside t q body`: `body` stands between two quotes `q`, the escape token `t` in front of a
-- character hides it, but not between single quotes.
pub data Inside (t q : ℕ) : Text → Type 0 where
  end : Inside t q []
  keep : {body : Text} (c : ℕ) → c ≢ q → (c ≢ t) → Inside t q body → Inside t q (c ∷ body)
  hide : {body : Text} (c : ℕ) → q ≢ b'\'' → Inside t q body → Inside t q (t ∷ c ∷ body)
  token : {body : Text} → q ≡ b'\'' → Inside t q body → Inside t q (t ∷ body)

abbrev pub IsQuote : ℕ → Type 0
IsQuote q = (q ≡ b'\'') ⊎ (q ≡ b'"')

abbrev pub IsPlain : ℕ → ℕ → Type 0
IsPlain t c = (is_space c ≡ false) × (c ≢ b'\'') × (c ≢ b'"') × (c ≢ t)

-- `IsWord t word`: one word, with its quotes and escapes as they stand.
pub data IsWord (t : ℕ) : Text → Type 0 where
  end : IsWord t []
  plain : {word : Text} (c : ℕ) → IsPlain t c → IsWord t word → IsWord t (c ∷ word)
  escape : {word : Text} (c : ℕ) → IsWord t word → IsWord t (t ∷ c ∷ word)
  quoted :
      {body word : Text} (q : ℕ)
      → IsQuote q
      → Inside t q body
      → IsWord t word
      → IsWord t (q ∷ (body ++ q ∷ word))

-- `Spaced t text words`: the text holds these words, with spaces before, between and behind them.
pub data Spaced (t : ℕ) : Text → List Text → Type 0 where
  blank : (gap : Text) → AllOf is_space gap → Spaced t gap []
  last :
      (gap word : Text)
      → AllOf is_space gap
      → IsWord t word
      → word ≢ []
      → Spaced t (gap ++ word) (word ∷ [])
  more :
      {rest : Text} {words : List Text} (gap word : Text) (c : ℕ)
      → AllOf is_space gap
      → IsWord t word
      → word ≢ []
      → is_space c ≡ true
      → Spaced t rest words
      → Spaced t (gap ++ (word ++ c ∷ rest)) (word ∷ words)

-- An escape token is neither a quote nor a space.
abbrev pub IsToken : ℕ → Type 0
IsToken t = (t ≢ b'\'') × (t ≢ b'"') × (is_space t ≡ false)

module _ (t : ℕ) where
  abbrev behind : Move → Text → List Text
  behind (advance s) rest = scan t rest s
  behind (advance_two s) [] = scan t [] s
  behind (advance_two s) (_ ∷ rest) = scan t rest s

  scan-step :
      (c : ℕ) (rest : Text) (s : Scan) → scan t (c ∷ rest) s ≡ behind (step t s.phase s c rest) rest
  unfolding scan
  scan-step c [] s = ground arith
  scan-step c (d ∷ rest) s = ground arith

  abbrev at : Phase → ℕ → Bool → Text → List Text → Scan
  at p q b w ws = record { phase = p; quote = q; blank_ok = b; word = w; words = ws }

  module _ (token : IsToken t) where
    read_plain :
        (c : ℕ) (rest : Text) (q : ℕ) (b : Bool) (w : Text) (ws : List Text)
        → IsPlain t c
        → scan t (c ∷ rest) (at in_word q b w ws) ≡ scan t rest (at in_word q b (snoc w c) ws)
    read_plain c rest q b w ws h =
        scan-step c rest (at in_word q b w ws) ∙ unfold step in ground arith

    read_escape :
        (c : ℕ) (rest : Text) (q : ℕ) (b : Bool) (w : Text) (ws : List Text)
        → scan t (t ∷ c ∷ rest) (at in_word q b w ws)
          ≡ scan t rest (at in_word q b (snoc (snoc w t) c) ws)
    read_escape c rest q b w ws =
        scan-step t (c ∷ rest) (at in_word q b w ws) ∙ unfold step in ground arith

    open_quote :
        (q : ℕ) (rest : Text) (q' : ℕ) (b : Bool) (w : Text) (ws : List Text)
        → IsQuote q
        → scan t (q ∷ rest) (at in_word q' b w ws) ≡ scan t rest (at in_quote q true (snoc w q) ws)
    open_quote q rest q' b w ws h =
        scan-step q rest (at in_word q' b w ws) ∙ unfold step is_space in ground arith

    close_quote :
        (q : ℕ) (rest : Text) (b : Bool) (w : Text) (ws : List Text)
        → IsQuote q
        → scan t (q ∷ rest) (at in_quote q b w ws) ≡ scan t rest (at in_word q b (snoc w q) ws)
    close_quote q rest b w ws h =
        scan-step q rest (at in_quote q b w ws) ∙ unfold step in ground arith

    -- A character between quotes that is not the quote, and that the escape token does not hide
    read_inside :
        (c q : ℕ) (rest : Text) (b : Bool) (w : Text) (ws : List Text)
        → c ≢ q
        → (c ≢ t) ⊎ (q ≡ b'\'')
        → scan t (c ∷ rest) (at in_quote q b w ws) ≡ scan t rest (at in_quote q b (snoc w c) ws)
    read_inside c q rest b w ws h k =
        scan-step c rest (at in_quote q b w ws) ∙ unfold step in ground arith

    read_hidden :
        (c q : ℕ) (rest : Text) (b : Bool) (w : Text) (ws : List Text)
        → q ≢ b'\''
        → q ≢ t
        → scan t (t ∷ c ∷ rest) (at in_quote q b w ws)
          ≡ scan t rest (at in_quote q b (snoc (snoc w t) c) ws)
    read_hidden c q rest b w ws h k =
        scan-step t (c ∷ rest) (at in_quote q b w ws) ∙ unfold step in ground arith

    quote-ne-token : (q : ℕ) → IsQuote q → q ≢ t
    quote-ne-token q h = ground arith

    scan-Inside :
        (q : ℕ) {body : Text} (rest : Text) (b : Bool) (w : Text) (ws : List Text)
        → IsQuote q
        → Inside t q body
        → scan t (body ++ q ∷ rest) (at in_quote q b w ws)
          ≡ scan t rest (at in_word q b (w ++ (body ++ q ∷ [])) ws)
    scan-Inside q rest b w ws h end = close_quote q rest b w ws h
    scan-Inside q rest b w ws h (keep {body} c ne nt k) =
        read_inside c q (body ++ q ∷ rest) b w ws ne (inl nt)
        ∙ scan-Inside q rest b (snoc w c) ws h k
        ∙ rw append_assoc
    scan-Inside q rest b w ws h (hide {body} c ne k) =
        read_hidden c q (body ++ q ∷ rest) b w ws ne (quote-ne-token q h)
        ∙ scan-Inside q rest b (snoc (snoc w t) c) ws h k
        ∙ simp append_assoc
    scan-Inside q rest b w ws h (Inside.token {body} e k) =
        read_inside t q (body ++ q ∷ rest) b w ws (λ p. quote-ne-token q h (sym p)) (inr e)
        ∙ scan-Inside q rest b (snoc w t) ws h k
        ∙ rw append_assoc

    -- The loop reads a word up to `rest` and is within a word there.
    record Reads (word rest : Text) (q : ℕ) (b : Bool) (w : Text) (ws : List Text) : Type 0 where
      quote : ℕ
      blank : Bool
      reads :
          scan t (word ++ rest) (at in_word q b w ws)
          ≡ scan t rest (at in_word quote blank (w ++ word) ws)

    scan-IsWord :
        {word : Text} (rest : Text) (q : ℕ) (b : Bool) (w : Text) (ws : List Text)
        → IsWord t word
        → Reads word rest q b w ws
    scan-IsWord rest q b w ws end = record { quote = q; blank = b; reads = rw append-nil }
    scan-IsWord rest q b w ws (plain {word} c h k) =
        let r = scan-IsWord rest q b (snoc w c) ws k in
        record {
          quote = r.quote;
          blank = r.blank;
          reads = read_plain c (word ++ rest) q b w ws h ∙ r.reads ∙ rw append_assoc;
        }
    scan-IsWord rest q b w ws (escape {word} c k) =
        let r = scan-IsWord rest q b (snoc (snoc w t) c) ws k in
        record {
          quote = r.quote;
          blank = r.blank;
          reads = read_escape c (word ++ rest) q b w ws ∙ r.reads ∙ simp append_assoc;
        }
    scan-IsWord rest q b w ws (quoted {body} {word} q' h k m) =
        let r = scan-IsWord rest q' true (snoc w q' ++ (body ++ q' ∷ [])) ws m in
        record {
          quote = r.quote;
          blank = r.blank;
          reads = rw (append_assoc body (q' ∷ word) rest) (
              open_quote q' (body ++ q' ∷ (word ++ rest)) q b w ws h
              ∙ scan-Inside q' (word ++ rest) true (snoc w q') ws h k
              ∙ r.reads
              ∙ simp append_assoc);
        }

    skip_space :
        (c : ℕ) (rest : Text) (q : ℕ) (ws : List Text)
        → is_space c ≡ true
        → scan t (c ∷ rest) (at in_spaces q false [] ws) ≡ scan t rest (at in_spaces q false [] ws)
    skip_space c rest q ws h =
        scan-step c rest (at in_spaces q false [] ws) ∙ unfold step in ground arith

    spaces-word :
        (c : ℕ) (rest : Text) (q : ℕ) (ws : List Text)
        → is_space c ≡ false
        → step t in_spaces (at in_spaces q false [] ws) c rest
          ≡ step t in_word (at in_word q false [] ws) c rest
    unfolding step
    spaces-word c rest q ws h = rw h

    enter_word :
        (c : ℕ) (rest : Text) (q : ℕ) (ws : List Text)
        → is_space c ≡ false
        → scan t (c ∷ rest) (at in_spaces q false [] ws)
          ≡ scan t (c ∷ rest) (at in_word q false [] ws)
    enter_word c rest q ws h =
        scan-step c rest (at in_spaces q false [] ws)
        ∙ (ap (λ m. behind m rest) (spaces-word c rest q ws h))
        ∙ sym (scan-step c rest (at in_word q false [] ws))

    quote-not-space : (q : ℕ) → IsQuote q → is_space q ≡ false
    quote-not-space q h = unfold is_space in ground arith

    -- The space behind a word, and the end of the text
    end_word :
        (c : ℕ) (rest : Text) (q : ℕ) (b : Bool) (w : Text) (ws : List Text)
        → is_space c ≡ true
        → w ≢ []
        → scan t (c ∷ rest) (at in_word q b w ws)
          ≡ scan t rest (at in_spaces q false [] (snoc ws w))
    end_word c rest q b w ws h ne =
        scan-step c rest (at in_word q b w ws) ∙ unfold step in ground arith

    end_text :
        (q : ℕ) (b : Bool) (w : Text) (ws : List Text)
        → w ≢ []
        → scan t [] (at in_word q b w ws) ≡ snoc ws w
    end_text q b w ws ne = unfold scan finish in ground arith

    skip_gap :
        (gap rest : Text) (q : ℕ) (ws : List Text)
        → AllOf is_space gap
        → scan t (gap ++ rest) (at in_spaces q false [] ws)
          ≡ scan t rest (at in_spaces q false [] ws)
    skip_gap [] rest q ws h = refl
    skip_gap (c ∷ gap) rest q ws h =
        skip_space c (gap ++ rest) q ws h.0 ∙ skip_gap gap rest q ws h.1

    begin_word :
        {word : Text} (rest : Text) (q : ℕ) (ws : List Text)
        → IsWord t word
        → word ≢ []
        → scan t (word ++ rest) (at in_spaces q false [] ws)
          ≡ scan t (word ++ rest) (at in_word q false [] ws)
    begin_word rest q ws end ne = absurd (ne refl)
    begin_word rest q ws (plain {word} c h k) ne = enter_word c (word ++ rest) q ws h.0
    begin_word rest q ws (escape {word} c k) ne = enter_word t (c ∷ (word ++ rest)) q ws token.2
    begin_word rest q ws (quoted {body} {word} q' h k m) ne =
        enter_word q' ((body ++ q' ∷ word) ++ rest) q ws (quote-not-space q' h)

    scan-Spaced :
        {s : Text} {words : List Text} (q : ℕ) (ws : List Text)
        → Spaced t s words
        → scan t s (at in_spaces q false [] ws) ≡ ws ++ words
    scan-Spaced q ws (blank gap g) =
        rw (← append-nil gap) (skip_gap gap [] q ws g ∙ unfold scan finish in rw append-nil)
    scan-Spaced q ws (last gap word g h ne) =
        let r = scan-IsWord [] q false [] ws h in
        skip_gap gap word q ws g
        ∙ ap (λ s. scan t s (at in_spaces q false [] ws)) (sym (append-nil word))
        ∙ begin_word [] q ws h ne
        ∙ r.reads
        ∙ end_text r.quote r.blank word ws ne
    scan-Spaced q ws (more {rest} {words} gap word c g h ne k m) =
        let r = scan-IsWord (c ∷ rest) q false [] ws h in
        skip_gap gap (word ++ c ∷ rest) q ws g
        ∙ begin_word (c ∷ rest) q ws h ne
        ∙ r.reads
        ∙ end_word c rest r.quote r.blank word ws k ne
        ∙ scan-Spaced r.quote (snoc ws word) m
        ∙ rw append_assoc

-- `parseWords` finds exactly the words of the text, with their quotes and escapes as they stand:
-- spaces end a word only outside quotes and where no escape token hides them. This is for an escape
-- token that is neither a quote nor a space, and for a text with every quote closed.
pub parse_words-Spaced :
    (t : ℕ) {s : Text} {words : List Text} → IsToken t → Spaced t s words → parse_words t s ≡ words
unfolding parse_words
parse_words-Spaced t h k = scan-Spaced t h 0 [] k
