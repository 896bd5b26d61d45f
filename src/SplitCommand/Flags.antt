-- ===== src/SplitCommand/Flags.antt =====
-- `extractBuilderFlags` (parser/split_command.go) on flags that were escaped.
use dockerfile.Base.{
  ℕ, Bool, false, ◌&&◌, ◌||◌, List, [], ◌∷◌, ◌++◌, ◌≡◌, refl, ◌∙◌, map, ◌≢◌, ◌<◌, inl, inr, arith,
  ◌==◌, if◌then◌else◌, snoc, All, Bool-cases, append-nil, append_assoc,
}
use dockerfile.Base.Text.{Text, text_eq, is_space}
use dockerfile.SplitCommand.{
  finish, in_spaces, in_word, Scan, Move, stop, advance, advance_two, next_is_dash, step, scan,
  start, extract_builder_flags,
}

-- What `extractBuilderFlags` reads as something other than a part of the word.
abbrev is_special : ℕ → Bool
is_special c = is_space c || c == b'\'' || c == b'"' || c == b'\\'

abbrev escape : Text → Text
escape [] = []
escape (c ∷ s) = if is_special c then b'\\' ∷ c ∷ escape s else c ∷ escape s

-- A flag is `--` and a body that is not empty.
abbrev pub flag : Text → Text
flag body = b'-' ∷ b'-' ∷ body

-- The flags, each with a space behind it, and what follows them.
abbrev pub render : List Text → Text → Text
render [] rest = rest
render (body ∷ bodies) rest = b'-' ∷ b'-' ∷ (escape body ++ b' ' ∷ render bodies rest)

-- A body that is not empty, of ASCII characters. The code goes through the flags byte by byte.
abbrev pub IsBody : Text → Type 0
IsBody body = (body ≢ []) × All (λ c. c < 128) body

-- The text begins with neither a space nor a flag.
abbrev pub NoFlag : Text → Type 0
NoFlag [] = Unit
NoFlag (c ∷ s) = (is_space c ≡ false) × ((c == b'-' && next_is_dash s) ≡ false)

abbrev pub behind : Move → Text → Text × List Text
behind (stop rest words) line = (rest, words)
behind (advance s) line = scan line s
behind (advance_two s) [] = scan [] s
behind (advance_two s) (_ ∷ line) = scan line s

scan-step :
    (c : ℕ) (line : Text) (s : Scan) → scan (c ∷ line) s ≡ behind (step s.phase s c line) line
unfolding scan
scan-step c [] s = ground arith
scan-step c (d ∷ line) s = ground arith

scan_plain :
    (c : ℕ) (line : Text) (s : Scan)
    → s.phase ≡ in_word
    → is_special c ≡ false
    → scan (c ∷ line) s ≡ scan line (record s { word = snoc s.word c })
scan_plain c line s m h = scan-step c line s ∙ unfold step in ground arith

scan_escaped :
    (c : ℕ) (line : Text) (s : Scan)
    → s.phase ≡ in_word
    → scan (b'\\' ∷ c ∷ line) s ≡ scan line (record s { word = snoc s.word c })
scan_escaped c line s m = scan-step b'\\' (c ∷ line) s ∙ unfold step is_space in ground arith

scan-escape :
    (body line : Text) (s : Scan)
    → s.phase ≡ in_word
    → scan (escape body ++ line) s ≡ scan line (record s { word = s.word ++ body })
scan-escape [] line s m = rw append-nil
scan-escape (c ∷ body) line s m = elim (Bool-cases (is_special c)) [
  | inl t ↦ rw t (
      scan_escaped c (escape body ++ line) s m
      ∙ scan-escape body line (record s { word = snoc s.word c }) m
      ∙ rw append_assoc)
  | inr f ↦ rw f (
      scan_plain c (escape body ++ line) s m f
      ∙ scan-escape body line (record s { word = snoc s.word c }) m
      ∙ rw append_assoc)
]

abbrev at_spaces : List Text → Scan → Scan
at_spaces words s = record s { phase = in_spaces; words = words; word = []; blank_ok = false }

-- At the space behind a word that is neither empty nor `--`, the word is a flag.
scan_end :
    (line : Text) (s : Scan)
    → s.phase ≡ in_word
    → s.word ≢ []
    → text_eq s.word (b'-' ∷ b'-' ∷ []) ≡ false
    → scan (b' ' ∷ line) s ≡ scan line (at_spaces (snoc s.words s.word) s)
scan_end line s m ne h = scan-step b' ' line s ∙ unfold step is_space in ground arith

flag-ne-dashes : (body : Text) → body ≢ [] → text_eq (flag body) (b'-' ∷ b'-' ∷ []) ≡ false
unfolding text_eq
flag-ne-dashes [] h = absurd (h refl)
flag-ne-dashes (c ∷ body) h = refl

scan_dashes :
    (line : Text) (s : Scan)
    → s.phase ≡ in_spaces
    → s.word ≡ []
    → scan (b'-' ∷ b'-' ∷ line) s ≡ scan line (record s { phase = in_word; word = flag [] })
scan_dashes line s m e =
    let opened = record s { phase = in_word; word = b'-' ∷ [] } in
    let first : scan (b'-' ∷ b'-' ∷ line) s ≡ scan (b'-' ∷ line) opened =
      scan-step b'-' (b'-' ∷ line) s ∙ unfold step is_space in ground arith in
    first ∙ scan_plain b'-' line opened refl (unfold is_space in refl)

scan-flag :
    (body line : Text) (s : Scan)
    → s.phase ≡ in_spaces
    → s.word ≡ []
    → IsBody body
    → scan (b'-' ∷ b'-' ∷ (escape body ++ b' ' ∷ line)) s
      ≡ scan line (at_spaces (snoc s.words (flag body)) s)
scan-flag body line s m e ne =
    scan_dashes (escape body ++ b' ' ∷ line) s m e
    ∙ scan-escape body (b' ' ∷ line) (record s { phase = in_word; word = flag [] }) refl
    ∙ scan_end line (record s { phase = in_word; word = flag body }) refl (cc)
        (flag-ne-dashes body ne.0)

scan-NoFlag :
    (rest : Text) (s : Scan) → s.phase ≡ in_spaces → NoFlag rest → scan rest s ≡ (rest, s.words)
scan-NoFlag [] s m h = unfold scan finish in ground arith
scan-NoFlag (c ∷ rest) s m h = scan-step c rest s ∙ unfold step in ground arith

scan-render :
    (bodies : List Text) (rest : Text) (s : Scan)
    → s.phase ≡ in_spaces
    → s.word ≡ []
    → All IsBody bodies
    → NoFlag rest
    → scan (render bodies rest) s ≡ (rest, s.words ++ map flag bodies)
scan-render [] rest s m e h k = scan-NoFlag rest s m k ∙ rw append-nil
scan-render (body ∷ bodies) rest s m e h k =
    scan-flag body (render bodies rest) s m e h.0
    ∙ scan-render bodies rest (at_spaces (snoc s.words (flag body)) s) refl refl h.1 k
    ∙ rw append_assoc

-- `extractBuilderFlags` returns every flag as it was before it was escaped, whatever ASCII characters
-- it holds, and the rest of the line untouched, if each flag is `--` with a body that is not empty,
-- is followed by a space, and the rest begins with neither a space nor `--`.
pub extract_builder_flags-render :
    (bodies : List Text) (rest : Text)
    → All IsBody bodies
    → NoFlag rest
    → extract_builder_flags (render bodies rest) ≡ (rest, map flag bodies)
unfolding extract_builder_flags
extract_builder_flags-render bodies rest = scan-render bodies rest start refl refl
