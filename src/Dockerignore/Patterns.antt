-- ===== src/Dockerignore/Patterns.antt =====
-- What the patterns of a .dockerignore file look like.
use mathlib.Core.List.{reverse, reverse-append}
use dockerfile.Base.{
  ℕ, List, [], ◌∷◌, ◌++◌, Bool, true, false, ◌==◌, Option, none, some, ◌≡◌, refl, ap, sym, ◌∙◌, ◌⊎◌,
  ◌≢◌, inl, inr, All, arith, append-nil, if◌then◌else◌, subst,
}
use dockerfile.Base.Text.{Text, codes, join, text_eq, trim_space, contains, has_prefix}
use dockerfile.Paths.{clean, is_abs, render, dot}
use dockerfile.Paths.Clean.{IsClean, IsElement, clean_elements-IsClean}
use dockerfile.Dockerignore.{
  normalize, without_slash, pattern_of, of_trimmed, exclude, read_lines, read_all, excludes,
  trim_first,
}

-- A path relative to the context: one element or more, which are not empty, have no slash and are not `.`,
-- with `..` in front only; or `.` or `/` alone.
pub data IsRelative : Text → Type 0 where
  alone : {p : Text} → (p ≡ dot) ⊎ (p ≡ codes "/") → IsRelative p
  elements :
      {p : Text} (rooted : Bool) (es : List Text)
      → es ≢ []
      → IsClean rooted es
      → p ≡ join (reverse es) (codes "/")
      → IsRelative p

pub data IsPattern : Text → Type 0 where
  plain : {p : Text} → IsRelative p → IsPattern p
  -- An exception to the patterns before; the path may be missing.
  except : {p q : Text} → p ≡ b'!' ∷ q → (q ≡ []) ⊎ IsRelative q → IsPattern p

IsClean-All : (rooted : Bool) (es : List Text) → IsClean rooted es → All IsElement es
IsClean-All rooted [] h = tt
IsClean-All rooted (e ∷ es) h = (h.0, IsClean-All rooted es h.1)

All-append : (xs ys : List Text) → All IsElement xs → All IsElement ys → All IsElement (xs ++ ys)
All-append [] ys h k = k
All-append (x ∷ xs) ys h k = (h.0, All-append xs ys h.1 k)

All-reverse : (es : List Text) → All IsElement es → All IsElement (reverse es)
All-reverse [] h = tt
All-reverse (e ∷ es) h =
    subst (All IsElement) (sym (reverse-append (e ∷ []) es))
      (All-append (reverse es) (e ∷ []) (All-reverse es h.1) (h.0, tt))

-- Such a path is not changed by the step that takes away a slash in front.
keeps_front : (e rest : Text) → IsElement e → without_slash (e ++ rest) ≡ e ++ rest
unfolding contains text_eq
keeps_front [] rest h = cc (h.not_empty)
keeps_front (c ∷ []) [] h = refl
keeps_front (c ∷ []) (d ∷ rest) h = ground (arith, h.no_slash)
keeps_front (c ∷ d ∷ e) rest h = ground (arith, h.no_slash)

keeps_join :
    (e : Text) (es : List Text)
    → IsElement e
    → without_slash (join (e ∷ es) (codes "/")) ≡ join (e ∷ es) (codes "/")
unfolding join
keeps_join e [] h = ap without_slash (sym (append-nil e)) ∙ keeps_front e [] h ∙ append-nil e
keeps_join e (f ∷ es) h = keeps_front e (codes "/" ++ join (f ∷ es) (codes "/")) h

no_text : (d : ℕ) (t : Text) → ¬ (join (reverse {A = Text} []) (codes "/") ≡ d ∷ t)
unfolding join
no_text d t e = cc

no_element : (f : Text) (fs : List Text) → ¬ (reverse [] ≡ f ∷ fs)
no_element f fs e = cc

rendered-IsRelative :
    (rooted : Bool) (es : List Text)
    → IsClean rooted es
    → IsRelative (without_slash (render rooted (reverse es)))
rendered-IsRelative true es h = by_join (join (reverse es) (codes "/")) refl
  where
    by_join : (t : Text) → join (reverse es) (codes "/") ≡ t → IsRelative (without_slash (b'/' ∷ t))
    by_join [] e = alone (inr refl)
    by_join (d ∷ t) e =
        elements true es
          (λ none_left. no_text d t (subst (λ l. join (reverse l) (codes "/") ≡ d ∷ t) none_left e))
          h (sym e)
rendered-IsRelative false es h =
    by_elements (reverse es) refl (All-reverse es (IsClean-All false es h))
  where
    by_elements :
        (fs : List Text)
        → reverse es ≡ fs
        → All IsElement fs
        → IsRelative (without_slash (render false fs))
    by_elements [] e all = alone (inl refl)
    by_elements (f ∷ fs) e all =
        elements false es
          (λ none_left. no_element f fs (subst (λ l. reverse l ≡ f ∷ fs) none_left e)) h
          (keeps_join f fs all.0 ∙ ap (λ l. join l (codes "/")) (sym e))

normalize-IsRelative : (c : ℕ) (s : Text) → IsRelative (normalize (c ∷ s))
unfolding normalize clean
normalize-IsRelative c s =
    let (es, e, h) = clean_elements-IsClean (c ∷ s) in
    subst (λ fs. IsRelative (without_slash (render (is_abs (c ∷ s)) fs))) (sym e)
      (rendered-IsRelative (is_abs (c ∷ s)) es h)

normalized : (s : Text) → (normalize s ≡ []) ⊎ IsRelative (normalize s)
normalized [] = unfold normalize in inl refl
normalized (c ∷ s) = inr (normalize-IsRelative c s)

abbrev pub AreSome {ℓ κ} : {A : Type ℓ} → (A → Type κ) → Option A → Type κ
AreSome P none = Unit
AreSome P (some a) = P a

of_trimmed-IsPattern : (s : Text) → AreSome IsPattern (of_trimmed s)
of_trimmed-IsPattern [] = tt
of_trimmed-IsPattern (c ∷ s) = by_mark (c == b'!')
  where
    by_mark :
        (b : Bool)
        → AreSome IsPattern
            (if b then some (b'!' ∷ normalize (trim_space s)) else some (normalize (c ∷ s)))
    by_mark true = except refl (normalized (trim_space s))
    by_mark false = plain (normalize-IsRelative c s)

pattern_of-IsPattern : (line : Text) → AreSome IsPattern (pattern_of line)
unfolding pattern_of
pattern_of-IsPattern line = by_comment (has_prefix line (codes "#"))
  where
    by_comment : (b : Bool) → AreSome IsPattern (if b then none else of_trimmed (trim_space line))
    by_comment true = tt
    by_comment false = of_trimmed-IsPattern (trim_space line)

read_lines-ArePatterns : (lines : List Text) → All IsPattern (read_lines lines)
unfolding read_lines
read_lines-ArePatterns [] = tt
read_lines-ArePatterns (line ∷ lines) =
    by_line (read_lines-ArePatterns lines) (pattern_of line) (pattern_of-IsPattern line)
  where
    by_line :
        All IsPattern (read_lines lines)
        → (o : Option Text) → AreSome IsPattern o
        → All IsPattern (exclude o (read_lines lines))
    by_line rest none h = rest
    by_line rest (some p) h = (h, rest)

-- Where the scanner meets no error, every pattern that is read is a path relative to the context in its
-- shortest form, or an exception `!` with such a path or nothing behind it.
pub read_all-ArePatterns :
    (lines : List Text)
    → (ps : List Text) × (read_all (some lines) none ≡ excludes ps) × All IsPattern ps
unfolding read_all
read_all-ArePatterns lines =
    (read_lines (trim_first lines), refl, read_lines-ArePatterns (trim_first lines))
