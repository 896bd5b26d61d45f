-- ===== src/Base/Text.antt =====
-- Go's strings as lists of code points, and what the program uses of `strings`, `bytes` and
-- `unicode`. Letter case is changed for the ASCII letters only.
use Prim.Native.Char.{code}
use Prim.Native.String.{String}
use Prim.Native.Nat.{ℕ, ◌+◌, ◌-◌}
use mathlib.Core.Path.{◌≡◌, refl, sym, ap, ◌∙◌}
use mathlib.Core.Logic.{◌↔◌, inl, inr}
use mathlib.Core.Bool.{Bool, true, false, ◌&&◌, ◌||◌}
use mathlib.Core.Option.{Option, none, some}
use mathlib.Core.List.{List, [], ◌∷◌, ◌++◌, map}
use native.Mathlib.Omega.{arith}
use dockerfile.Base.Lists.{leb, ◌==◌, if◌then◌else◌, snoc, All, Bool-cases}

abbrev pub Text : Type 0
Text = List ℕ

abbrev pub codes : String → Text
codes String.[] = []
codes (String.◌∷◌ c s) = code c ∷ codes s

-- `a == b` on strings, `bytes.Equal`
unfoldable pub text_eq : Text → Text → Bool
text_eq [] [] = true
text_eq (x ∷ xs) (y ∷ ys) = x == y && text_eq xs ys
text_eq _ _ = false

pub text_eq_iff : (a b : Text) → (text_eq a b ≡ true) ↔ (a ≡ b)
unfolding text_eq
text_eq_iff (x ∷ a) (y ∷ b) = ground (arith, text_eq_iff a b)
text_eq_iff _ _ = ground arith

pub text_eq_refl : (a : Text) → text_eq a a ≡ true
text_eq_refl a = (text_eq_iff a a).1 refl

-- `unicode.IsSpace`
unfoldable pub is_space : ℕ → Bool
is_space c =
    (leb 9 c && leb c 13)
    || c == b' '
    || c == 0x85
    || c == 0xa0
    || c == 0x1680
    || (leb 0x2000 c && leb c 0x200a)
    || c == 0x2028
    || c == 0x2029
    || c == 0x202f
    || c == 0x205f
    || c == 0x3000

abbrev pub lower_code : ℕ → ℕ
lower_code c = if leb b'A' c && leb c b'Z' then c + 32 else c

abbrev pub upper_code : ℕ → ℕ
upper_code c = if leb b'a' c && leb c b'z' then c - 32 else c

-- `strings.ToLower`, `strings.ToUpper`
unfoldable pub to_lower : Text → Text
to_lower = map lower_code

unfoldable pub to_upper : Text → Text
to_upper = map upper_code

-- `strings.EqualFold`
unfoldable pub equal_fold : Text → Text → Bool
unfolding text_eq to_lower
equal_fold a b = text_eq (to_lower a) (to_lower b)

-- `strings.HasPrefix`
unfoldable pub has_prefix : Text → Text → Bool
has_prefix s [] = true
has_prefix [] (p ∷ ps) = false
has_prefix (c ∷ s) (p ∷ ps) = c == p && has_prefix s ps

-- `s[len(p):]`
drop_length : Text → Text → Text
drop_length s [] = s
drop_length [] (p ∷ ps) = []
drop_length (c ∷ s) (p ∷ ps) = drop_length s ps

-- `strings.TrimPrefix`
unfoldable pub trim_prefix : Text → Text → Text
unfolding drop_length has_prefix
trim_prefix s p = if has_prefix s p then drop_length s p else s

-- `strings.TrimLeftFunc`
unfoldable pub trim_left : (ℕ → Bool) → Text → Text
trim_left p [] = []
trim_left p (c ∷ s) = if p c then trim_left p s else c ∷ s

abbrev pub keep_before : (ℕ → Bool) → ℕ → Text → Text
keep_before p c [] = if p c then [] else c ∷ []
keep_before p c (d ∷ t) = c ∷ d ∷ t

-- `strings.TrimRightFunc`: `c` is kept where something behind it is.
unfoldable pub trim_right : (ℕ → Bool) → Text → Text
trim_right p [] = []
trim_right p (c ∷ s) = keep_before p c (trim_right p s)

-- `strings.TrimSpace`
unfoldable pub trim_space : Text → Text
unfolding trim_left trim_right is_space
trim_space s = trim_right is_space (trim_left is_space s)

-- `strings.Contains(s, string(c))`
unfoldable pub contains : Text → ℕ → Bool
contains [] c = false
contains (d ∷ s) c = d == c || contains s c

-- `strings.Count(s, string(c))`
unfoldable pub count : Text → ℕ → ℕ
count [] c = 0
count (d ∷ s) c = (if d == c then 1 else 0) + count s c

-- `strings.SplitN(s, string(c), 2)`, or the slices on both sides of `strings.Index`: `none` for
-- the second part where `c` is not there.
unfoldable pub cut : Text → ℕ → Text × Option Text
cut [] c = ([], none)
cut (d ∷ s) c =
    let (before, after) = cut s c in if d == c then ([], some s) else (d ∷ before, after)

-- `strings.Join`
unfoldable pub join : List Text → Text → Text
join [] sep = []
join (s ∷ []) sep = s
join (s ∷ t ∷ ts) sep = s ++ (sep ++ join (t ∷ ts) sep)

abbrev pub AllOf : (ℕ → Bool) → Text → Type 0
AllOf p = All (λ c. p c ≡ true)

-- The text does not begin with a code point that `p` accepts.
abbrev pub HeadNot : (ℕ → Bool) → Text → Type 0
HeadNot p [] = Unit
HeadNot p (c ∷ s) = p c ≡ false

pub trim_left-append :
    (p : ℕ → Bool) (xs ys : Text) → AllOf p xs → trim_left p (xs ++ ys) ≡ trim_left p ys
unfolding trim_left
trim_left-append p [] ys h = refl
trim_left-append p (x ∷ xs) ys h = ground (arith, trim_left-append p xs ys)

pub trim_left-HeadNot : (p : ℕ → Bool) (s : Text) → HeadNot p s → trim_left p s ≡ s
unfolding trim_left
trim_left-HeadNot p [] h = refl
trim_left-HeadNot p (c ∷ s) h = ground arith

trim_right-all : (p : ℕ → Bool) (s : Text) → AllOf p s → trim_right p s ≡ []
unfolding trim_right
trim_right-all p [] h = refl
trim_right-all p (c ∷ s) h = ground (arith, trim_right-all p s)

keep_before_step :
    (p : ℕ → Bool) (x : ℕ) (s : Text) → trim_right p (x ∷ s) ≡ keep_before p x (trim_right p s)
unfolding trim_right
keep_before_step p x s = refl

pub trim_right-append :
    (p : ℕ → Bool) (xs ys : Text) → AllOf p ys → trim_right p (xs ++ ys) ≡ trim_right p xs
trim_right-append p [] ys h = trim_right-all p ys h ∙ sym (trim_right-all p [] tt)
trim_right-append p (x ∷ xs) ys h =
    keep_before_step p x (xs ++ ys)
    ∙ ap (keep_before p x) (trim_right-append p xs ys h)
    ∙ sym (keep_before_step p x xs)

keep_before-snoc :
    (p : ℕ → Bool) (x : ℕ) (s : Text) (c : ℕ) → keep_before p x (snoc s c) ≡ x ∷ snoc s c
keep_before-snoc p x [] c = refl
keep_before-snoc p x (d ∷ s) c = refl

-- The last code point of a text that ends in one that `p` rejects is kept, and so is all before it.
pub trim_right-snoc :
    (p : ℕ → Bool) (s : Text) (c : ℕ) → p c ≡ false → trim_right p (snoc s c) ≡ snoc s c
unfolding trim_right
trim_right-snoc p [] c h = ground arith
trim_right-snoc p (d ∷ s) c h = rw (trim_right-snoc p s c h) (keep_before-snoc p d s c)

trim_left-all : (p : ℕ → Bool) (s : Text) → AllOf p s → trim_left p s ≡ []
unfolding trim_left
trim_left-all p [] h = refl
trim_left-all p (c ∷ s) h = ground (arith, trim_left-all p s)

trim_right-trim_left :
    (p : ℕ → Bool) (s post : Text)
    → AllOf p post
    → trim_right p (trim_left p (s ++ post)) ≡ trim_right p (trim_left p s)
unfolding trim_left
trim_right-trim_left p [] post h = ap (trim_right p) (trim_left-all p post h)
trim_right-trim_left p (c ∷ s) post h = elim (Bool-cases (p c)) [
  | inl t ↦ rw (trim_left, t) (trim_right-trim_left p s post h)
  | inr f ↦ rw (trim_left, f) (trim_right-append p (c ∷ s) post h)
]

-- Spaces on both sides do not change what is left after `strings.TrimSpace`.
pub trim_space-around :
    (pre s post : Text)
    → AllOf is_space pre
    → AllOf is_space post
    → trim_space (pre ++ (s ++ post)) ≡ trim_space s
unfolding trim_space
trim_space-around pre s post h k =
    ap (trim_right is_space) (trim_left-append is_space pre (s ++ post) h)
    ∙ trim_right-trim_left is_space s post k

-- A text with no space at either end is left as it is.
pub trim_space-fixed :
    (s : Text) (c : ℕ)
    → HeadNot is_space (snoc s c)
    → is_space c ≡ false
    → trim_space (snoc s c) ≡ snoc s c
unfolding trim_space
trim_space-fixed s c h k =
    ap (trim_right is_space) (trim_left-HeadNot is_space (snoc s c) h)
    ∙ trim_right-snoc is_space s c k
