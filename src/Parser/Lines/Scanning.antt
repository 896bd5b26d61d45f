-- ===== src/Parser/Lines/Scanning.antt =====
-- `scanLines` loses nothing, and ends a line at each newline and nowhere else.
use dockerfile.Base.{
  ℕ, List, [], ◌∷◌, ◌++◌, false, snoc, ◌≡◌, ◌∙◌, ◌≢◌, ◌⊎◌, inl, inr, refl, ap, arith, ◌==◌,
  Bool-cases, ==_iff,
}
use dockerfile.Base.Text.{Text, contains}
use dockerfile.Parser.Lines.{scan_lines, cons_line}

abbrev pub joined : List Text → Text
joined [] = []
joined (l ∷ ls) = l ++ joined ls

-- A line with the newline that ends it
abbrev pub IsEnded : Text → Type 0
IsEnded l = (body : Text) × (l ≡ snoc body b'\n') × (contains body b'\n' ≡ false)

-- Each line is ended by a newline, where the last one may be without it.
abbrev pub AreLines : List Text → Type 0
AreLines [] = Unit
AreLines (l ∷ []) = IsEnded l ⊎ ((l ≢ []) × (contains l b'\n' ≡ false))
AreLines (l ∷ m ∷ ls) = IsEnded l × AreLines (m ∷ ls)

cons-IsEnded : (c : ℕ) (l : Text) → (c == b'\n') ≡ false → IsEnded l → IsEnded (c ∷ l)
unfolding contains
cons-IsEnded c l n h = (c ∷ h.0, ap (λ t. c ∷ t) h.1, ground (arith, h.2))

cons_line-joined : (c : ℕ) (ls : List Text) → joined (cons_line c ls) ≡ c ∷ joined ls
cons_line-joined c [] = refl
cons_line-joined c (l ∷ ls) = refl

cons_line-AreLines :
    (c : ℕ) (ls : List Text) → (c == b'\n') ≡ false → AreLines ls → AreLines (cons_line c ls)
unfolding contains
cons_line-AreLines c [] n h = inr (ground arith, ground arith)
cons_line-AreLines c (l ∷ []) n (inl e) = inl (cons-IsEnded c l n e)
cons_line-AreLines c (l ∷ []) n (inr e) = inr (ground arith, ground (arith, e.1))
cons_line-AreLines c (l ∷ m ∷ ls) n h = (cons-IsEnded c l n h.0, h.1)

newline-AreLines : (ls : List Text) → AreLines ls → AreLines ((b'\n' ∷ []) ∷ ls)
unfolding contains
newline-AreLines [] h = inl ([], refl, refl)
newline-AreLines (l ∷ ls) h = (([], refl, refl), h)

-- The lines put together are the text, and each is ended by a newline and has no other newline in
-- it, where the last line may lack it, if it is not empty.
pub scan_lines-AreLines : (s : Text) → (joined (scan_lines s) ≡ s) × AreLines (scan_lines s)
unfolding scan_lines
scan_lines-AreLines [] = (refl, tt)
scan_lines-AreLines (c ∷ s) =
    let r = scan_lines-AreLines s in
    elim (Bool-cases (c == b'\n')) [
      | inl y ↦
          rw ((==_iff c b'\n').0 y) (ap (λ t. b'\n' ∷ t) r.0, newline-AreLines (scan_lines s) r.1)
      | inr n ↦ rw n (
        (cons_line-joined c (scan_lines s) ∙ ap (λ t. c ∷ t) r.0),
        cons_line-AreLines c (scan_lines s) n r.1,
      )
    ]
