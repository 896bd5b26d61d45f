-- ===== src/Paths/Clean.antt =====
-- The elements that `Clean` leaves.
use mathlib.Core.List.{reverse}
use dockerfile.Base.{
  ℕ, List, [], ◌∷◌, Bool, true, false, ◌==◌, ◌≡◌, refl, arith, All, Bool-cases, inl, inr,
}
use dockerfile.Base.Text.{Text, text_eq, contains}
use dockerfile.Paths.{split, add_char, push, push_all, go_up, dot, dots, clean_elements, is_abs}

-- An element of a path that is neither empty nor `.` and has no slash
pub record IsElement (e : Text) : Type 0 where
  pub not_empty : text_eq e [] ≡ false
  pub not_dot : text_eq e dot ≡ false
  pub no_slash : contains e b'/' ≡ false

abbrev pub Ups : List Text → Type 0
Ups = All (λ e. text_eq e dots ≡ true)

-- The elements, last one first: `..` stands only in front of all others, and nowhere in a rooted path.
abbrev pub IsClean : Bool → List Text → Type 0
IsClean rooted [] = Unit
IsClean rooted (e ∷ es) =
    IsElement e × IsClean rooted es × (text_eq e dots ≡ true → (rooted ≡ false) × Ups es)

dots-IsElement : IsElement dots
unfolding text_eq contains
dots-IsElement = record { not_empty = refl; not_dot = refl; no_slash = refl }

go_up-IsClean :
    (rooted : Bool) (es : List Text) → IsClean rooted es → IsClean rooted (go_up rooted es)
go_up-IsClean true [] h = tt
go_up-IsClean false [] h = (dots-IsElement, tt, λ _. (refl, tt))
go_up-IsClean rooted (e ∷ es) h = elim (Bool-cases (text_eq e dots)) [
  | inl up ↦ rw up (dots-IsElement, h, λ _. ((h.2 up).0, (up, (h.2 up).1)))
  | inr down ↦ rw down h.1
]

push-IsClean :
    (rooted : Bool) (es : List Text) (e : Text)
    → contains e b'/' ≡ false
    → IsClean rooted es
    → IsClean rooted (push rooted es e)
unfolding push
push-IsClean rooted es e plain h = elim (Bool-cases (text_eq e [])) [
  | inl empty ↦ rw (empty, push) h
  | inr full ↦ elim (Bool-cases (text_eq e dot)) [
    | inl here ↦ rw (full, here, push) h
    | inr other ↦ elim (Bool-cases (text_eq e dots)) [
      | inl up ↦ rw (full, other, up, push) (go_up-IsClean rooted es h)
      | inr down ↦
          rw (full, other, down, push)
            (record { not_empty = full; not_dot = other; no_slash = plain }, h, λ up. cc)
    ]
  ]
]

push_all-IsClean :
    (rooted : Bool) (es ps : List Text)
    → All (λ e. contains e b'/' ≡ false) ps
    → IsClean rooted es
    → IsClean rooted (push_all rooted es ps)
unfolding push_all
push_all-IsClean rooted es [] all h = h
push_all-IsClean rooted es (p ∷ ps) all h =
    push_all-IsClean rooted (push rooted es p) ps all.1 (push-IsClean rooted es p all.0 h)

add_char_no_slash :
    (c : ℕ) (ss : List Text)
    → c == b'/' ≡ false
    → All (λ e. contains e b'/' ≡ false) ss
    → All (λ e. contains e b'/' ≡ false) (add_char c ss)
unfolding contains
add_char_no_slash c [] h all = (ground arith, tt)
add_char_no_slash c (s ∷ ss) h all = (ground arith, all.1)

split_no_slash : (s : Text) → All (λ e. contains e b'/' ≡ false) (split s b'/')
unfolding split contains
split_no_slash [] = (refl, tt)
split_no_slash (d ∷ s) = elim (Bool-cases (d == b'/')) [
  | inl e ↦ rw (e, split) (refl, split_no_slash s)
  | inr e ↦ rw (e, split) (add_char_no_slash d (split s b'/') e (split_no_slash s))
]

-- The elements of a cleaned path, in their order
pub clean_elements-IsClean :
    (s : Text) → (es : List Text) × (clean_elements s ≡ reverse es) × IsClean (is_abs s) es
unfolding clean_elements
clean_elements-IsClean s = (
  push_all (is_abs s) [] (split s b'/'),
  refl,
  push_all-IsClean (is_abs s) [] (split s b'/') (split_no_slash s) tt,
)
