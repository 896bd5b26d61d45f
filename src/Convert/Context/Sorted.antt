-- ===== src/Convert/Context/Sorted.antt =====
-- What `normalizeContextPaths` returns
use dockerfile.Base.{
  List, [], ◌∷◌, true, false, Option, none, some, map, All, ◌≡◌, ◌≢◌, refl, ap, subst, Bool-cases,
  inl, inr, arith,
}
use dockerfile.Base.Text.{Text, codes, text_eq, text_eq_iff}
use dockerfile.Convert.Context.{
  text_lt, insert_text, sort, relative, relative_paths, normalize_context_paths, sorted,
}
use mathlib.Core.List.{Mem, Perm, mem-cons_self, mem-cons_of_mem}
use mathlib.Core.List.Perm

-- No text is before one that stands in front of it.
abbrev pub IsAscending : List Text → Type 0
IsAscending [] = Unit
IsAscending (x ∷ []) = Unit
IsAscending (x ∷ y ∷ ys) = (text_lt y x ≡ false) × IsAscending (y ∷ ys)

pub text_lt-asym : (a b : Text) → text_lt a b ≡ true → text_lt b a ≡ false
unfolding text_lt
text_lt-asym a [] h = cc
text_lt-asym [] (y ∷ b) h = refl
text_lt-asym (x ∷ a) (y ∷ b) h = ground (arith, text_lt-asym a b)

insert_text-below :
    (y x : Text) (zs : List Text)
    → text_lt y x ≡ true
    → IsAscending (y ∷ zs)
    → IsAscending (y ∷ insert_text x zs)
unfolding insert_text
insert_text-below y x [] e h = (text_lt-asym y x e, tt)
insert_text-below y x (z ∷ zs) e h = elim (Bool-cases (text_lt z x)) [
  | inl lt ↦ rw (lt, insert_text) (h.0, insert_text-below z x zs lt h.1)
  | inr ge ↦ rw (ge, insert_text) (text_lt-asym y x e, (ge, h.1))
]

insert_text-IsAscending :
    (x : Text) (ys : List Text) → IsAscending ys → IsAscending (insert_text x ys)
unfolding insert_text
insert_text-IsAscending x [] h = tt
insert_text-IsAscending x (y ∷ ys) h = elim (Bool-cases (text_lt y x)) [
  | inl lt ↦ rw (lt, insert_text) (insert_text-below y x ys lt h)
  | inr ge ↦ rw (ge, insert_text) (ge, h)
]

insert_text-perm : (x : Text) (ys : List Text) → Perm (insert_text x ys) (x ∷ ys)
unfolding insert_text
insert_text-perm x [] = Perm.rfl
insert_text-perm x (y ∷ ys) = elim (Bool-cases (text_lt y x)) [
  | inl e ↦
      rw (e, insert_text) (Perm.trans (Perm.cons y (insert_text-perm x ys)) (Perm.swap x y ys))
  | inr e ↦ rw (e, insert_text) Perm.rfl
]

sort-IsAscending : (xs : List Text) → IsAscending (sort xs)
unfolding sort
sort-IsAscending [] = tt
sort-IsAscending (x ∷ xs) = insert_text-IsAscending x (sort xs) (sort-IsAscending xs)

sort-perm : (xs : List Text) → Perm (sort xs) xs
unfolding sort
sort-perm [] = Perm.rfl
sort-perm (x ∷ xs) = Perm.trans (insert_text-perm x (sort xs)) (Perm.cons x (sort-perm xs))

-- How the paths come out: all of the context where the root is among them, and otherwise these paths
-- relative to the root, sorted
pub data Normalized (paths : List Text) : Option (List Text) → Type 0 where
  whole : Mem (codes "/") paths → Normalized paths none
  chosen :
      (ps : List Text)
      → All (λ p. p ≢ codes "/") paths
      → Perm ps (map relative paths)
      → IsAscending ps
      → Normalized paths (some ps)

abbrev Relative : List Text → Option (List Text) → Type 0
Relative paths none = Mem (codes "/") paths
Relative paths (some ps) = All (λ p. p ≢ codes "/") paths × (ps ≡ map relative paths)

Relative-cons :
    (p : Text) (ps : List Text) (r : Option (List Text))
    → p ≢ codes "/"
    → Relative ps r
    → Relative (p ∷ ps) (elim r [ none ↦ none | some rest ↦ some (relative p ∷ rest) ])
Relative-cons p ps none ne m = mem-cons_of_mem p m
Relative-cons p ps (some rest) ne h = ((ne, h.0), ap (λ rs. relative p ∷ rs) h.1)

relative_paths-Relative : (paths : List Text) → Relative paths (relative_paths paths)
unfolding relative_paths
relative_paths-Relative [] = (tt, refl)
relative_paths-Relative (p ∷ ps) = elim (Bool-cases (text_eq p (codes "/"))) [
  | inl e ↦ rw e (subst (λ q. Mem q (p ∷ ps)) ((text_eq_iff p (codes "/")).0 e) mem-cons_self)
  | inr e ↦ rw e (
      Relative-cons p ps (relative_paths ps) (λ q. ground (arith, text_eq_iff p (codes "/")))
        (relative_paths-Relative ps))
]

-- Where the root is among the paths, there is no limit; otherwise the context is limited to the paths,
-- relative to the root, each as often as it was there, in the order of their texts.
pub normalize_context_paths-Normalized :
    (paths : List Text) → Normalized paths (normalize_context_paths paths)
unfolding normalize_context_paths
normalize_context_paths-Normalized paths =
    by_paths (relative_paths paths) (relative_paths-Relative paths)
  where
    by_paths : (r : Option (List Text)) → Relative paths r → Normalized paths (sorted r)
    by_paths none m = whole m
    by_paths (some ps) h =
        chosen (sort ps) h.0 (subst (Perm (sort ps)) h.1 (sort-perm ps)) (sort-IsAscending ps)
