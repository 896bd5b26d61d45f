-- ===== src/Convert/Graph/Members.antt =====
-- Lists of stages as the sets `visited` and `path`
use dockerfile.Base.{
  ℕ, zero, suc, ◌+◌, ◌≤◌, ◌<◌, List, [], ◌∷◌, true, false, ◌==◌, ◌≡◌, refl, ◌⊎◌, inl, inr, arith,
  Bool-cases, if◌then◌else◌, ==_iff,
}
use dockerfile.Convert.Graph.{member, delete}

-- The numbers below `n` that are not in the list
abbrev pub unvisited : ℕ → List ℕ → ℕ
unvisited zero xs = 0
unvisited (suc n) xs = (if member xs n then 0 else 1) + unvisited n xs

abbrev pub Includes : List ℕ → List ℕ → Type 0
Includes xs ys = (v : ℕ) → member xs v ≡ true → member ys v ≡ true

pub unvisited-Includes : (n : ℕ) (xs ys : List ℕ) → Includes xs ys → unvisited n ys ≤ unvisited n xs
unvisited-Includes zero xs ys h = omega arith
unvisited-Includes (suc n) xs ys h = ground (arith, h n, unvisited-Includes n xs ys h)

pub Includes-cons : (s : ℕ) (xs : List ℕ) → Includes xs (s ∷ xs)
unfolding member
Includes-cons s xs v h = ground arith

pub unvisited-cons :
    (n s : ℕ) (xs : List ℕ) → member xs s ≡ false → s < n → unvisited n (s ∷ xs) < unvisited n xs
unfolding member
unvisited-cons zero s xs h k = absurd (omega arith)
unvisited-cons (suc n) s xs h k = elim (Bool-cases (s == n)) [
  | inl e ↦ ground (arith, ==_iff s n, unvisited-Includes n xs (s ∷ xs) (Includes-cons s xs))
  | inr e ↦ ground (arith, ==_iff s n, unvisited-cons n s xs h)
]

pub member-nil : (v : ℕ) → member [] v ≡ false
unfolding member
member-nil v = refl

pub not-member-nil : (v : ℕ) → ¬ (member [] v ≡ true)
unfolding member
not-member-nil v h = cc

pub unvisited-le : (n : ℕ) (xs : List ℕ) → unvisited n xs ≤ n
unvisited-le zero xs = omega arith
unvisited-le (suc n) xs = ground (arith, unvisited-le n xs)

pub delete-absent : (xs : List ℕ) (s : ℕ) → member xs s ≡ false → delete xs s ≡ xs
unfolding member delete
delete-absent [] s h = refl
delete-absent (x ∷ xs) s h = ground (arith, delete-absent xs s)

pub delete-head : (xs : List ℕ) (s : ℕ) → member xs s ≡ false → delete (s ∷ xs) s ≡ xs
unfolding delete
delete-head xs s h = ground (arith, delete-absent xs s, ==_iff s s)

pub member-head : (s : ℕ) (xs : List ℕ) (v : ℕ) → s ≡ v → member (s ∷ xs) v ≡ true
unfolding member
member-head s xs v e = ground (arith, ==_iff s v)

pub member-cons :
    (s : ℕ) (xs : List ℕ) (v : ℕ) → member (s ∷ xs) v ≡ true → (s ≡ v) ⊎ (member xs v ≡ true)
unfolding member
member-cons s xs v h = ground (arith, ==_iff s v)
