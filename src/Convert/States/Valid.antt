-- ===== src/Convert/States/Valid.antt =====
-- Every pointer in the states of the stages leads to an object of the heap, whatever is added.
use dockerfile.Base.{
  ℕ, zero, suc, ◌≤◌, ◌<◌, List, [], ◌∷◌, Option, none, some, snoc, length, length-append, ◌≡◌, refl,
  subst, ap, arith, All, All-snoc, Bool-cases, inl, inr,
}
use dockerfile.Base.Text.{Text, text_eq, to_lower}
use dockerfile.Convert.States.{
  DispatchState, DispatchStates, find_name, put_name, modify, get_elem?, add_state, set_base, named,
  allocate,
}

abbrev pub Below : ℕ → ℕ → Type 0
Below n p = p < n

abbrev pub BaseBelow : ℕ → Option ℕ → Type 0
BaseBelow n none = Unit
BaseBelow n (some b) = b < n

abbrev pub Linked : ℕ → DispatchState → Type 0
Linked n ds = All (Below n) ds.deps × BaseBelow n ds.base

abbrev pub Names : ℕ → List (Text × ℕ) → Type 0
Names n = All (λ (e : Text × ℕ). e.1 < n)

pub record IsValid (dss : DispatchStates) : Type 0 where
  pub states : All (Below (length dss.heap)) dss.states
  pub names : Names (length dss.heap) dss.states_by_name
  pub linked : All (Linked (length dss.heap)) dss.heap

pub All-impl {ℓ κ μ} :
    {A : Type ℓ} (P : A → Type κ) (Q : A → Type μ)
    → ((a : A) → P a → Q a)
    → (xs : List A) → All P xs
    → All Q xs
All-impl P Q f [] h = tt
All-impl P Q f (x ∷ xs) h = (f x h.0, All-impl P Q f xs h.1)

pub All-modify {ℓ κ} :
    {A : Type ℓ} (P : A → Type κ) (f : A → A)
    → ((a : A) → P a → P (f a))
    → (xs : List A) (i : ℕ) → All P xs
    → All P (modify xs i f)
unfolding modify
All-modify P f k [] i h = tt
All-modify P f k (x ∷ xs) zero h = (k x h.0, h.1)
All-modify P f k (x ∷ xs) (suc i) h = (h.0, All-modify P f k xs i h.1)

pub length-modify {ℓ} :
    {A : Type ℓ} (xs : List A) (i : ℕ) (f : A → A) → length (modify xs i f) ≡ length xs
unfolding modify
length-modify [] i f = refl
length-modify (x ∷ xs) zero f = refl
length-modify (x ∷ xs) (suc i) f = ap suc (length-modify xs i f)

pub get_elem?-All {ℓ κ} :
    {A : Type ℓ} (P : A → Type κ) (xs : List A) (i : ℕ) {x : A}
    → All P xs
    → get_elem? xs i ≡ some x
    → P x
unfolding get_elem?
get_elem?-All P [] i h e = cc
get_elem?-All P (y ∷ ys) zero h e = subst P (cc) h.0
get_elem?-All P (y ∷ ys) (suc i) h e = get_elem?-All P ys i h.1 e

Linked-le : (n m : ℕ) → n ≤ m → (ds : DispatchState) → Linked n ds → Linked m ds
Linked-le n m le ds h =
    (All-impl (Below n) (Below m) (λ p k. omega arith) ds.deps h.0, wider ds.base h.1)
  where
    wider : (b : Option ℕ) → BaseBelow n b → BaseBelow m b
    wider none k = tt
    wider (some b) k = omega arith

pub find_name-Below :
    (n : ℕ) (m : List (Text × ℕ)) (name : Text) → Names n m → BaseBelow n (find_name m name)
unfolding find_name
find_name-Below n [] name h = tt
find_name-Below n ((key, p) ∷ m) name h = elim (Bool-cases (text_eq name key)) [
  | inl e ↦ rw (e, find_name) h.0
  | inr e ↦ rw (e, find_name) (find_name-Below n m name h.1)
]

put_name-Names :
    (n : ℕ) (m : List (Text × ℕ)) (name : Text) (p : ℕ)
    → Names n m
    → p < n
    → Names n (put_name m name p)
unfolding put_name
put_name-Names n [] name p h lt = (lt, tt)
put_name-Names n ((key, q) ∷ m) name p h lt = elim (Bool-cases (text_eq name key)) [
  | inl e ↦ rw (e, put_name) (lt, h.1)
  | inr e ↦ rw (e, put_name) (h.0, put_name-Names n m name p h.1 lt)
]

pub add_state-IsValid :
    (dss : DispatchStates) (p : ℕ) (ds : DispatchState)
    → IsValid dss
    → p < length dss.heap
    → IsValid (add_state dss p ds)
unfolding add_state
add_state-IsValid dss p ds v lt =
    let f = set_base (find_name dss.states_by_name ds.stage.base_name) in
    let same = length-modify dss.heap p f in
    record {
      states = rw same (All-snoc (Below (length dss.heap)) dss.states p v.states lt);
      names = rw same (named_Names ds.stage.name);
      linked = rw same (
          All-modify (Linked (length dss.heap)) f
            (based _
              (find_name-Below (length dss.heap) dss.states_by_name ds.stage.base_name v.names))
            dss.heap p v.linked);
    }
  where
    based :
        (b : Option ℕ)
        → BaseBelow (length dss.heap) b
        → (x : DispatchState) → Linked (length dss.heap) x
        → Linked (length dss.heap) (set_base b x)
    based none k x h = h
    based (some b) k x h = (h.0, k)

    named_Names : (name : Text) → Names (length dss.heap) (named name p dss.states_by_name)
    named_Names [] = v.names
    named_Names (c ∷ s) =
        put_name-Names (length dss.heap) dss.states_by_name (to_lower (c ∷ s)) p v.names lt

pub allocate-IsValid :
    (dss : DispatchStates) (ds : DispatchState)
    → IsValid dss
    → Linked (length dss.heap) ds
    → IsValid (allocate dss ds)
allocate-IsValid dss ds v h =
    let n = length dss.heap in
    let grown : length (snoc dss.heap ds) ≡ suc n =
      omega (arith, length-append {0} dss.heap (ds ∷ [])) in
    record {
      states =
          rw grown (All-impl (Below n) (Below (suc n)) (λ p k. omega arith) dss.states v.states);
      names = rw grown (
          All-impl (λ (e : Text × ℕ). e.1 < n) (λ (e : Text × ℕ). e.1 < suc n) (λ e k. omega arith)
            dss.states_by_name v.names);
      linked = rw grown (
          All-snoc (Linked (suc n)) dss.heap ds
            (All-impl (Linked n) (Linked (suc n)) (Linked-le n (suc n) (omega arith)) dss.heap
              v.linked)
            (Linked-le n (suc n) (omega arith) ds h));
    }
