-- ===== src/Convert/States/Deps.antt =====
-- dockerfile2llb/convert.go: the map `deps` of a stage behind the loop over the sources of a command
use dockerfile.Base.{
  ℕ, zero, suc, ◌<◌, List, [], ◌∷◌, Bool, true, false, Option, none, some, snoc, length, ◌≡◌, refl,
  arith, ◌∙◌, All, Bool-cases, inl, inr, if◌then◌else◌,
}
use dockerfile.Base.Text.{Text}
use dockerfile.Parser.Error.{Range}
use dockerfile.Convert.Graph.{member, Edge}
use dockerfile.Convert.Graph.Members.{
  not-member-nil, member-cons, member-head, Includes-cons as member-tail,
}
use dockerfile.Convert.States.{
  DispatchState, DispatchStates, modify, get_elem?, add_state, set_base, unregistered_state,
  state_of_name, or_unregistered, find_state_by_name, find_name, add_dep, register, add_sources,
  deps_at, deps_of,
}
use dockerfile.Convert.States.Valid.{length-modify}
use dockerfile.Convert.States.Filled.{length-add_state}

-- The stage `d` depends on `p`.
abbrev pub HasDep : DispatchStates → ℕ → ℕ → Type 0
HasDep dss d p = Edge (deps_at dss) d p

abbrev pub Keeps : DispatchStates → DispatchStates → Type 0
Keeps a b = (d p : ℕ) → HasDep a d p → HasDep b d p

member-snoc : (xs : List ℕ) (x k : ℕ) → member xs k ≡ true → member (snoc xs x) k ≡ true
member-snoc [] x k h = absurd (not-member-nil k h)
member-snoc (y ∷ ys) x k h = elim (member-cons y ys k h) [
  | inl e ↦ member-head y (snoc ys x) k e
  | inr m ↦ member-tail y (snoc ys x) k (member-snoc ys x k m)
]

member-last : (xs : List ℕ) (x : ℕ) → member (snoc xs x) x ≡ true
member-last [] x = member-head x [] x refl
member-last (y ∷ ys) x = member-tail y (snoc ys x) x (member-last ys x)

-- A dependency that an object has stays where no object loses one.
modify-keeps :
    (f : DispatchState → DispatchState) (p : ℕ)
    → ((ds : DispatchState) → member ds.deps p ≡ true → member (f ds).deps p ≡ true)
    → (xs : List DispatchState) (i d : ℕ) → member (deps_of (get_elem? xs d)) p ≡ true
    → member (deps_of (get_elem? (modify xs i f) d)) p ≡ true
unfolding get_elem? modify
modify-keeps f p k [] i d h = h
modify-keeps f p k (x ∷ xs) zero zero h = k x h
modify-keeps f p k (x ∷ xs) zero (suc d) h = h
modify-keeps f p k (x ∷ xs) (suc i) zero h = h
modify-keeps f p k (x ∷ xs) (suc i) (suc d) h = modify-keeps f p k xs i d h

snoc-keeps :
    (p : ℕ) (xs : List DispatchState) (x : DispatchState) (d : ℕ)
    → member (deps_of (get_elem? xs d)) p ≡ true
    → member (deps_of (get_elem? (snoc xs x) d)) p ≡ true
unfolding get_elem?
snoc-keeps p [] x d h = absurd (not-member-nil p h)
snoc-keeps p (y ∷ ys) x zero h = h
snoc-keeps p (y ∷ ys) x (suc d) h = snoc-keeps p ys x d h

set_base-keeps :
    (b : Option ℕ) (p : ℕ) (ds : DispatchState)
    → member ds.deps p ≡ true
    → member (set_base b ds).deps p ≡ true
set_base-keeps none p ds h = h
set_base-keeps (some b) p ds h = h

add_dep-keeps :
    (q p : ℕ) (ds : DispatchState) → member ds.deps p ≡ true → member (add_dep q ds).deps p ≡ true
add_dep-keeps q p ds h = by_flag (member ds.deps q)
  where
    by_flag : (b : Bool) → member (if b then ds.deps else snoc ds.deps q) p ≡ true
    by_flag true = h
    by_flag false = member-snoc ds.deps q p h

pub add_state-Keeps :
    (dss : DispatchStates) (q : ℕ) (ds : DispatchState) → Keeps dss (add_state dss q ds)
unfolding add_state deps_at
add_state-Keeps dss q ds d p h =
    let b = find_name dss.states_by_name ds.stage.base_name in
    modify-keeps (set_base b) p (set_base-keeps b p) dss.heap q d h

pub state_of_name-Keeps :
    (dss : DispatchStates) (name : Text) (location : List Range)
    → Keeps dss (state_of_name dss name location).1
unfolding state_of_name deps_at
state_of_name-Keeps dss name location = by_name (find_state_by_name dss name)
  where
    by_name : (o : Option ℕ) → Keeps dss (or_unregistered dss name location o).1
    by_name (some p) d q h = h
    by_name none d q h = snoc-keeps q dss.heap (unregistered_state name location) d h

register-Keeps :
    (dss : DispatchStates) (p : ℕ) (o : Option DispatchState) → Keeps dss (register dss p o)
register-Keeps dss p none = λ d q h. h
register-Keeps dss p (some ds) = by_flag ds.unregistered
  where
    by_flag : (b : Bool) → Keeps dss (if b then add_state dss p ds else dss)
    by_flag true = add_state-Keeps dss p ds
    by_flag false = λ d q h. h

abbrev pub linked : DispatchStates → ℕ → ℕ → DispatchStates
linked dss d p = record dss { heap = modify dss.heap d (add_dep p) }

pub linked-Keeps : (dss : DispatchStates) (d p : ℕ) → Keeps dss (linked dss d p)
unfolding deps_at
linked-Keeps dss d p e q h = modify-keeps (add_dep p) q (add_dep-keeps p q) dss.heap d e h

add_dep-has : (p : ℕ) (ds : DispatchState) → member (add_dep p ds).deps p ≡ true
add_dep-has p ds = elim (Bool-cases (member ds.deps p)) [
  | inl e ↦ rw e e
  | inr e ↦ rw e (member-last ds.deps p)
]

modify-has :
    (p : ℕ) (xs : List DispatchState) (d : ℕ)
    → d < length xs
    → member (deps_of (get_elem? (modify xs d (add_dep p)) d)) p ≡ true
unfolding get_elem? modify
modify-has p [] d lt = absurd (omega arith)
modify-has p (x ∷ xs) zero lt = add_dep-has p x
modify-has p (x ∷ xs) (suc d) lt = modify-has p xs d (omega arith)

linked-HasDep : (dss : DispatchStates) (d p : ℕ) → d < length dss.heap → HasDep (linked dss d p) d p
unfolding deps_at
linked-HasDep dss d p lt = modify-has p dss.heap d lt

abbrev pub next_sources : DispatchStates → ℕ → ℕ → DispatchStates
next_sources dss d p = register (linked dss d p) p (get_elem? (linked dss d p).heap p)

pub next_sources-Keeps : (dss : DispatchStates) (d p : ℕ) → Keeps dss (next_sources dss d p)
next_sources-Keeps dss d p e q h =
    register-Keeps (linked dss d p) p (get_elem? (linked dss d p).heap p) e q
      (linked-Keeps dss d p e q h)

pub add_sources-Keeps :
    (dss : DispatchStates) (d : ℕ) (ps : List ℕ) → Keeps dss (add_sources dss d ps)
unfolding add_sources
add_sources-Keeps dss d [] e q h = h
add_sources-Keeps dss d (p ∷ ps) e q h =
    add_sources-Keeps (next_sources dss d p) d ps e q (next_sources-Keeps dss d p e q h)

length-next_sources :
    (dss : DispatchStates) (d p : ℕ) → length (next_sources dss d p).heap ≡ length dss.heap
length-next_sources dss d p = by_elem (get_elem? (linked dss d p).heap p)
  where
    by_elem :
        (o : Option DispatchState) → length (register (linked dss d p) p o).heap ≡ length dss.heap
    by_elem none = length-modify dss.heap d (add_dep p)
    by_elem (some ds) = by_flag ds.unregistered
      where
        by_flag :
            (b : Bool)
            → length (if b then add_state (linked dss d p) p ds else linked dss d p).heap
              ≡ length dss.heap
        by_flag true = length-add_state (linked dss d p) p ds ∙ length-modify dss.heap d (add_dep p)
        by_flag false = length-modify dss.heap d (add_dep p)

pub add_sources-HasDep :
    (dss : DispatchStates) (d : ℕ) (ps : List ℕ)
    → d < length dss.heap
    → All (HasDep (add_sources dss d ps) d) ps
unfolding add_sources
add_sources-HasDep dss d [] lt = tt
add_sources-HasDep dss d (p ∷ ps) lt = (
  add_sources-Keeps (next_sources dss d p) d ps d p (
      register-Keeps (linked dss d p) p (get_elem? (linked dss d p).heap p) d p
        (linked-HasDep dss d p lt)),
  add_sources-HasDep (next_sources dss d p) d ps (omega (arith, length-next_sources dss d p)),
)
