-- ===== src/Convert/States/Names.antt =====
-- A stage is found by the last state that was added under its name.
use dockerfile.Base.{
  ℕ, zero, suc, List, [], ◌∷◌, Bool, true, false, Option, none, some, ◌≡◌, refl, ap, ap₂, sym, ◌∙◌,
  arith, All, Bool-cases, inl, inr, if◌then◌else◌, ◌&&◌,
}
use dockerfile.Base.Text.{Text, lower_code, text_eq, text_eq_iff, to_lower, equal_fold}
use dockerfile.Convert.States.{
  DispatchState, DispatchStates, find_name, put_name, modify, get_elem?, add_state, set_base,
  base_at, base_of, find_state_by_name, named,
}

find_name-put_name :
    (m : List (Text × ℕ)) (k : Text) (p : ℕ) (name : Text)
    → find_name (put_name m k p) name ≡ (if text_eq name k then some p else find_name m name)
unfolding find_name put_name
find_name-put_name [] k p name = refl
find_name-put_name ((key, q) ∷ m) k p name = ground (
  arith,
  find_name-put_name m k p name,
  text_eq_iff k key,
  text_eq_iff name key,
  text_eq_iff name k,
)

abbrev pub is_named : Text → Bool
is_named [] = false
is_named (c ∷ s) = true

get_elem?-modify {ℓ} :
    {A : Type ℓ} (xs : List A) (i : ℕ) (f : A → A) {x : A}
    → get_elem? xs i ≡ some x
    → get_elem? (modify xs i f) i ≡ some (f x)
unfolding get_elem? modify
get_elem?-modify [] i f h = cc
get_elem?-modify (x ∷ xs) zero f h = ap (λ o. elim o [ none ↦ none | some y ↦ some (f y) ]) h
get_elem?-modify (x ∷ xs) (suc i) f h = get_elem?-modify xs i f h

-- All names are stored in lower case.
abbrev pub AreLower : List (Text × ℕ) → Type 0
AreLower = All (λ (e : Text × ℕ). to_lower e.0 ≡ e.0)

lower_code-twice : (c : ℕ) → lower_code (lower_code c) ≡ lower_code c
lower_code-twice c = ground arith

to_lower-twice : (s : Text) → to_lower (to_lower s) ≡ to_lower s
unfolding to_lower
to_lower-twice [] = refl
to_lower-twice (c ∷ s) = ap₂ ◌∷◌ (lower_code-twice c) (to_lower-twice s)

put_name-AreLower :
    (m : List (Text × ℕ)) (k : Text) (p : ℕ)
    → to_lower k ≡ k
    → AreLower m
    → AreLower (put_name m k p)
unfolding put_name
put_name-AreLower [] k p h a = (h, tt)
put_name-AreLower ((key, q) ∷ m) k p h a = elim (Bool-cases (text_eq k key)) [
  | inl e ↦ rw (e, put_name) (a.0, a.1)
  | inr e ↦ rw (e, put_name) (a.0, put_name-AreLower m k p h a.1)
]

named-AreLower :
    (name : Text) (p : ℕ) (m : List (Text × ℕ)) → AreLower m → AreLower (named name p m)
named-AreLower [] p m a = a
named-AreLower (c ∷ name) p m a =
    put_name-AreLower m (to_lower (c ∷ name)) p (to_lower-twice (c ∷ name)) a

find_name-absent :
    (m : List (Text × ℕ)) (name : Text)
    → text_eq (to_lower name) name ≡ false
    → AreLower m
    → find_name m name ≡ none
unfolding find_name
find_name-absent [] name h a = refl
find_name-absent ((key, q) ∷ m) name h a = elim (Bool-cases (text_eq name key)) [
  | inl e ↦
      let same = (text_eq_iff name key).0 e in
      let lower : to_lower name ≡ name = ap to_lower same ∙ a.0 ∙ sym same in
      absurd (cc ((text_eq_iff (to_lower name) name).1 lower, h))
  | inr e ↦ rw (e, find_name) (find_name-absent m name h a.1)
]

-- The name as it is written is found exactly where it is in lower case and is found in any case.
find_name-as_written :
    (m : List (Text × ℕ)) (name : Text)
    → AreLower m
    → find_name m name
      ≡ (if text_eq (to_lower name) name then find_name m (to_lower name) else none)
find_name-as_written m name a = elim (Bool-cases (text_eq (to_lower name) name)) [
  | inl e ↦ rw e (ap (find_name m) (sym ((text_eq_iff (to_lower name) name).0 e)))
  | inr e ↦ rw e (find_name-absent m name e a)
]

-- Where all names are stored in lower case, behind `addState` a name, in any case, is that of the new state
-- or finds what it found before; the new state is built from the state that its base name finds, if the
-- base name is in lower case, and from none if it is not, whatever states there are; and all names are
-- still stored in lower case. The new state is one of the heap, which has no base yet.
pub find_state_by_name-add_state :
    (dss : DispatchStates) (p : ℕ) (ds : DispatchState) (name : Text)
    → AreLower dss.states_by_name
    → get_elem? dss.heap p ≡ some ds
    → ds.base ≡ none
    → (find_state_by_name (add_state dss p ds) name ≡ (
        if is_named ds.stage.name && equal_fold name ds.stage.name
        then some p
        else find_state_by_name dss name))
      × (base_at (add_state dss p ds) p ≡ (
          if text_eq (to_lower ds.stage.base_name) ds.stage.base_name
          then find_state_by_name dss ds.stage.base_name
          else none))
      × AreLower (add_state dss p ds).states_by_name
unfolding find_state_by_name add_state base_at equal_fold
find_state_by_name-add_state dss p ds name lower h fresh = (
  by_name ds.stage.name,
  ap base_of (get_elem?-modify dss.heap p _ h)
      ∙ based (find_name dss.states_by_name ds.stage.base_name)
      ∙ find_name-as_written dss.states_by_name ds.stage.base_name lower,
  named-AreLower ds.stage.name p dss.states_by_name lower,
)
  where
    by_name :
        (n : Text)
        → find_name (named n p dss.states_by_name) (to_lower name) ≡ (
            if is_named n && text_eq (to_lower name) (to_lower n)
            then some p
            else find_name dss.states_by_name (to_lower name))
    by_name [] = refl
    by_name (c ∷ s) = find_name-put_name dss.states_by_name (to_lower (c ∷ s)) p (to_lower name)

    based : (o : Option ℕ) → (set_base o ds).base ≡ o
    based none = fresh
    based (some b) = refl
