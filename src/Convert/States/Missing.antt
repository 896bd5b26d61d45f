-- ===== src/Convert/States/Missing.antt =====
-- dockerfile2llb/convert.go: the loop over the commands of the stages fails only at a COPY from a number
-- that no stage has.
use dockerfile.Base.{
  ℕ, List, [], ◌∷◌, Option, none, some, length, ◌≡◌, refl, subst, All, ◌⊎◌, inl, inr, arith,
}
use dockerfile.Base.Text.{Text}
use dockerfile.Parser.Error.{Range}
use dockerfile.Instructions.Numbers.{ℤ, pos, negsuc}
use dockerfile.Instructions.Commands.{Command, Body}
use dockerfile.Convert.Error.{Error, Result, ok, err, ◌>>=◌, invalid_index}
use dockerfile.Convert.States.{
  DispatchStates, get_elem?, find_state_by_index, or_invalid, with_states, by_index, copy_sources,
  mount_sources, atoi, to_command, add_sources, add_commands, fill_dependencies,
}
use dockerfile.Convert.States.Valid.{IsValid, Below, All-impl}
use dockerfile.Convert.States.Filled.{Ok, add_sources-Grown}
use dockerfile.Convert.States.Sourced.{After, Step, to_command-Step, add_commands-After}
use dockerfile.Convert.States.Later.{
  IsUnnamed, Later, Later-trans, add_sources-Later, commands_at, commands_at-Later,
}
use dockerfile.Convert.States.Sources.{IsPlace}

-- The number of the source is that of no stage.
abbrev pub IsBadNumber : DispatchStates → Text → Error → Type 0
IsBadNumber dss from e =
    (i : ℤ) × (atoi from ≡ some i) × (e ≡ invalid_index i) × ((p : ℕ) → ¬ IsPlace dss i p)

abbrev pub IsBadIndex : DispatchStates → Body → Error → Type 0
IsBadIndex dss (Body.copy s from chown chmod) e = IsBadNumber dss from e
IsBadIndex dss _ e = ⊥

abbrev pub HasOne {ℓ} : {A : Type ℓ} → (A → Type 0) → List A → Type 0
HasOne P [] = ⊥
HasOne P (x ∷ xs) = P x ⊎ HasOne P xs

-- A command of a stage has such a number.
abbrev pub IsMissing : DispatchStates → List ℕ → Error → Type 0
IsMissing dss ds e =
    HasOne (λ d. HasOne (λ (c : Command). IsBadIndex dss c.body e) (commands_at dss d)) ds

HasOne-impl {ℓ} :
    {A : Type ℓ} (P : A → Type 0) (Q : A → Type 0)
    → ((a : A) → P a → Q a)
    → (xs : List A) → HasOne P xs
    → HasOne Q xs
HasOne-impl P Q f [] h = elim h [ ]
HasOne-impl P Q f (x ∷ xs) (inl h) = inl (f x h)
HasOne-impl P Q f (x ∷ xs) (inr h) = inr (HasOne-impl P Q f xs h)

abbrev pub Fails {ℓ κ} : {A : Type ℓ} → (Error → Type κ) → Result A → Type κ
Fails P (ok a) = Unit
Fails P (err e) = P e

abbrev FailsCommand : DispatchStates → Body → Result (List ℕ × DispatchStates) → Type 0
FailsCommand dss b = Fails (IsBadIndex dss b)

Fails-bind {ℓ κ μ ν} :
    {A : Type ℓ} {B : Type κ} (P : A → Type μ) (Q : Error → Type ν) (m : Result A)
    (f : A → Result B)
    → Ok P m
    → Fails Q m
    → ((a : A) → P a → Fails Q (f a))
    → Fails Q (m >>= f)
Fails-bind P Q (ok a) f h e k = k a h
Fails-bind P Q (err e) f h q k = q

Fails-impl {ℓ κ μ} :
    {A : Type ℓ} (P : Error → Type κ) (Q : Error → Type μ)
    → ((e : Error) → P e → Q e)
    → (r : Result A) → Fails P r
    → Fails Q r
Fails-impl P Q f (ok a) h = tt
Fails-impl P Q f (err e) h = f e h

IsBadIndex-Later :
    {a b : DispatchStates}
    → Later a b
    → (c : Body) (e : Error) → IsBadIndex b c e
    → IsBadIndex a c e
IsBadIndex-Later {a} {b} l (Body.copy s from chown chmod) e (i, n, k, f) =
    (i, n, k, λ p h. f p (later i p h))
  where
    later : (i : ℤ) (p : ℕ) → IsPlace a i p → IsPlace b i p
    later (pos i) p h = l.places i p h
    later (negsuc i) p h = h
IsBadIndex-Later l _ e h = h

to_command-Fails : (dss : DispatchStates) (c : Command) → FailsCommand dss c.body (to_command dss c)
unfolding to_command copy_sources find_state_by_index
to_command-Fails dss c = by_body c.body
  where
    absent :
        (i : ℕ) (o : Option ℕ) (from : Text)
        → atoi from ≡ some (pos i)
        → get_elem? dss.states i ≡ o
        → Fails (IsBadNumber dss from) (with_states dss (or_invalid (pos i) o))
    absent i none from e k = (pos i, e, refl, λ p h. absurd (cc))
    absent i (some p) from e k = tt

    numbered :
        (o : Option ℤ) (from : Text) (location : List Range)
        → atoi from ≡ o
        → Fails (IsBadNumber dss from) (by_index dss from location o)
    numbered none from location e = tt
    numbered (some (pos i)) from location e = absent i (get_elem? dss.states i) from e refl
    numbered (some (negsuc i)) from location e = (negsuc i, e, refl, λ p h. h)

    copied :
        (from : Text) (location : List Range)
        → Fails (IsBadNumber dss from) (copy_sources dss from location)
    copied [] location = tt
    copied (x ∷ from) location = numbered (atoi (x ∷ from)) (x ∷ from) location refl

    by_body :
        (b : Body)
        → FailsCommand dss b (elim b [
          | Body.copy s from chown chmod ↦ copy_sources dss from c.base.location
          | Body.run r ↦ ok (mount_sources dss r.mounts)
          | _ ↦ ok ([], dss)
        ])
    by_body (Body.copy s from chown chmod) = copied from c.base.location
    by_body (Body.run r) = tt
    by_body (Body.env kvps) = tt
    by_body _ = tt

abbrev HasBadIndex : DispatchStates → List Command → Error → Type 0
HasBadIndex dss cs e = HasOne (λ (c : Command). IsBadIndex dss c.body e) cs

HasBadIndex-Later :
    {a b : DispatchStates}
    → Later a b
    → (cs : List Command) (e : Error) → HasBadIndex b cs e
    → HasBadIndex a cs e
HasBadIndex-Later l cs e h = HasOne-impl _ _ (λ (c : Command). IsBadIndex-Later l c.body e) cs h

add_commands-Fails :
    (dss : DispatchStates) (d : ℕ) (cs : List Command)
    → IsValid dss
    → All IsUnnamed dss.heap
    → Fails (HasBadIndex dss cs) (add_commands dss d cs)
unfolding add_commands
add_commands-Fails dss d [] v u = tt
add_commands-Fails dss d (c ∷ cs) v u =
    Fails-bind (Step dss c) (HasBadIndex dss (c ∷ cs)) (to_command dss c) _
      (to_command-Step dss c v u)
      (Fails-impl (IsBadIndex dss c.body) (HasBadIndex dss (c ∷ cs)) (λ e. inl) (to_command dss c)
        (to_command-Fails dss c))
      (λ r (found, (l, s)).
        let next = add_sources r.1 d r.0 in
        let grown = add_sources-Grown r.1 d r.0 found.grown.valid found.below in
        let two = add_sources-Later r.1 d r.0 l.unnamed in
        last next (Later-trans l two) (add_commands next d cs)
          (add_commands-Fails next d cs grown.valid two.unnamed) _)
  where
    last :
        (next : DispatchStates)
        → Later dss next
        → (r : Result (List (List ℕ) × DispatchStates)) → Fails (HasBadIndex next cs) r
        → (f : List (List ℕ) × DispatchStates → List (List ℕ) × DispatchStates)
        → Fails (HasBadIndex dss (c ∷ cs)) (r >>= λ x. ok (f x))
    last next l (ok x) h f = tt
    last next l (err e) h f = inr (HasBadIndex-Later l cs e h)

IsMissing-Later :
    {a b : DispatchStates}
    → Later a b
    → (ds : List ℕ) (e : Error) → All (Below (length a.heap)) ds
    → IsMissing b ds e
    → IsMissing a ds e
IsMissing-Later l [] e h m = elim m [ ]
IsMissing-Later {a} {b} l (d ∷ ds) e h (inl m) = inl (
    HasBadIndex-Later l (commands_at a d) e
      (subst (λ cs. HasBadIndex b cs e) (commands_at-Later l d h.0) m))
IsMissing-Later l (d ∷ ds) e h (inr m) = inr (IsMissing-Later l ds e h.1 m)

pub fill_dependencies-Fails :
    (dss : DispatchStates) (ds : List ℕ)
    → IsValid dss
    → All IsUnnamed dss.heap
    → All (Below (length dss.heap)) ds
    → Fails (IsMissing dss ds) (fill_dependencies dss ds)
unfolding fill_dependencies
fill_dependencies-Fails dss [] v u h = tt
fill_dependencies-Fails dss (d ∷ ds) v u h =
    let cs = commands_at dss d in
    Fails-bind (After dss d cs) (IsMissing dss (d ∷ ds)) (add_commands dss d cs) _
      (add_commands-After dss d cs v u h.0)
      (Fails-impl (HasBadIndex dss cs) (IsMissing dss (d ∷ ds)) (λ e. inl) (add_commands dss d cs)
        (add_commands-Fails dss d cs v u))
      (λ r (l, (g, s)).
        last r.1 l (fill_dependencies r.1 ds)
          (fill_dependencies-Fails r.1 ds g.valid l.unnamed (
            All-impl (Below (length dss.heap)) (Below (length r.1.heap))
              (λ q k. omega (arith, k, g.size)) ds h.1))
          _)
  where
    last :
        (next : DispatchStates)
        → Later dss next
        → (r : Result (List (List (List ℕ)) × DispatchStates)) → Fails (IsMissing next ds) r
        → (f : List (List (List ℕ)) × DispatchStates → List (List (List ℕ)) × DispatchStates)
        → Fails (IsMissing dss (d ∷ ds)) (r >>= λ x. ok (f x))
    last next l (ok x) m f = tt
    last next l (err e) m f = inr (IsMissing-Later l ds e h.1 m)
