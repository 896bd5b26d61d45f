-- ===== src/Convert/States/Filled.antt =====
-- The pointers stay valid where the sources of the commands are looked up and the dependencies filled in.
use dockerfile.Base.{
  ℕ, ◌≤◌, ◌<◌, List, [], ◌∷◌, Bool, true, false, Option, none, some, length, length-append, ◌≡◌,
  refl, arith, All, All-snoc, Bool-cases, inl, inr, if◌then◌else◌,
}
use dockerfile.Base.Text.{Text, to_lower}
use dockerfile.Parser.Error.{Range}
use dockerfile.Instructions.Mount.{Mount}
use dockerfile.Instructions.Numbers.{ℤ, pos, negsuc}
use dockerfile.Instructions.Commands.{Body, Command}
use dockerfile.Convert.Error.{Result, ok, err, ◌>>=◌}
use dockerfile.Convert.Graph.{member}
use dockerfile.Convert.States.{
  DispatchState, DispatchStates, modify, get_elem?, add_state, unregistered_state, state_of_name,
  or_unregistered, find_state_by_name, mount_sources, mount_from, copy_sources, by_index,
  with_states, find_state_by_index, or_invalid, atoi, to_command, add_dep, register, add_sources,
  add_commands, fill_dependencies, commands_of,
}
use dockerfile.Convert.States.Valid.{
  IsValid, Below, BaseBelow, Linked, All-impl, All-modify, length-modify, get_elem?-All,
  add_state-IsValid, allocate-IsValid, find_name-Below,
}

-- The heap has grown, and all in it is valid.
pub record Grown (dss dss' : DispatchStates) : Type 0 where
  pub valid : IsValid dss'
  pub size : length dss.heap ≤ length dss'.heap

Grown-trans : {a b c : DispatchStates} → Grown a b → Grown b c → Grown a c
Grown-trans l r = record { valid = r.valid; size = omega arith }

-- The pointers of a look-up, with the states that it leaves
pub record Found (dss : DispatchStates) (r : List ℕ × DispatchStates) : Type 0 where
  pub grown : Grown dss r.1
  pub below : All (Below (length r.1.heap)) r.0

or_unregistered-Grown :
    (dss : DispatchStates) (name : Text) (location : List Range) (o : Option ℕ)
    → IsValid dss
    → BaseBelow (length dss.heap) o
    → Grown dss (or_unregistered dss name location o).1
      × (Below
          (length (or_unregistered dss name location o).1.heap)
          (or_unregistered dss name location o).0)
or_unregistered-Grown dss name location none v h =
    let ds = unregistered_state name location in
    (
      record {
        valid = allocate-IsValid dss ds v (tt, tt);
        size = omega (arith, length-append {0} dss.heap (ds ∷ []));
      },
      omega (arith, length-append {0} dss.heap (ds ∷ [])),
    )
or_unregistered-Grown dss name location (some p) v h = (record { valid = v; size = omega arith }, h)

state_of_name-Grown :
    (dss : DispatchStates) (name : Text) (location : List Range)
    → IsValid dss
    → Grown dss (state_of_name dss name location).1
      × (Below
          (length (state_of_name dss name location).1.heap)
          (state_of_name dss name location).0)
unfolding state_of_name find_state_by_name
state_of_name-Grown dss name location v =
    or_unregistered-Grown dss name location (find_state_by_name dss name) v
      (find_name-Below (length dss.heap) dss.states_by_name (to_lower name) v.names)

mount_sources-Found :
    (dss : DispatchStates) (ms : List Mount) → IsValid dss → Found dss (mount_sources dss ms)
unfolding mount_sources
mount_sources-Found dss [] v = record {
  grown = record { valid = v; size = omega arith };
  below = tt;
}
mount_sources-Found dss (m ∷ ms) v =
    let (one, lt) = state_of_name-Grown dss (mount_from m.from) [] v in
    let rest = mount_sources-Found (state_of_name dss (mount_from m.from) []).1 ms one.valid in
    record {
      grown = Grown-trans one rest.grown;
      below = (omega (arith, lt, rest.grown.size), rest.below);
    }

abbrev pub Ok {ℓ κ} : {A : Type ℓ} → (A → Type κ) → Result A → Type κ
Ok P (ok a) = P a
Ok P (err e) = Unit

pub Ok-bind {ℓ κ μ ν} :
    {A : Type ℓ} {B : Type κ} (P : A → Type μ) (Q : B → Type ν) (m : Result A) (f : A → Result B)
    → Ok P m
    → ((a : A) → P a → Ok Q (f a))
    → Ok Q (m >>= f)
Ok-bind P Q (ok a) f h k = k a h
Ok-bind P Q (err e) f h k = tt

find_state_by_index-Below :
    (dss : DispatchStates) (i : ℤ)
    → IsValid dss
    → Ok (Below (length dss.heap)) (find_state_by_index dss i)
unfolding find_state_by_index
find_state_by_index-Below dss (negsuc i) v = tt
find_state_by_index-Below dss (pos i) v = by_elem (get_elem? dss.states i) refl
  where
    by_elem :
        (o : Option ℕ)
        → get_elem? dss.states i ≡ o
        → Ok (Below (length dss.heap)) (or_invalid (pos i) o)
    by_elem none e = tt
    by_elem (some p) e = get_elem?-All (Below (length dss.heap)) dss.states i v.states e

copy_sources-Found :
    (dss : DispatchStates) (from : Text) (location : List Range)
    → IsValid dss
    → Ok (Found dss) (copy_sources dss from location)
unfolding copy_sources
copy_sources-Found dss [] location v = record {
  grown = record { valid = v; size = omega arith };
  below = tt;
}
copy_sources-Found dss (c ∷ from) location v = numbered (atoi (c ∷ from))
  where
    numbered : (o : Option ℤ) → Ok (Found dss) (by_index dss (c ∷ from) location o)
    numbered none =
        let (g, lt) = state_of_name-Grown dss (c ∷ from) location v in
        record { grown = g; below = (lt, tt) }
    numbered (some i) = looked_up (find_state_by_index dss i) (find_state_by_index-Below dss i v)
      where
        looked_up :
            (r : Result ℕ) → Ok (Below (length dss.heap)) r → Ok (Found dss) (with_states dss r)
        looked_up (ok p) lt = record {
          grown = record { valid = v; size = omega arith };
          below = (lt, tt);
        }
        looked_up (err e) lt = tt

pub to_command-Found :
    (dss : DispatchStates) (c : Command) → IsValid dss → Ok (Found dss) (to_command dss c)
unfolding to_command
to_command-Found dss c v = by_body c.body
  where
    nothing : Found dss ([], dss)
    nothing = record { grown = record { valid = v; size = omega arith }; below = tt }

    by_body :
        (b : Body)
        → Ok (Found dss) (elim b [
          | Body.copy s from chown chmod ↦ copy_sources dss from c.base.location
          | Body.run r ↦ ok (mount_sources dss r.mounts)
          | _ ↦ ok ([], dss)
        ])
    by_body (Body.copy s from chown chmod) = copy_sources-Found dss from c.base.location v
    by_body (Body.run r) = mount_sources-Found dss r.mounts v
    by_body (Body.env kvps) = nothing
    by_body _ = nothing

add_dep-Linked : (n p : ℕ) → p < n → (ds : DispatchState) → Linked n ds → Linked n (add_dep p ds)
add_dep-Linked n p lt ds h = elim (Bool-cases (member ds.deps p)) [
  | inl e ↦ rw e h
  | inr e ↦ rw e (All-snoc (Below n) ds.deps p h.0 lt, h.1)
]

pub link-IsValid :
    (dss : DispatchStates) (d p : ℕ)
    → IsValid dss
    → p < length dss.heap
    → IsValid (record dss { heap = modify dss.heap d (add_dep p) })
link-IsValid dss d p v lt =
    let same = length-modify dss.heap d (add_dep p) in
    record {
      states = rw same v.states;
      names = rw same v.names;
      linked = rw same (
          All-modify (Linked (length dss.heap)) (add_dep p) (add_dep-Linked (length dss.heap) p lt)
            dss.heap d v.linked);
    }

pub length-add_state :
    (dss : DispatchStates) (p : ℕ) (ds : DispatchState)
    → length (add_state dss p ds).heap ≡ length dss.heap
unfolding add_state
length-add_state dss p ds = length-modify dss.heap p _

pub register-Grown :
    (dss : DispatchStates) (p : ℕ) (o : Option DispatchState)
    → IsValid dss
    → p < length dss.heap
    → Grown dss (register dss p o)
register-Grown dss p none v lt = record { valid = v; size = omega arith }
register-Grown dss p (some ds) v lt = by_flag ds.unregistered
  where
    by_flag : (b : Bool) → Grown dss (if b then add_state dss p ds else dss)
    by_flag true = record {
      valid = add_state-IsValid dss p ds v lt;
      size = omega (arith, length-add_state dss p ds);
    }
    by_flag false = record { valid = v; size = omega arith }

pub add_sources-Grown :
    (dss : DispatchStates) (d : ℕ) (ps : List ℕ)
    → IsValid dss
    → All (Below (length dss.heap)) ps
    → Grown dss (add_sources dss d ps)
unfolding add_sources
add_sources-Grown dss d [] v h = record { valid = v; size = omega arith }
add_sources-Grown dss d (p ∷ ps) v h =
    let linked = record dss { heap = modify dss.heap d (add_dep p) } in
    let same = length-modify dss.heap d (add_dep p) in
    let one =
      register-Grown linked p (get_elem? linked.heap p) (link-IsValid dss d p v h.0)
        (omega arith) in
    let next = register linked p (get_elem? linked.heap p) in
    let rest =
      add_sources-Grown next d ps one.valid (
        All-impl (Below (length dss.heap)) (Below (length next.heap)) (λ q k. omega arith) ps
          h.1) in
    record { valid = rest.valid; size = omega arith }

pub add_commands-Grown :
    (dss : DispatchStates) (d : ℕ) (cs : List Command)
    → IsValid dss
    → Ok (λ r. Grown dss r.1) (add_commands dss d cs)
unfolding add_commands
add_commands-Grown dss d [] v = record { valid = v; size = omega arith }
add_commands-Grown dss d (c ∷ cs) v =
    Ok-bind (Found dss) (λ x. Grown dss x.1) (to_command dss c) _ (to_command-Found dss c v)
      (λ r found.
        let one = add_sources-Grown r.1 d r.0 found.grown.valid found.below in
        Ok-bind (λ x. Grown (add_sources r.1 d r.0) x.1) (λ x. Grown dss x.1)
          (add_commands (add_sources r.1 d r.0) d cs) _
          (add_commands-Grown (add_sources r.1 d r.0) d cs one.valid)
          (λ rest grown. Grown-trans (Grown-trans found.grown one) grown))

pub fill_dependencies-Grown :
    (dss : DispatchStates) (ds : List ℕ)
    → IsValid dss
    → Ok (λ r. Grown dss r.1) (fill_dependencies dss ds)
unfolding fill_dependencies
fill_dependencies-Grown dss [] v = record { valid = v; size = omega arith }
fill_dependencies-Grown dss (d ∷ ds) v =
    let cs = commands_of (get_elem? dss.heap d) in
    Ok-bind (λ x. Grown dss x.1) (λ x. Grown dss x.1) (add_commands dss d cs) _
      (add_commands-Grown dss d cs v)
      (λ r one.
        Ok-bind (λ x. Grown r.1 x.1) (λ x. Grown dss x.1) (fill_dependencies r.1 ds) _
          (fill_dependencies-Grown r.1 ds one.valid) (λ rest grown. Grown-trans one grown))
