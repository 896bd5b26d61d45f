-- ===== src/Convert/States/Later.antt =====
-- dockerfile2llb/convert.go: what stays of the states of the stages while the sources of the commands are
-- looked up and the dependencies filled in. The states that are added for images have no names.
use dockerfile.Base.{
  ℕ, zero, suc, List, [], ◌∷◌, Bool, true, false, Option, none, some, snoc, ◌≡◌, refl, ◌∙◌, ap, sym,
  All, All-snoc, if◌then◌else◌, ◌<◌, length, arith,
}
use dockerfile.Base.Text.{Text}
use dockerfile.Parser.Error.{Range}
use dockerfile.Instructions.Mount.{Mount}
use dockerfile.Instructions.Commands.{Stage, Command}
use dockerfile.Convert.States.{
  DispatchState, DispatchStates, modify, get_elem?, add_state, set_base, unregistered_state,
  state_of_name, or_unregistered, find_state_by_name, find_name, mount_sources, mount_from, add_dep,
  register, add_sources, commands_of, named,
}
use dockerfile.Convert.States.Valid.{All-modify, get_elem?-All}
use dockerfile.Convert.States.Deps.{
  Keeps, add_state-Keeps, state_of_name-Keeps, linked, linked-Keeps, next_sources,
}

-- A state that is made for an image has no name.
abbrev pub IsUnnamed : DispatchState → Type 0
IsUnnamed ds = ds.unregistered ≡ true → ds.stage.name ≡ []

-- The stage of a state, and whether it was made for an image
abbrev pub info_of : Option DispatchState → Option (Stage × Bool)
info_of none = none
info_of (some ds) = some (ds.stage, ds.unregistered)

abbrev pub info_at : DispatchStates → ℕ → Option (Stage × Bool)
info_at dss p = info_of (get_elem? dss.heap p)

-- What `b` has still of `a`: the dependencies, the stages, the places in the list, and the names
pub record Later (a b : DispatchStates) : Type 0 where
  pub deps : Keeps a b
  pub infos : (p : ℕ) (i : Stage × Bool) → info_at a p ≡ some i → info_at b p ≡ some i
  pub places : (i p : ℕ) → get_elem? a.states i ≡ some p → get_elem? b.states i ≡ some p
  pub names : b.states_by_name ≡ a.states_by_name
  pub unnamed : All IsUnnamed b.heap

pub Later-refl : (a : DispatchStates) → All IsUnnamed a.heap → Later a a
Later-refl a u = record {
  deps = λ d p h. h;
  infos = λ p i h. h;
  places = λ i p h. h;
  names = refl;
  unnamed = u;
}

pub Later-trans : {a b c : DispatchStates} → Later a b → Later b c → Later a c
Later-trans l r = record {
  deps = λ d p h. r.deps d p (l.deps d p h);
  infos = λ p i h. r.infos p i (l.infos p i h);
  places = λ i p h. r.places i p (l.places i p h);
  names = r.names ∙ l.names;
  unnamed = r.unnamed;
}

get_elem?-snoc {ℓ} :
    {A : Type ℓ} (xs : List A) (x : A) (i : ℕ) {y : A}
    → get_elem? xs i ≡ some y
    → get_elem? (snoc xs x) i ≡ some y
unfolding get_elem?
get_elem?-snoc [] x i h = absurd (cc)
get_elem?-snoc (z ∷ zs) x zero h = h
get_elem?-snoc (z ∷ zs) x (suc i) h = get_elem?-snoc zs x i h

info-snoc :
    (xs : List DispatchState) (x : DispatchState) (p : ℕ) (i : Stage × Bool)
    → info_of (get_elem? xs p) ≡ some i
    → info_of (get_elem? (snoc xs x) p) ≡ some i
unfolding get_elem?
info-snoc [] x p i h = absurd (cc)
info-snoc (y ∷ ys) x zero i h = h
info-snoc (y ∷ ys) x (suc p) i h = info-snoc ys x p i h

info-modify :
    (f : DispatchState → DispatchState)
    → ((ds : DispatchState) → info_of (some (f ds)) ≡ info_of (some ds))
    → (xs : List DispatchState) (j p : ℕ)
    → info_of (get_elem? (modify xs j f) p) ≡ info_of (get_elem? xs p)
unfolding get_elem? modify
info-modify f k [] j p = refl
info-modify f k (x ∷ xs) zero zero = k x
info-modify f k (x ∷ xs) zero (suc p) = refl
info-modify f k (x ∷ xs) (suc j) zero = refl
info-modify f k (x ∷ xs) (suc j) (suc p) = info-modify f k xs j p

set_base-info :
    (b : Option ℕ) (ds : DispatchState) → info_of (some (set_base b ds)) ≡ info_of (some ds)
set_base-info none ds = refl
set_base-info (some b) ds = refl

set_base-IsUnnamed : (b : Option ℕ) (ds : DispatchState) → IsUnnamed ds → IsUnnamed (set_base b ds)
set_base-IsUnnamed none ds h = h
set_base-IsUnnamed (some b) ds h = h

add_state-Later :
    (a : DispatchStates) (q : ℕ) (ds : DispatchState)
    → ds.stage.name ≡ []
    → All IsUnnamed a.heap
    → Later a (add_state a q ds)
unfolding add_state
add_state-Later a q ds h u =
    let b = find_name a.states_by_name ds.stage.base_name in
    record {
      deps = add_state-Keeps a q ds;
      infos = λ p i e. info-modify (set_base b) (set_base-info b) a.heap q p ∙ e;
      places = λ i p e. get_elem?-snoc a.states q i e;
      names = ap (λ n. named n q a.states_by_name) h;
      unnamed = All-modify IsUnnamed (set_base b) (set_base-IsUnnamed b) a.heap q u;
    }

pub state_of_name-Later :
    (a : DispatchStates) (name : Text) (location : List Range)
    → All IsUnnamed a.heap
    → Later a (state_of_name a name location).1
unfolding state_of_name
state_of_name-Later a name location u =
    by_name (find_state_by_name a name) (state_of_name-Keeps a name location)
  where
    by_name :
        (o : Option ℕ)
        → Keeps a (or_unregistered a name location o).1
        → Later a (or_unregistered a name location o).1
    by_name (some p) k = Later-refl a u
    by_name none k = record {
      deps = k;
      infos = λ p i e. info-snoc a.heap (unregistered_state name location) p i e;
      places = λ i p e. e;
      names = refl;
      unnamed = All-snoc IsUnnamed a.heap (unregistered_state name location) u (λ e. refl);
    }

linked-Later : (a : DispatchStates) (d p : ℕ) → All IsUnnamed a.heap → Later a (linked a d p)
linked-Later a d p u = record {
  deps = linked-Keeps a d p;
  infos = λ q i e. info-modify (add_dep p) (λ ds. refl) a.heap d q ∙ e;
  places = λ i q e. e;
  names = refl;
  unnamed = All-modify IsUnnamed (add_dep p) (λ ds h. h) a.heap d u;
}

register-Later :
    (a : DispatchStates) (p : ℕ) (o : Option DispatchState)
    → get_elem? a.heap p ≡ o
    → All IsUnnamed a.heap
    → Later a (register a p o)
register-Later a p none e u = Later-refl a u
register-Later a p (some ds) e u = by_flag ds.unregistered refl
  where
    by_flag : (b : Bool) → ds.unregistered ≡ b → Later a (if b then add_state a p ds else a)
    by_flag true k = add_state-Later a p ds (get_elem?-All IsUnnamed a.heap p u e k) u
    by_flag false k = Later-refl a u

pub add_sources-Later :
    (a : DispatchStates) (d : ℕ) (ps : List ℕ) → All IsUnnamed a.heap → Later a (add_sources a d ps)
unfolding add_sources
add_sources-Later a d [] u = Later-refl a u
add_sources-Later a d (p ∷ ps) u =
    let one = linked-Later a d p u in
    let two = register-Later (linked a d p) p (get_elem? (linked a d p).heap p) refl one.unnamed in
    Later-trans (Later-trans one two) (add_sources-Later (next_sources a d p) d ps two.unnamed)

pub mount_sources-Later :
    (a : DispatchStates) (ms : List Mount) → All IsUnnamed a.heap → Later a (mount_sources a ms).1
unfolding mount_sources
mount_sources-Later a [] u = Later-refl a u
mount_sources-Later a (m ∷ ms) u =
    let one = state_of_name-Later a (mount_from m.from) [] u in
    Later-trans one (mount_sources-Later (state_of_name a (mount_from m.from) []).1 ms one.unnamed)

-- The commands of a stage stay the same.
abbrev pub commands_at : DispatchStates → ℕ → List Command
commands_at dss d = commands_of (get_elem? dss.heap d)

abbrev of_info : Option (Stage × Bool) → List Command
of_info none = []
of_info (some (st, u)) = st.commands

commands_of-info : (o : Option DispatchState) → commands_of o ≡ of_info (info_of o)
commands_of-info none = refl
commands_of-info (some ds) = refl

info-exists :
    (xs : List DispatchState) (d : ℕ)
    → d < length xs
    → (i : Stage × Bool) × (info_of (get_elem? xs d) ≡ some i)
unfolding get_elem?
info-exists [] d lt = absurd (omega arith)
info-exists (x ∷ xs) zero lt = ((x.stage, x.unregistered), refl)
info-exists (x ∷ xs) (suc d) lt = info-exists xs d (omega arith)

pub commands_at-Later :
    {a b : DispatchStates}
    → Later a b
    → (d : ℕ) → d < length a.heap
    → commands_at b d ≡ commands_at a d
commands_at-Later {a} {b} l d lt =
    let (i, e) = info-exists a.heap d lt in
    commands_of-info (get_elem? b.heap d)
    ∙ ap of_info (l.infos d i e)
    ∙ ap of_info (sym e)
    ∙ sym (commands_of-info (get_elem? a.heap d))
