-- ===== src/Convert/States.antt =====
-- dockerfile2llb/convert.go: the states of the stages before they are dispatched (`dispatchState` with
-- the fields that are set by then, `dispatchStates`), the sources of a command (`toCommand`, and
-- `detectRunMount` of convert_runmount.go), and the loop that fills in the dependencies. A pointer to a
-- dispatchState is its place in `heap`, where every object stands that has been made.
pub mod Valid
pub mod Filled
pub mod Checked
pub mod Names
pub mod Deps
pub mod Later
pub mod Sources
pub mod Sourced
pub mod Missing
pub mod Outcome
use dockerfile.Base.{
  ℕ, zero, suc, ◌==◌, List, [], ◌∷◌, Bool, true, false, ◌||◌, Option, none, some, snoc, length, map,
  if◌then◌else◌, ltb, ◌*◌, ◌+◌, ◌-◌, ◌^◌, leb,
}
use dockerfile.Base.Text.{Text, codes, text_eq, to_lower}
use dockerfile.Parser.Error.{Range}
use dockerfile.Instructions.Mount.{Mount}
use dockerfile.Instructions.Numbers.{ℤ, pos, negsuc, negated, parse_uint}
use dockerfile.Instructions.Commands.{Stage, Command, Body, copy, run, SourcesAndDest}
use dockerfile.Convert.Error.{
  Error, Result, ok, err, ◌>>=◌, invalid_index, circular_dependency, out_of_fuel,
}
use dockerfile.Convert.Graph.{member, has_circular_dependency}
use dockerfile.Convert.Platform.{Platform}

-- `dispatchState` without the image and the LLB state
pub record DispatchState : Type 0 where
  pub stage : Stage
  pub base : Option ℕ
  pub deps : List ℕ
  pub platform : Option Platform
  pub stage_name : Text
  pub noinit : Bool
  pub unregistered : Bool
  pub ignore_cache : Bool
  pub cmd_total : ℕ

-- `dispatchStates`, with the heap
pub record DispatchStates : Type 0 where
  pub heap : List DispatchState
  pub states : List ℕ
  pub states_by_name : List (Text × ℕ)

-- `newDispatchStates`
abbrev pub new_dispatch_states : DispatchStates
new_dispatch_states = record { heap = []; states = []; states_by_name = [] }

-- The last entry for the name, as it was written last
unfoldable pub find_name : List (Text × ℕ) → Text → Option ℕ
unfolding text_eq
find_name [] name = none
find_name ((key, p) ∷ m) name = if text_eq name key then some p else find_name m name

-- `dss.statesByName[name] = ds`
unfoldable pub put_name : List (Text × ℕ) → Text → ℕ → List (Text × ℕ)
unfolding text_eq
put_name [] name p = (name, p) ∷ []
put_name ((key, q) ∷ m) name p =
    if text_eq name key then (key, p) ∷ m else (key, q) ∷ put_name m name p

unfoldable pub get_elem? {ℓ} : {A : Type ℓ} → List A → ℕ → Option A
get_elem? [] i = none
get_elem? (x ∷ xs) zero = some x
get_elem? (x ∷ xs) (suc i) = get_elem? xs i

unfoldable pub modify {ℓ} : {A : Type ℓ} → List A → ℕ → (A → A) → List A
modify [] i f = []
modify (x ∷ xs) zero f = f x ∷ xs
modify (x ∷ xs) (suc i) f = x ∷ modify xs i f

-- The object is made: its pointer is the next place in the heap.
abbrev pub allocate : DispatchStates → DispatchState → DispatchStates
allocate dss ds = record dss { heap = snoc dss.heap ds }

abbrev pub next : DispatchStates → ℕ
next dss = length dss.heap

abbrev named : Text → ℕ → List (Text × ℕ) → List (Text × ℕ)
named [] p m = m
named (c ∷ name) p m = put_name m (to_lower (c ∷ name)) p

abbrev set_base : Option ℕ → DispatchState → DispatchState
set_base none ds = ds
set_base (some b) ds = record ds { base = some b }

-- `addState`, at the pointer and what it points to
unfoldable pub add_state : DispatchStates → ℕ → DispatchState → DispatchStates
unfolding find_name put_name modify to_lower
add_state dss p ds = record {
  heap = modify dss.heap p (set_base (find_name dss.states_by_name ds.stage.base_name));
  states = snoc dss.states p;
  states_by_name = named ds.stage.name p dss.states_by_name;
}

-- `findStateByName`
unfoldable pub find_state_by_name : DispatchStates → Text → Option ℕ
unfolding find_name to_lower
find_state_by_name dss name = find_name dss.states_by_name (to_lower name)

abbrev or_invalid : ℤ → Option ℕ → Result ℕ
or_invalid index none = err (invalid_index index)
or_invalid index (some p) = ok p

-- `findStateByIndex`
unfoldable pub find_state_by_index : DispatchStates → ℤ → Result ℕ
unfolding get_elem?
find_state_by_index dss (pos i) = or_invalid (pos i) (get_elem? dss.states i)
find_state_by_index dss (negsuc i) = err (invalid_index (negsuc i))

-- `lastTarget`; `none` is the panic with no state.
unfoldable pub last_target : List ℕ → Option ℕ
last_target [] = none
last_target (p ∷ []) = some p
last_target (p ∷ q ∷ ps) = last_target (q ∷ ps)

abbrev positive : Option ℕ → Option ℤ
positive none = none
positive (some n) = if ltb n (2 ^ 63) then some (pos n) else none

abbrev negative : Option ℕ → Option ℤ
negative none = none
negative (some n) = if ltb (2 ^ 63) n then none else some (negated n)

-- `strconv.Atoi` with 64 bits
unfoldable pub atoi : Text → Option ℤ
unfolding parse_uint
atoi [] = none
atoi (c ∷ s) =
    if c == b'-'
    then negative (parse_uint 10 64 s)
    else if c == b'+'
    then positive (parse_uint 10 64 s)
    else positive (parse_uint 10 64 (c ∷ s))

-- The state that stands for the image with this name
abbrev pub unregistered_state : Text → List Range → DispatchState
unregistered_state name location = record {
  stage = record {
    name = [];
    commands = [];
    base_name = name;
    source_code = [];
    platform = [];
    location = location;
    comment = [];
  };
  base = none;
  deps = [];
  platform = none;
  stage_name = [];
  noinit = false;
  unregistered = true;
  ignore_cache = false;
  cmd_total = 0;
}

abbrev or_unregistered : DispatchStates → Text → List Range → Option ℕ → ℕ × DispatchStates
or_unregistered dss name location (some p) = (p, dss)
or_unregistered dss name location none = (next dss, allocate dss (unregistered_state name location))

-- The stage with the name, or a new state for the image
unfoldable pub state_of_name : DispatchStates → Text → List Range → ℕ × DispatchStates
unfolding find_state_by_name
state_of_name dss name location = or_unregistered dss name location (find_state_by_name dss name)

abbrev with_states : DispatchStates → Result ℕ → Result (List ℕ × DispatchStates)
with_states dss (ok p) = ok (p ∷ [], dss)
with_states dss (err e) = err e

abbrev one_source : ℕ × DispatchStates → Result (List ℕ × DispatchStates)
one_source (p, dss) = ok (p ∷ [], dss)

abbrev by_index : DispatchStates → Text → List Range → Option ℤ → Result (List ℕ × DispatchStates)
by_index dss name location none = one_source (state_of_name dss name location)
by_index dss name location (some i) = with_states dss (find_state_by_index dss i)

-- The source of `COPY --from`
unfoldable pub copy_sources : DispatchStates → Text → List Range → Result (List ℕ × DispatchStates)
unfolding atoi state_of_name find_state_by_index
copy_sources dss [] location = ok ([], dss)
copy_sources dss (c ∷ from) location = by_index dss (c ∷ from) location (atoi (c ∷ from))

-- `emptyImageName`
abbrev pub empty_image_name : Text
empty_image_name = codes "scratch"

abbrev mount_from : Text → Text
mount_from [] = empty_image_name
mount_from (c ∷ from) = c ∷ from

-- `detectRunMount` at the mounts of the command
unfoldable pub mount_sources : DispatchStates → List Mount → List ℕ × DispatchStates
unfolding state_of_name
mount_sources dss [] = ([], dss)
mount_sources dss (m ∷ ms) =
    let (p, dss') = state_of_name dss (mount_from m.from) [] in
    let (ps, dss'') = mount_sources dss' ms in (p ∷ ps, dss'')

-- `toCommand`: the pointers in `sources`
unfoldable pub to_command : DispatchStates → Command → Result (List ℕ × DispatchStates)
unfolding copy_sources mount_sources
to_command dss c = elim c.body [
  | copy s from chown chmod ↦ copy_sources dss from c.base.location
  | run r ↦ ok (mount_sources dss r.mounts)
  | _ ↦ ok ([], dss)
]

-- `d.deps[src] = struct{}{}`
abbrev insert_dep : List ℕ → ℕ → List ℕ
insert_dep deps p = if member deps p then deps else snoc deps p

abbrev add_dep : ℕ → DispatchState → DispatchState
add_dep p ds = record ds { deps = insert_dep ds.deps p }

abbrev register : DispatchStates → ℕ → Option DispatchState → DispatchStates
register dss p none = dss
register dss p (some ds) = if ds.unregistered then add_state dss p ds else dss

-- The loop over the sources of a command of the state `d`
unfoldable pub add_sources : DispatchStates → ℕ → List ℕ → DispatchStates
unfolding member modify get_elem? add_state
add_sources dss d [] = dss
add_sources dss d (p ∷ ps) =
    let linked = record dss { heap = modify dss.heap d (add_dep p) } in
    add_sources (register linked p (get_elem? linked.heap p)) d ps

-- The loop over the commands of the state `d`, with the sources of each
unfoldable pub add_commands :
    DispatchStates → ℕ → List Command → Result (List (List ℕ) × DispatchStates)
unfolding add_sources to_command
add_commands dss d [] = ok ([], dss)
add_commands dss d (c ∷ cs) = to_command dss c >>= λ (ps, dss').
    add_commands (add_sources dss' d ps) d cs >>= λ (rest, dss''). ok (ps ∷ rest, dss'')

abbrev commands_of : Option DispatchState → List Command
commands_of none = []
commands_of (some ds) = ds.stage.commands

-- `for _, d := range allDispatchStates.states`, over the states that are there when it begins: the
-- sources of the commands of each
unfoldable pub fill_dependencies :
    DispatchStates → List ℕ → Result (List (List (List ℕ)) × DispatchStates)
unfolding add_commands get_elem?
fill_dependencies dss [] = ok ([], dss)
fill_dependencies dss (d ∷ ds) =
    add_commands dss d (commands_of (get_elem? dss.heap d)) >>= λ (sources, dss').
    fill_dependencies dss' ds >>= λ (rest, dss''). ok (sources ∷ rest, dss'')

-- The fields `deps` and `base` of the object at a pointer
abbrev pub deps_of : Option DispatchState → List ℕ
deps_of none = []
deps_of (some ds) = ds.deps

abbrev pub base_of : Option DispatchState → Option ℕ
base_of none = none
base_of (some ds) = ds.base

unfoldable pub deps_at : DispatchStates → ℕ → List ℕ
unfolding get_elem?
deps_at dss p = deps_of (get_elem? dss.heap p)

unfoldable pub base_at : DispatchStates → ℕ → Option ℕ
unfolding get_elem?
base_at dss p = base_of (get_elem? dss.heap p)

abbrev name_of : Option DispatchState → Text
name_of none = []
name_of (some ds) = ds.stage_name

unfoldable pub name_at : DispatchStates → ℕ → Text
unfolding get_elem?
name_at dss p = name_of (get_elem? dss.heap p)

abbrev pub or_circular :
    List (List (List ℕ))
    → DispatchStates
    → Option (Option ℕ)
    → Result (List (List (List ℕ)) × DispatchStates)
or_circular sources dss none = err out_of_fuel
or_circular sources dss (some none) = ok (sources, dss)
or_circular sources dss (some (some p)) = err (circular_dependency (name_at dss p))

abbrev pub check_cycles :
    List (List (List ℕ)) × DispatchStates → Result (List (List (List ℕ)) × DispatchStates)
check_cycles (sources, dss) =
    or_circular sources dss
      (has_circular_dependency (deps_at dss) (suc (length dss.heap)) dss.states)

-- The part of `Dockerfile2LLB` that fills in the dependencies and refuses cycles
unfoldable pub check_stages : DispatchStates → Result (List (List (List ℕ)) × DispatchStates)
unfolding fill_dependencies has_circular_dependency deps_at name_at
check_stages dss = fill_dependencies dss dss.states >>= check_cycles
