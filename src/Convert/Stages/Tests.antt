-- ===== src/Convert/Stages/Tests.antt =====
-- Stages, their sources and their cycles at concrete inputs.
use dockerfile.Base.{
  ℕ, ◌<◌, List, [], ◌∷◌, Bool, true, false, ◌==◌, Option, none, some, ◌≡◌, ◌↔◌, refl, subst, inl,
  inr, arith, if◌then◌else◌, ◌&&◌,
}
use dockerfile.Base.Text.{Text, codes, text_eq, to_lower, equal_fold}
use dockerfile.Shell.Lex.{new_lex}
use dockerfile.Instructions.Commands.{Stage, Command, copy, run}
use dockerfile.Convert.Error.{Result, ok, err, circular_dependency}
use dockerfile.Convert.Graph.{
  member, Edge, has_circular_dependency, is_reachable, visit, visit_deps, any_reaches, delete,
}
use dockerfile.Convert.Graph.Cycles.{Verdict, has_circular_dependency-decides}
use dockerfile.Convert.Graph.Members.{member-cons, not-member-nil, member-head}
use dockerfile.Convert.Graph.Ways.{Leads, edge, more, Ends, ends}
use dockerfile.Convert.Graph.Reaching.{links, Reaches, is_reachable-decides, is_reachable-never}
use dockerfile.Convert.States.{
  DispatchState, DispatchStates, allocate, add_state, base_at, deps_at, find_state_by_name,
  get_elem?, check_stages,
}
use dockerfile.Convert.States.Valid.{IsValid}
use dockerfile.Convert.States.Filled.{Ok}
use dockerfile.Convert.States.Outcome.{Outcome, check_stages-Outcome}
use dockerfile.Convert.States.Names.{AreLower, is_named, find_state_by_name-add_state}
use dockerfile.Convert.Stages.{Setting, Prepared, prepare, new_state}
use dockerfile.Convert.Stages.Sound.{AllEnd, prepare-AllEnd}

abbrev copies_from : Text → Command
copies_from from = record {
  base = record { code = codes "COPY"; name = codes "copy"; location = [] };
  body =
      copy (record { dest_path = codes "/"; source_paths = codes "f" ∷ []; source_contents = [] })
        from [] [];
}

abbrev stage_named : Text → Text → List Command → Stage
stage_named name base cs = record {
  name = name;
  commands = cs;
  base_name = base;
  source_code = [];
  platform = [];
  location = [];
  comment = [];
}

abbrev setting : Setting
setting = record {
  lex = new_lex b'\\';
  meta_args = [];
  build_args = [];
  caps = none;
  ignore_cache = none;
  context_by_name = λ name. ok false;
  parse_platform = λ s. none;
}

-- `a` copies from `b`, which is built from it.
abbrev base_cycle : List Stage
base_cycle =
    stage_named (codes "a") (codes "scratch") (copies_from (codes "b") ∷ [])
    ∷ stage_named (codes "b") (codes "a") []
    ∷ stage_named (codes "c") (codes "busybox") []
    ∷ []

abbrev reached : Result Prepared → Option (Option ℕ × List ℕ × Option Bool × Option Bool)
reached (ok p) = some (
  base_at p.states 1,
  deps_at p.states 0,
  is_reachable (deps_at p.states) (base_at p.states) 9 0 p.target,
  is_reachable (deps_at p.states) (base_at p.states) 9 2 p.target,
)
reached (err e) = none

-- The check passes it, and whether `c` is needed for `b` is never answered.
run_base_cycle :
    reached (prepare setting (codes "B") base_cycle) ≡ some (some 0, 1 ∷ [], some true, none)
unfolding prepare is_reachable base_at deps_at text_eq new_lex visit visit_deps any_reaches
run_base_cycle = refl

abbrev failure : Result Prepared → Option Text
failure (err (circular_dependency name)) = some name
failure _ = none

run_circular :
    failure
      (prepare setting [] (stage_named (codes "a") (codes "x") (copies_from (codes "0") ∷ []) ∷ []))
    ≡ some (codes "a")
unfolding prepare text_eq new_lex visit visit_deps
run_circular = refl

prepare-AllEnd_example :
    Ok (λ r. IsValid r.states × AllEnd r.states) (prepare setting (codes "B") base_cycle)
prepare-AllEnd_example = prepare-AllEnd setting (codes "B") base_cycle

abbrev mounts_from : Text → Command
mounts_from from = record {
  base = record { code = codes "RUN"; name = codes "run"; location = [] };
  body = run (record {
    cmdline = record { cmd_line = some (codes "x" ∷ []); files = []; prepend_shell = true };
    flags_used = codes "mount" ∷ [];
    mount_flags = [];
    mounts =
        record {
          mount_type = codes "bind";
          from = from;
          source = [];
          target = codes "/t";
          read_only = true;
          size_limit = 0;
          cache_id = [];
          cache_sharing = [];
          required = false;
          mode = none;
          uid = none;
          gid = none;
        }
        ∷ [];
    network = [];
    security = none;
  });
}

-- `a` copies from an image, and `b` from `a` by its number and in other letters.
abbrev copying : DispatchStates
copying = record {
  heap =
      new_state (stage_named (codes "a") (codes "x") (copies_from (codes "y") ∷ [])) (codes "a")
        none false
      ∷ new_state
          (stage_named (codes "b") (codes "x")
            (copies_from (codes "0") ∷ mounts_from (codes "A") ∷ mounts_from (codes "y") ∷ []))
          (codes "b") none false
      ∷ [];
  states = 0 ∷ 1 ∷ [];
  states_by_name = (codes "a", 0) ∷ (codes "b", 1) ∷ [];
}

abbrev sources_of :
    Result (List (List (List ℕ)) × DispatchStates) → Option (List (List (List ℕ)) × List ℕ)
sources_of (ok (sources, dss)) = some (sources, dss.states)
sources_of (err e) = none

run_copying :
    sources_of (check_stages copying)
    ≡ some (((2 ∷ []) ∷ []) ∷ ((0 ∷ []) ∷ (0 ∷ []) ∷ (3 ∷ []) ∷ []) ∷ [], 0 ∷ 1 ∷ 2 ∷ 3 ∷ [])
unfolding check_stages text_eq visit visit_deps delete
run_copying = refl

check_stages-Outcome_example : Outcome copying (check_stages copying)
check_stages-Outcome_example =
    check_stages-Outcome copying
      (record {
        states = (omega arith, (omega arith, tt));
        names = (omega arith, (omega arith, tt));
        linked = ((tt, tt), ((tt, tt), tt));
      })
      ((λ e. absurd (cc)), ((λ e. absurd (cc)), tt))

abbrev state_c : DispatchState
state_c = new_state (stage_named (codes "c") (codes "B") []) (codes "c") none false

-- `c` is from a stage that is written in other letters.
abbrev building : DispatchStates
building = allocate copying state_c

find_state_by_name-add_state_example :
    (find_state_by_name (add_state building 2 state_c) (codes "A") ≡ (
      if is_named state_c.stage.name && equal_fold (codes "A") state_c.stage.name
      then some 2
      else find_state_by_name building (codes "A")))
    × (base_at (add_state building 2 state_c) 2 ≡ (
        if text_eq (to_lower state_c.stage.base_name) state_c.stage.base_name
        then find_state_by_name building state_c.stage.base_name
        else none))
    × AreLower (add_state building 2 state_c).states_by_name
unfolding get_elem? to_lower
find_state_by_name-add_state_example =
    find_state_by_name-add_state building 2 state_c (codes "A") (refl, (refl, tt)) refl refl

run_building :
    (base_at (add_state building 2 state_c) 2 ≡ none)
    × (find_state_by_name building (codes "B") ≡ some 1)
unfolding add_state base_at find_state_by_name text_eq
run_building = (refl, refl)

-- 0 depends on 1, and 1 on 2; 1 is built from 3.
abbrev chain : ℕ → List ℕ
chain p = if p == 0 then 1 ∷ [] else if p == 1 then 2 ∷ [] else []

abbrev chain_base : ℕ → Option ℕ
chain_base p = if p == 1 then some 3 else none

chain-lt : (s d : ℕ) → Edge (links chain chain_base 3) s d → d < 4
unfolding member
chain-lt s d e = ground arith

deps-lt : (s d : ℕ) → Edge chain s d → d < 4
unfolding member
deps-lt s d e = ground arith

has_circular_dependency-decides_example :
    Verdict chain (0 ∷ 1 ∷ []) (has_circular_dependency chain 5 (0 ∷ 1 ∷ []))
has_circular_dependency-decides_example =
    has_circular_dependency-decides chain 4 deps-lt 5 (0 ∷ 1 ∷ []) (omega arith) (omega arith)

abbrev chain_links : ℕ → List ℕ
chain_links = links chain chain_base 3

last-Ends : (p : ℕ) → chain_links p ≡ [] → Ends chain_links p
last-Ends p h = ends p (λ d e. absurd (not-member-nil d (subst (λ ds. member ds d ≡ true) h e)))

second-Ends : Ends chain_links 1
second-Ends = ends 1 (λ d e. elim (member-cons 3 (2 ∷ []) d e) [
  | inl same ↦ subst (Ends chain_links) same (last-Ends 3 refl)
  | inr h ↦ elim (member-cons 2 [] d h) [
    | inl same ↦ subst (Ends chain_links) same (last-Ends 2 refl)
    | inr k ↦ absurd (not-member-nil d k)
  ]
])

first-Ends : Ends chain_links 0
first-Ends = ends 0 (λ d e. elim (member-cons 1 [] d e) [
  | inl same ↦ subst (Ends chain_links) same second-Ends
  | inr k ↦ absurd (not-member-nil d k)
])

is_reachable-decides_example :
    (b : Bool) × (is_reachable chain chain_base 5 3 0 ≡ some b)
    × ((b ≡ true) ↔ Reaches chain chain_base 3 0)
is_reachable-decides_example =
    is_reachable-decides chain chain_base 3 4 chain-lt 5 0 (omega arith) (omega arith) first-Ends

-- 0 depends on 1, which is built from it.
abbrev turn_deps : ℕ → List ℕ
turn_deps p = if p == 0 then 1 ∷ [] else []

abbrev turn_base : ℕ → Option ℕ
turn_base p = if p == 1 then some 0 else none

abbrev turn_links : ℕ → List ℕ
turn_links = links turn_deps turn_base 2

turn-lt : (s d : ℕ) → s < 2 → Edge turn_links s d → d < 2
unfolding member
turn-lt s d h e = ground arith

Leads-lt : {s d : ℕ} → s < 2 → Leads turn_links s d → d < 2
Leads-lt h (edge e) = turn-lt _ _ h e
Leads-lt h (more {d} l e) = turn-lt d _ (Leads-lt h l) e

not_reached : ¬ Reaches turn_deps turn_base 2 1
not_reached (inl same) = absurd (omega arith)
not_reached (inr l) = let h = Leads-lt (omega arith) l in absurd (omega arith)

turn_cycle : Leads turn_links 1 1
turn_cycle = more (edge (member-head 0 [] 0 refl)) (member-head 1 [] 1 refl)

is_reachable-never_example : is_reachable turn_deps turn_base 100 2 1 ≡ none
is_reachable-never_example =
    is_reachable-never turn_deps turn_base 2 100 1 1 (inl refl) turn_cycle not_reached
