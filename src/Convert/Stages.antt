-- ===== src/Convert/Stages.antt =====
-- dockerfile2llb/convert.go: the first part of `Dockerfile2LLB`, from the arguments to the check for cycles.
-- Named contexts and the parser of platforms are parameters.
pub mod Sound
mod Tests
use dockerfile.Base.{
  ℕ, zero, suc, ◌+◌, List, [], ◌∷◌, ◌++◌, Bool, true, false, not, ◌||◌, ◌&&◌, Option, none, some,
  snoc, length, map, if◌then◌else◌,
}
use dockerfile.Base.Text.{Text, codes, text_eq, equal_fold}
use dockerfile.Shell.Env.{Env}
use dockerfile.Shell.Lex.{Lex}
use dockerfile.Shell.Quote.{process_word_with_map}
use dockerfile.Shell.Quote
use dockerfile.Instructions.Commands.{
  Stage, Command, Body, KeyValuePairOptional, add, copy, run, workdir, arg,
}
use dockerfile.Convert.Error.{
  Error, Result, ok, err, ◌>>=◌, lexing, out_of_fuel, blank_base, bad_platform,
  bad_platform_argument, target_not_found, no_state, at,
}
use dockerfile.Convert.Environment.{set_kv_value, meta_args_to_map}
use dockerfile.Convert.Platform.{Platform}
use dockerfile.Convert.Messages.{decimal}
use dockerfile.Convert.States.{
  DispatchState, DispatchStates, new_dispatch_states, allocate, next, add_state, modify, get_elem?,
  base_at, find_state_by_name, last_target, check_stages, empty_image_name,
}
use dockerfile.Convert.Dispatch.State.{Caps, use_file_op}

abbrev pub of_word : Quote.Result Text → Result Text
of_word (Quote.value w) = ok w
of_word (Quote.failure e) = err (lexing e)
of_word Quote.unfinished = err out_of_fuel

-- A value that cannot be expanded becomes empty, since the error is dropped.
abbrev pub or_nothing : Quote.Result Text → Text
or_nothing (Quote.value w) = w
or_nothing _ = []

abbrev pub expand_value :
    Lex → List KeyValuePairOptional → KeyValuePairOptional → KeyValuePairOptional
expand_value lex args a = elim a.value [
  | none ↦ a
  | some v ↦ record a {
    value = some (or_nothing (process_word_with_map lex v (meta_args_to_map args)));
  }
]

-- The loop over the arguments of a global ARG
unfoldable pub add_meta_args :
    Lex → Env → List KeyValuePairOptional → List KeyValuePairOptional → List KeyValuePairOptional
unfolding process_word_with_map meta_args_to_map set_kv_value
add_meta_args lex values args [] = args
add_meta_args lex values args (a ∷ more) =
    add_meta_args lex values (snoc args (set_kv_value (expand_value lex args a) values)) more

abbrev pub args_of : Body → List KeyValuePairOptional
args_of (arg args) = args
args_of _ = []

-- `optMetaArgs` behind the loop over the global commands, from the arguments of the platform
unfoldable pub all_meta_args :
    Lex → Env → List KeyValuePairOptional → List Command → List KeyValuePairOptional
unfolding add_meta_args
all_meta_args lex values args [] = args
all_meta_args lex values args (c ∷ cs) =
    all_meta_args lex values (add_meta_args lex values args (args_of c.body)) cs

-- The steps that a command counts for
abbrev pub steps_of : Bool → Body → ℕ
steps_of file_op (add c chown chmod) = 1
steps_of file_op (copy c from chown chmod) = 1
steps_of file_op (run r) = 1
steps_of file_op (workdir path) = if file_op then 1 else 0
steps_of file_op _ = 0

unfoldable pub count_steps : Bool → List Command → ℕ
count_steps file_op [] = 0
count_steps file_op (c ∷ cs) = steps_of file_op c.body + count_steps file_op cs

abbrev pub has_base : Option ℕ → Bool
has_base none = false
has_base (some b) = true

abbrev pub base_steps : Text → Option ℕ → ℕ
base_steps name base = if not (text_eq name empty_image_name) && not (has_base base) then 1 else 0

abbrev pub names_stage : Text → List Text → Bool
names_stage name [] = false
names_stage name (n ∷ ns) = equal_fold n name || names_stage name ns

abbrev pub is_named : Text → Bool
is_named [] = false
is_named (c ∷ s) = true

-- `opt.IgnoreCache` is `none` for nil.
unfoldable pub ignores_cache : Option (List Text) → Text → Bool
unfolding equal_fold
ignores_cache none name = false
ignores_cache (some []) name = true
ignores_cache (some (n ∷ ns)) name = is_named name && names_stage name (n ∷ ns)

-- What of the options and of other packages the loop needs. `context_by_name` tells whether there is a
-- state for the name.
pub record Setting : Type 0 where
  pub lex : Lex
  pub meta_args : List KeyValuePairOptional
  pub build_args : Env
  pub caps : Option Caps
  pub ignore_cache : Option (List Text)
  pub context_by_name : Text → Result Bool
  pub parse_platform : Text → Option Platform

-- `opt.ContextByName`, which leaves out two names
unfoldable pub named_context : Setting → Text → Result Bool
unfolding equal_fold
named_context s name =
    if equal_fold name empty_image_name || equal_fold name (codes "context")
    then ok false
    else s.context_by_name name

abbrev pub empty_stage : Stage
empty_stage = record {
  name = [];
  commands = [];
  base_name = [];
  source_code = [];
  platform = [];
  location = [];
  comment = [];
}

abbrev pub new_state : Stage → Text → Option Platform → Bool → DispatchState
new_state st name platform noinit = record {
  stage = st;
  base = none;
  deps = [];
  platform = platform;
  stage_name = name;
  noinit = noinit;
  unregistered = false;
  ignore_cache = false;
  cmd_total = 0;
}

abbrev pub add_new : DispatchStates → DispatchState → DispatchStates
add_new dss ds = add_state (allocate dss ds) (next dss) ds

abbrev pub stage_name_of : ℕ → Text → Text
stage_name_of i [] = codes "stage-" ++ decimal i
stage_name_of i (c ∷ s) = c ∷ s

abbrev pub platform_of : Setting → Text → Result (Option Platform)
platform_of s [] = ok none
platform_of s (c ∷ v) = elim (process_word_with_map s.lex (c ∷ v) (meta_args_to_map s.meta_args)) [
  | Quote.value w ↦ elim (s.parse_platform w) [ none ↦ err (bad_platform w) | some p ↦ ok (some p) ]
  | Quote.failure e ↦ err (bad_platform_argument [] (lexing e))
  | Quote.unfinished ↦ err out_of_fuel
]

abbrev pub not_blank : Text → Text → Result Text
not_blank raw [] = err (blank_base raw)
not_blank raw (c ∷ name) = ok (c ∷ name)

abbrev pub found_context : Setting → Text → Result Bool
found_context s [] = ok false
found_context s (c ∷ name) = named_context s (c ∷ name)

abbrev pub count_state : Setting → Stage → Option ℕ → DispatchState → DispatchState
count_state s st base ds = record ds {
  cmd_total =
      base_steps st.base_name base + count_steps (use_file_op s.build_args s.caps) st.commands;
  ignore_cache = ignores_cache s.ignore_cache st.name;
}

-- The state of a stage, with the counts that are set once it is added
abbrev pub add_stage : Setting → ℕ → Stage → DispatchStates → Option Platform → DispatchStates
add_stage s i st dss platform =
    let added = add_new dss (new_state st (stage_name_of i st.name) platform false) in
    record added {
      heap = modify added.heap (next dss) (count_state s st (base_at added (next dss)));
    }

abbrev pub by_context : Setting → ℕ → Stage → DispatchStates → Bool → Result DispatchStates
by_context s i st dss true = ok (add_new dss (new_state empty_stage st.name none true))
by_context s i st dss false =
    at st.location (platform_of s st.platform) >>= λ platform. ok (add_stage s i st dss platform)

-- A round of the loop over the stages
unfoldable pub register_stage : Setting → ℕ → Stage → DispatchStates → Result DispatchStates
unfolding process_word_with_map meta_args_to_map named_context add_state modify base_at count_steps
    use_file_op ignores_cache decimal text_eq
register_stage s i st dss =
    at st.location
      (of_word (process_word_with_map s.lex st.base_name (meta_args_to_map s.meta_args)))
    >>= λ word. at st.location (not_blank st.base_name word) >>= λ name.
        found_context s st.name >>= λ found.
        by_context s i (record st { base_name = name }) dss found

unfoldable pub register_stages : Setting → ℕ → List Stage → DispatchStates → Result DispatchStates
unfolding register_stage
register_stages s i [] dss = ok dss
register_stages s i (st ∷ sts) dss =
    register_stage s i st dss >>= λ dss'. register_stages s (suc i) sts dss'

abbrev pub or_missing : Text → Option ℕ → Result ℕ
or_missing name none = err (target_not_found name)
or_missing name (some p) = ok p

abbrev pub or_panic : Option ℕ → Result ℕ
or_panic none = err no_state
or_panic (some p) = ok p

-- `target`
unfoldable pub target_of : DispatchStates → Text → Result ℕ
unfolding last_target find_state_by_name
target_of dss [] = or_panic (last_target dss.states)
target_of dss (c ∷ name) = or_missing (c ∷ name) (find_state_by_name dss (c ∷ name))

-- What the rest of `Dockerfile2LLB` goes by
pub record Prepared : Type 0 where
  pub target : ℕ
  pub sources : List (List (List ℕ))
  pub states : DispatchStates

abbrev pub clear_name : DispatchState → DispatchState
clear_name ds = record ds { stage_name = [] }

-- A single stage has no name in the steps.
abbrev pub unname : DispatchStates → List ℕ → DispatchStates
unname dss [] = dss
unname dss (p ∷ []) = record dss { heap = modify dss.heap p clear_name }
unname dss (p ∷ q ∷ ps) = dss

abbrev pub unname_single : DispatchStates → DispatchStates
unname_single dss = unname dss dss.states

-- From the stages to the check for cycles
unfoldable pub prepare : Setting → Text → List Stage → Result Prepared
unfolding register_stages target_of check_stages modify
prepare s target stages = register_stages s 0 stages new_dispatch_states >>= λ dss.
    target_of dss target >>= λ t. check_stages dss >>= λ (sources, checked).
    ok (record { target = t; sources = sources; states = unname_single checked })
