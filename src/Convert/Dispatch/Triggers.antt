-- ===== src/Convert/Dispatch/Triggers.antt =====
-- dockerfile2llb/convert.go: `dispatchOnBuildTriggers`, and what is done to a stage before and behind its
-- commands. A trigger is read by the package parser as a file of its own.
use dockerfile.Base.{
  List, [], ◌∷◌, ◌++◌, Bool, true, false, Option, none, some, snoc, if◌then◌else◌,
}
use dockerfile.Base.Text.{Text, codes}
use dockerfile.Shell.Env.{build_envs, get_env}
use dockerfile.Parser.Ast.{Node}
use dockerfile.Parser.Lines.{scan_lines}
use dockerfile.Parser.Parse.{parse}
use dockerfile.Instructions.Stages.{parse_command, Other}
use dockerfile.Convert.Error.{Result, ok, err, ◌>>=◌, of_source, single_expression}
use dockerfile.Convert.Environment.{parse_key_value}
use dockerfile.Convert.States.{DispatchStates, to_command}
use dockerfile.Convert.Dispatch.State.{Llb, Dispatched, DispatchOpt}
use dockerfile.Convert.Dispatch.Config.{configure, enter_workdir, dispatch_user}
use dockerfile.Convert.Dispatch.Step.{dispatch}

abbrev only_child : List Node → Result Node
only_child (n ∷ []) = ok n
only_child _ = err single_expression

module _ (llb : Llb) (enabled : Bool) (decode : Text → Option (List (Option Text)))
    (other : Other) where
  -- A round of `dispatchOnBuildTriggers`. The objects that `toCommand` makes for it are in no list of
  -- states.
  unfoldable pub dispatch_trigger :
      Dispatched llb
      → DispatchOpt llb
      → DispatchStates
      → Text
      → Result (Dispatched llb × DispatchStates)
  unfolding parse scan_lines parse_command to_command dispatch
  dispatch_trigger d opt dss trigger =
      of_source (parse enabled decode (record { lines = scan_lines trigger; failure = none }))
      >>= λ doc. only_child doc.ast.children >>= λ n. of_source (parse_command other n) >>= λ c.
          to_command dss c >>= λ (sources, dss').
          dispatch llb other.read_csv other.mem_bytes d opt c sources >>= λ d'. ok (d', dss')

  -- `dispatchOnBuildTriggers`
  unfoldable pub dispatch_triggers :
      Dispatched llb
      → DispatchOpt llb
      → DispatchStates
      → List Text
      → Result (Dispatched llb × DispatchStates)
  unfolding dispatch_trigger
  dispatch_triggers d opt dss [] = ok (d, dss)
  dispatch_triggers d opt dss (t ∷ ts) =
      dispatch_trigger d opt dss t >>= λ (d', dss'). dispatch_triggers d' opt dss' ts

module _ (llb : Llb) (default_path : Text → Text) where
  abbrev has_path : List Text → Bool
  has_path env = elim (get_env (build_envs env) (codes "PATH")) [ none ↦ false | some v ↦ true ]

  abbrev os_of : Dispatched llb → Text
  os_of d = elim d.platform [ none ↦ [] | some p ↦ p.os ]

  -- The variable PATH is always set.
  unfoldable pub ensure_path : Dispatched llb → Dispatched llb
  unfolding get_env build_envs
  ensure_path d =
      let config = d.image.config in
      if has_path config.env
      then d
      else configure llb d
          (record config { env = snoc config.env (codes "PATH=" ++ default_path (os_of d)) })

  unfoldable pub add_image_env : llb.State → List Text → llb.State
  unfolding parse_key_value
  add_image_env st [] = st
  add_image_env st (e ∷ es) =
      let (k, v) = parse_key_value e in add_image_env (llb.add_env st k v) es

  abbrev enter : Dispatched llb → Dispatched llb
  enter d = elim d.image.config.working_dir [ [] ↦ d | c ∷ s ↦ enter_workdir llb d (c ∷ s) ]

  abbrev become : Dispatched llb → Result (Dispatched llb)
  become d = elim d.image.config.user [ [] ↦ ok d | c ∷ s ↦ dispatch_user llb d (c ∷ s) false ]

  -- The state of a stage before its commands, from the image that it is built on
  unfoldable pub begin_stage : Dispatched llb → Result (Dispatched llb)
  unfolding ensure_path add_image_env enter_workdir dispatch_user
  begin_stage d =
      let d' = ensure_path d in
      become (enter (record d' { state = add_image_env d'.state d'.image.config.env }))
