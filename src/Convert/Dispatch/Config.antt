-- ===== src/Convert/Dispatch/Config.antt =====
-- dockerfile2llb/convert.go: the commands that change the configuration of the image.
use dockerfile.Base.{
  List, [], ◌∷◌, ◌++◌, Bool, true, false, ◌&&◌, not, Option, none, some, snoc, map, if◌then◌else◌,
}
use dockerfile.Base.Text.{Text, codes, text_eq, join}
use dockerfile.Parser.Error.{Range}
use dockerfile.Shell.Env.{Env, set_env}
use dockerfile.Shell.Lex.{Lex}
use dockerfile.Shell.Quote.{process_words}
use dockerfile.Shell.Quote
use dockerfile.Instructions.Commands.{
  KeyValuePair, KeyValuePairOptional, HealthConfig, ShellDependantCmdLine,
}
use dockerfile.Convert.Error.{Result, ok, err, ◌>>=◌, empty_volume, bad_signal, lexing, out_of_fuel}
use dockerfile.Convert.Platform.{Platform}
use dockerfile.Convert.Image.{
  Image, ImageConfig, commit_to_history, in_shell, insert_key, insert_keys,
}
use dockerfile.Convert.Environment.{add_env, entry, set_kv_value, uppercase_cmd}
use dockerfile.Convert.Messages.{show_list, quote_list, process_cmd_env}
use dockerfile.Convert.Dispatch.State.{
  Llb, Dispatched, DispatchOpt, prefix_command, use_file_op, custom_name, at_location,
}
use dockerfile.Paths.{is_abs, join_paths}

-- the words of a `CmdLine`, which may be nil
abbrev pub words : Option (List Text) → List Text
words none = []
words (some ws) = ws

unfoldable pub pairs_message : List KeyValuePair → Text
pairs_message [] = []
pairs_message (e ∷ es) = codes " " ++ (entry e.key e.value ++ pairs_message es)

unfoldable pub put_labels : List (Text × Text) → List KeyValuePair → List (Text × Text)
unfolding set_env
put_labels labels [] = labels
put_labels labels (v ∷ vs) = put_labels (set_env labels v.key v.value) vs

unfoldable pub add_envs : List Text → List KeyValuePair → List Text
unfolding add_env
add_envs env [] = env
add_envs env (e ∷ es) = add_envs (add_env env e.key e.value) es

abbrev pub set_config : Image → ImageConfig → Image
set_config img config = record img { config = config }

abbrev pub command_args : Image → ShellDependantCmdLine → List Text
command_args img c = if c.prepend_shell then in_shell img (words c.cmd_line) else words c.cmd_line

abbrev pub of_words : Quote.Result (List Text) → Result (List Text)
of_words (Quote.value ws) = ok ws
of_words (Quote.failure e) = err (lexing e)
of_words Quote.unfinished = err out_of_fuel

unfoldable pub expand_ports : Lex → List Text → List Text → Result (List Text)
unfolding process_words
expand_ports lex env [] = ok []
expand_ports lex env (p ∷ ps) =
    of_words (process_words lex p env) >>= λ ws. expand_ports lex env ps >>= λ rest. ok (ws ++ rest)

-- `%v` of a `map[nat.Port]struct{}`
abbrev pub show_ports : List Text → Text
show_ports ps = codes "map[" ++ (join (map (λ p. p ++ codes ":{}") ps) (codes " ") ++ codes "]")

unfoldable pub add_volumes : List Text → List Text → Result (List Text)
unfolding insert_key
add_volumes volumes [] = ok volumes
add_volumes volumes ([] ∷ vs) = err empty_volume
add_volumes volumes ((c ∷ v) ∷ vs) = add_volumes (insert_key volumes (c ∷ v)) vs

-- The value that the global arguments give, the last one if there are several
unfoldable pub meta_value : List KeyValuePairOptional → Text → Option Text → Option Text
unfolding text_eq
meta_value [] key found = found
meta_value (ma ∷ mas) key found =
    meta_value mas key (if text_eq ma.key key then ma.value else found)

abbrev pub with_meta : List KeyValuePairOptional → KeyValuePairOptional → KeyValuePairOptional
with_meta meta arg = elim arg.value [
  | none ↦ record arg { value = meta_value meta arg.key none }
  | some v ↦ arg
]

-- `buildArg`
unfoldable pub build_arg :
    List KeyValuePairOptional → Env → KeyValuePairOptional → KeyValuePairOptional
unfolding set_kv_value meta_value
build_arg meta values arg = with_meta meta (set_kv_value arg values)

abbrev pub arg_message : KeyValuePairOptional → Text
arg_message arg = elim arg.value [ none ↦ arg.key | some v ↦ entry arg.key v ]

abbrev pub platform_or : Platform → Option Platform → Platform
platform_or target none = target
platform_or target (some p) = p

-- The path of `dispatchWorkdir`
unfoldable pub working_dir : Text → Text → Text
unfolding join_paths
working_dir current path =
    if is_abs path then path else join_paths (codes "/" ∷ current ∷ path ∷ [])

abbrev pub user_option : Text → Option Text
user_option [] = none
user_option (c ∷ s) = some (c ∷ s)

module _ (llb : Llb) where
  -- `commitToHistory(&d.image, msg, withLayer, st)`, as the last thing that a command does
  unfoldable pub commit : Dispatched llb → Text → Bool → Bool → Result (Dispatched llb)
  unfolding commit_to_history
  commit d msg with_layer with_state =
      ok (record d { image = commit_to_history d.image msg with_layer with_state })

  abbrev pub configure : Dispatched llb → ImageConfig → Dispatched llb
  configure d config = record d { image = set_config d.image config }

  unfoldable pub state_envs : llb.State → List KeyValuePair → llb.State
  state_envs st [] = st
  state_envs st (e ∷ es) = state_envs (llb.add_env st e.key e.value) es

  -- `dispatchEnv`
  unfoldable pub dispatch_env : Dispatched llb → List KeyValuePair → Result (Dispatched llb)
  unfolding state_envs add_envs pairs_message commit
  dispatch_env d es =
      commit
        (record (configure d (record d.image.config { env = add_envs d.image.config.env es })) {
          state = state_envs d.state es;
        })
        (codes "ENV" ++ pairs_message es) false false

  -- `dispatchMaintainer`
  unfoldable pub dispatch_maintainer : Dispatched llb → Text → Result (Dispatched llb)
  unfolding commit
  dispatch_maintainer d who =
      commit (record d { image = record d.image { author = who } }) (codes "MAINTAINER " ++ who)
        false false

  -- `dispatchLabel`
  unfoldable pub dispatch_label : Dispatched llb → List KeyValuePair → Result (Dispatched llb)
  unfolding put_labels pairs_message commit
  dispatch_label d ls =
      commit (configure d (record d.image.config { labels = put_labels d.image.config.labels ls }))
        (codes "LABEL" ++ pairs_message ls) false false

  -- `dispatchOnbuild`
  unfoldable pub dispatch_onbuild : Dispatched llb → Text → Result (Dispatched llb)
  dispatch_onbuild d expression =
      ok
        (configure d (record d.image.config { on_build = snoc d.image.config.on_build expression }))

  -- `dispatchCmd`
  unfoldable pub dispatch_cmd : Dispatched llb → ShellDependantCmdLine → Result (Dispatched llb)
  unfolding commit
  dispatch_cmd d c =
      let args = command_args d.image c in
      commit
        (record (configure d (record d.image.config { cmd = args; args_escaped = true })) {
          cmd_set = true;
        })
        (codes "CMD " ++ quote_list args) false false

  -- `dispatchEntrypoint`
  unfoldable pub dispatch_entrypoint :
      Dispatched llb → ShellDependantCmdLine → Result (Dispatched llb)
  unfolding commit
  dispatch_entrypoint d c =
      let args = command_args d.image c in
      let kept = if d.cmd_set then d.image.config.cmd else [] in
      commit (configure d (record d.image.config { entrypoint = args; cmd = kept }))
        (codes "ENTRYPOINT " ++ quote_list args) false false

  -- `dispatchHealthcheck`
  unfoldable pub dispatch_healthcheck : Dispatched llb → HealthConfig → Result (Dispatched llb)
  unfolding commit
  dispatch_healthcheck d h =
      commit (configure d (record d.image.config { healthcheck = some h }))
        (codes "HEALTHCHECK " ++ llb.quote_health h) false false

  abbrev pub expose : Dispatched llb → List Text → Result (Dispatched llb)
  expose d ps =
      commit
        (configure d
          (record d.image.config { exposed_ports = insert_keys d.image.config.exposed_ports ps }))
        (codes "EXPOSE " ++ show_ports ps) false false

  -- `dispatchExpose`
  unfoldable pub dispatch_expose : Dispatched llb → List Text → Lex → Result (Dispatched llb)
  unfolding expand_ports insert_keys commit
  dispatch_expose d ports lex = llb.env d.state >>= λ env.
      expand_ports lex env ports >>= λ ps. llb.parse_port_specs ps >>= λ specs. expose d specs

  -- `dispatchUser`
  unfoldable pub dispatch_user : Dispatched llb → Text → Bool → Result (Dispatched llb)
  unfolding commit
  dispatch_user d name commits =
      let d' = record (configure d (record d.image.config { user = name })) {
        state = llb.user d.state name;
      } in
      if commits then commit d' (codes "USER " ++ name) false false else ok d'

  -- `dispatchVolume`
  unfoldable pub dispatch_volume : Dispatched llb → List Text → Result (Dispatched llb)
  unfolding add_volumes commit
  dispatch_volume d vs = add_volumes d.image.config.volumes vs >>= λ volumes.
      commit (configure d (record d.image.config { volumes = volumes }))
        (codes "VOLUME " ++ show_list vs) false false

  -- `dispatchStopSignal`
  unfoldable pub dispatch_stop_signal : Dispatched llb → Text → Result (Dispatched llb)
  unfolding commit
  dispatch_stop_signal d s =
      if llb.is_signal s
      then commit (configure d (record d.image.config { stop_signal = s }))
          (codes "STOPSIGNAL " ++ s) false false
      else err (bad_signal s)

  -- `dispatchShell`
  unfoldable pub dispatch_shell : Dispatched llb → List Text → Result (Dispatched llb)
  unfolding commit
  dispatch_shell d s =
      commit (configure d (record d.image.config { shell = s })) (codes "SHELL " ++ show_list s)
        false false

  abbrev pub add_arg_env : llb.State → KeyValuePairOptional → llb.State
  add_arg_env st arg = elim arg.value [ none ↦ st | some v ↦ llb.add_env st arg.key v ]

  unfoldable pub add_args :
      List KeyValuePairOptional → Env → Dispatched llb → List KeyValuePairOptional → Dispatched llb
  unfolding build_arg
  add_args meta values d [] = d
  add_args meta values d (arg ∷ args) =
      let b = build_arg meta values arg in
      add_args meta values
        (record d { state = add_arg_env d.state b; build_args = snoc d.build_args b }) args

  -- `dispatchArg`
  unfoldable pub dispatch_arg :
      Dispatched llb
      → List KeyValuePairOptional
      → List KeyValuePairOptional
      → Env
      → Result (Dispatched llb)
  unfolding add_args join commit
  dispatch_arg d args meta values =
      commit (add_args meta values d args) (codes "ARG " ++ join (map arg_message args) (codes " "))
        false false

  -- `d.state.File(llb.Mkdir(...))`, with the command's source and lines
  abbrev pub make_dir :
      Dispatched llb → DispatchOpt llb → Text → Text → List Range → List Text → Dispatched llb
  make_dir d opt wd code location env =
      let (name, d') =
        prefix_command llb d (uppercase_cmd (process_cmd_env opt.shlex code env))
          (some (platform_or opt.target_platform d.platform)) in
      record d' {
        state =
            llb.mkdir d'.state wd (user_option d'.image.config.user)
              (custom_name name ∷ at_location location ∷ []);
      }

  -- `dispatchWorkdir` with `commit` false, which the image's own directory goes through
  unfoldable pub enter_workdir : Dispatched llb → Text → Dispatched llb
  unfolding working_dir
  enter_workdir d path =
      record (configure d
        (record d.image.config { working_dir = working_dir d.image.config.working_dir path })) {
          state = llb.dir d.state path;
        }

  abbrev pub finish_workdir :
      DispatchOpt llb → Text → List Range → Text → Dispatched llb → Result (Dispatched llb)
  finish_workdir opt code location wd d =
      if not (text_eq wd (codes "/")) && use_file_op opt.build_arg_values opt.caps
      then (llb.env d.state >>= λ env.
          commit (make_dir d opt wd code location env) (codes "WORKDIR " ++ wd) true false)
      else commit d (codes "WORKDIR " ++ wd) false false

  -- `dispatchWorkdir` with `commit` true and an `opt`
  unfoldable pub dispatch_workdir :
      Dispatched llb → DispatchOpt llb → Text → List Range → Text → Result (Dispatched llb)
  unfolding enter_workdir use_file_op prefix_command uppercase_cmd process_cmd_env commit text_eq
  dispatch_workdir d opt code location path =
      let d' = enter_workdir d path in
      finish_workdir opt code location d'.image.config.working_dir d'
