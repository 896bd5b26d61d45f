-- ===== src/Convert/Dispatch/Step.antt =====
-- dockerfile2llb/convert.go: `dispatch`, `dispatchOnBuildTriggers` and the loop over the commands of a
-- stage.
use dockerfile.Base.{ℕ, List, [], ◌∷◌, Bool, true, false, Option, if◌then◌else◌}
use dockerfile.Base.Text.{Text, codes}
use dockerfile.Parser.Error.{Error as SourceError, Result as SourceResult}
use dockerfile.Shell.Lex.{Lex}
use dockerfile.Shell.Quote.{process_word}
use dockerfile.Shell.Quote
use dockerfile.Instructions.Commands.{
  Command, Body, SourcesAndDest, env, label, maintainer, workdir, user, stop_signal, onbuild, add,
  copy, run, cmd, entrypoint, health_check, expose, volume, shell, arg,
}
use dockerfile.Instructions.Expand.{expand}
use dockerfile.Convert.Error.{Error, Result, ok, err, ◌>>=◌, of_source, at}
use dockerfile.Convert.Image.{insert_key}
use dockerfile.Convert.Dispatch.State.{Llb, Dispatched, DispatchOpt}
use dockerfile.Convert.Dispatch.Config.{
  dispatch_env, dispatch_label, dispatch_maintainer, dispatch_onbuild, dispatch_cmd,
  dispatch_entrypoint, dispatch_healthcheck, dispatch_expose, dispatch_user, dispatch_volume,
  dispatch_stop_signal, dispatch_shell, dispatch_arg, dispatch_workdir,
}
use dockerfile.Convert.Dispatch.Copy.{Origin, dispatch_copy, is_url}
use dockerfile.Convert.Dispatch.Run.{dispatch_run}
use dockerfile.Paths.{join_paths}

-- The sources that are taken from the build context: those of an ADD that are no URL
unfoldable pub add_paths : Bool → List Text → List Text → List Text
unfolding insert_key join_paths
add_paths is_add paths [] = paths
add_paths is_add paths (src ∷ srcs) =
    add_paths is_add
      (if (if is_add then is_url src else false)
        then paths
        else insert_key paths (join_paths (codes "/" ∷ src ∷ [])))
      srcs

-- The expander that `dispatch` hands to Expand
abbrev pub of_word : Quote.Result Text → SourceResult Text
of_word (Quote.value w) = SourceResult.ok w
of_word (Quote.failure e) = SourceResult.err (SourceError.lexing e)
of_word Quote.unfinished = SourceResult.err SourceError.out_of_fuel

module _ (llb : Llb) where
  abbrev pub note_paths : Bool → List Text → Dispatched llb → Result (Dispatched llb)
  note_paths is_add srcs d = ok (record d { ctx_paths = add_paths is_add d.ctx_paths srcs })

  -- The state that COPY reads, with the paths to note
  abbrev pub copy_from :
      Dispatched llb
      → DispatchOpt llb
      → SourcesAndDest
      → List ℕ
      → Origin
      → Text
      → Text
      → Result (Dispatched llb)
  copy_from d opt c [] origin chown chmod =
      dispatch_copy llb d opt c opt.build_context false origin chown chmod
      >>= note_paths false c.source_paths
  copy_from d opt c (p ∷ ps) origin chown chmod =
      dispatch_copy llb d opt c (opt.state_of p) false origin chown chmod

  -- The `switch` of `dispatch`, at a command that has been expanded
  unfoldable pub dispatch_body :
      Dispatched llb → DispatchOpt llb → List ℕ → Origin → Body → Result (Dispatched llb)
  unfolding dispatch_env dispatch_label dispatch_maintainer dispatch_onbuild dispatch_cmd
      dispatch_entrypoint dispatch_healthcheck dispatch_expose dispatch_user dispatch_volume
      dispatch_stop_signal dispatch_shell dispatch_arg dispatch_workdir dispatch_copy dispatch_run
      add_paths
  dispatch_body d opt sources origin (env es) = dispatch_env llb d es
  dispatch_body d opt sources origin (label ls no_expand) = dispatch_label llb d ls
  dispatch_body d opt sources origin (maintainer who) = dispatch_maintainer llb d who
  dispatch_body d opt sources origin (workdir path) =
      dispatch_workdir llb d opt origin.code origin.location path
  dispatch_body d opt sources origin (user name) = dispatch_user llb d name true
  dispatch_body d opt sources origin (stop_signal s) = dispatch_stop_signal llb d s
  dispatch_body d opt sources origin (onbuild e) = dispatch_onbuild llb d e
  dispatch_body d opt sources origin (add c chown chmod) =
      dispatch_copy llb d opt c opt.build_context true origin chown chmod
      >>= note_paths true c.source_paths
  dispatch_body d opt sources origin (copy c from chown chmod) =
      copy_from d opt c sources origin chown chmod
  dispatch_body d opt sources origin (run r) = dispatch_run llb d opt r sources origin
  dispatch_body d opt sources origin (cmd c) = dispatch_cmd llb d c
  dispatch_body d opt sources origin (entrypoint c) = dispatch_entrypoint llb d c
  dispatch_body d opt sources origin (health_check h) = dispatch_healthcheck llb d h
  dispatch_body d opt sources origin (expose ports) = dispatch_expose llb d ports opt.shlex
  dispatch_body d opt sources origin (volume vs) = dispatch_volume llb d vs
  dispatch_body d opt sources origin (shell s) = dispatch_shell llb d s
  dispatch_body d opt sources origin (arg args) =
      dispatch_arg llb d args opt.meta_args opt.build_arg_values

  abbrev pub word_in : Lex → List Text → Text → SourceResult Text
  word_in lex es word = of_word (process_word lex word es)

  -- The error of `Env` is that of the first word that is expanded.
  abbrev pub without_env : Error → SourceResult Command → Result Command
  without_env e (SourceResult.ok c) = ok c
  without_env e (SourceResult.err SourceError.out_of_fuel) = err e
  without_env e (SourceResult.err other) = of_source (SourceResult.err other)

  module _ (read_csv : Text → Option (List Text)) (mem_bytes : Text → Option ℕ) where
    -- `ex.Expand`
    unfoldable pub expand_command : Dispatched llb → Lex → Command → Result Command
    unfolding expand process_word
    expand_command d lex c = elim (llb.env d.state) [
      | ok es ↦ of_source (expand read_csv mem_bytes (word_in lex es) c)
      | err e ↦
          without_env e
            (expand read_csv mem_bytes (λ _. SourceResult.err SourceError.out_of_fuel) c)
    ]

    abbrev pub origin_of : Command → Origin
    origin_of c = record { code = c.base.code; location = c.base.location }

    -- `dispatch`, at a command and its sources
    unfoldable pub dispatch :
        Dispatched llb → DispatchOpt llb → Command → List ℕ → Result (Dispatched llb)
    unfolding expand_command dispatch_body
    dispatch d opt c sources =
        expand_command d opt.shlex c >>= λ c'. dispatch_body d opt sources (origin_of c') c'.body

    -- `for _, cmd := range d.commands`, with the sources of each command
    unfoldable pub dispatch_all :
        Dispatched llb → DispatchOpt llb → List (Command × List ℕ) → Result (Dispatched llb)
    unfolding dispatch
    dispatch_all d opt [] = ok d
    dispatch_all d opt ((c, sources) ∷ cs) =
        at c.base.location (dispatch d opt c sources) >>= λ d'. dispatch_all d' opt cs
