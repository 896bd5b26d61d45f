-- ===== src/Convert/Dispatch/Rules.antt =====
-- What every command does to the history of the image, to its default command and to its working
-- directory.
use dockerfile.Base.{
  ℕ, ◌+◌, ◌≤◌, arith, List, [], ◌∷◌, Bool, true, false, ◌&&◌, not, Option, none, some, ◌≡◌, refl,
  ap, sym, ◌∙◌, subst, if◌then◌else◌,
}
use dockerfile.Base.Text.{Text, codes, text_eq}
use dockerfile.Instructions.Commands.{
  Body, env, label, maintainer, workdir, user, stop_signal, onbuild, add, copy, run, cmd,
  entrypoint, health_check, expose, volume, shell, arg,
}
use dockerfile.Convert.Error.{Result}
use dockerfile.Convert.Image.{ImageConfig, commit_to_history}
use dockerfile.Convert.States.Filled.{Ok}
use dockerfile.Convert.Dispatch.State.{Llb, Dispatched, DispatchOpt, use_file_op}
use dockerfile.Convert.Dispatch.Config.{
  commit, working_dir, enter_workdir, dispatch_workdir, finish_workdir, command_args,
  dispatch_onbuild, dispatch_cmd, dispatch_entrypoint,
}
use dockerfile.Convert.Dispatch.Copy.{Origin}
use dockerfile.Convert.Dispatch.Step.{dispatch_body, copy_from}
use dockerfile.Convert.Dispatch.Effects.{
  one, Layered, dispatch_run-Layered, dispatch_copy-Layered, note_paths-Layered,
}
use dockerfile.Convert.Dispatch.Plain.{
  Grows, Unchanged, grown, config_kept, Ok-map, Commits-Unchanged, plain-Unchanged,
  finish_workdir-Commits,
}

module _ (llb : Llb) where
  -- Whether the command makes an entry, and one with a layer
  abbrev pub layer_of : Dispatched llb → DispatchOpt llb → Body → Option Bool
  layer_of d opt (onbuild e) = none
  layer_of d opt (add c chown chmod) = some true
  layer_of d opt (copy c from chown chmod) = some true
  layer_of d opt (run r) = some true
  layer_of d opt (workdir path) = some (
      not (text_eq (working_dir d.image.config.working_dir path) (codes "/"))
      && use_file_op opt.build_arg_values opt.caps)
  layer_of d opt _ = some false

  -- CMD sets the default command, ENTRYPOINT takes away one that is not of this stage.
  abbrev pub cmd_of : Dispatched llb → Body → Bool × List Text
  cmd_of d (cmd c) = (true, command_args d.image c)
  cmd_of d (entrypoint c) = (d.cmd_set, if d.cmd_set then d.image.config.cmd else [])
  cmd_of d _ = (d.cmd_set, d.image.config.cmd)

  abbrev pub dir_of : Dispatched llb → Body → Text
  dir_of d (workdir path) = working_dir d.image.config.working_dir path
  dir_of d _ = d.image.config.working_dir

  -- The steps that are counted for the command: one where it makes a layer
  abbrev pub step_of : Option Bool → ℕ
  step_of none = 0
  step_of (some layer) = one layer

  pub record Follows (d : Dispatched llb) (opt : DispatchOpt llb) (b : Body) (d' : Dispatched llb)
      : Type 0 where
    pub history : Grows (layer_of d opt b) d.image.history d'.image.history
    pub index : d'.cmd_index ≤ d.cmd_index + step_of (layer_of d opt b)
    pub cmd_set : d'.cmd_set ≡ (cmd_of d b).0
    pub default : d'.image.config.cmd ≡ (cmd_of d b).1
    pub directory : d'.image.config.working_dir ≡ dir_of d b

  layered :
      (d : Dispatched llb) (r : Result (Dispatched llb))
      → Layered llb d r
      → Ok (Unchanged llb true d) r
  layered d r h = Ok-map llb r (Commits-Unchanged llb true d) h

  as_layer :
      (d : Dispatched llb) (opt : DispatchOpt llb) (b : Body) (layer : Bool)
      → layer_of d opt b ≡ some layer
      → cmd_of d b ≡ (d.cmd_set, d.image.config.cmd)
      → dir_of d b ≡ d.image.config.working_dir
      → (r : Result (Dispatched llb)) → Ok (Unchanged llb layer d) r
      → Ok (Follows d opt b) r
  as_layer d opt b layer l c w r h =
      Ok-map llb r
        (λ d' u. record {
          index = rw l u.index;
          history = subst (λ o. Grows o d.image.history d'.image.history) (sym l) u.history;
          cmd_set = u.cmd_set ∙ sym (ap (λ (x : Bool × List Text). x.0) c);
          default = u.default ∙ sym (ap (λ (x : Bool × List Text). x.1) c);
          directory = u.directory ∙ sym w;
        })
        h

  copy_from-Layered :
      (d : Dispatched llb) (opt : DispatchOpt llb) (c : _) (sources : List ℕ) (origin : Origin)
      (chown chmod : Text)
      → Layered llb d (copy_from llb d opt c sources origin chown chmod)
  copy_from-Layered d opt c [] origin chown chmod =
      note_paths-Layered llb d false c.source_paths _
        (dispatch_copy-Layered llb d opt c opt.build_context false origin chown chmod)
  copy_from-Layered d opt c (p ∷ ps) origin chown chmod =
      dispatch_copy-Layered llb d opt c (opt.state_of p) false origin chown chmod

  -- A command that succeeds adds one entry to the history (ONBUILD none), with a layer for ADD, COPY and
  -- RUN, and for a WORKDIR other than the root where file operations are on. CMD sets the default command,
  -- ENTRYPOINT takes it away unless it was set in this stage, and only WORKDIR changes the directory.
  pub dispatch_body-Follows :
      (d : Dispatched llb) (opt : DispatchOpt llb) (sources : List ℕ) (origin : Origin) (b : Body)
      → Ok (Follows d opt b) (dispatch_body llb d opt sources origin b)
  unfolding dispatch_body dispatch_cmd dispatch_entrypoint dispatch_onbuild dispatch_workdir
      enter_workdir commit commit_to_history
  dispatch_body-Follows d opt sources origin (onbuild e) = record {
    index = omega arith;
    history = refl;
    cmd_set = refl;
    default = refl;
    directory = refl;
  }
  dispatch_body-Follows d opt sources origin (cmd c) = record {
    index = omega arith;
    history = (_, refl);
    cmd_set = refl;
    default = refl;
    directory = refl;
  }
  dispatch_body-Follows d opt sources origin (entrypoint c) = record {
    index = omega arith;
    history = (_, refl);
    cmd_set = refl;
    default = refl;
    directory = refl;
  }
  dispatch_body-Follows d opt sources origin (workdir path) =
      let wd = working_dir d.image.config.working_dir path in
      let d' = enter_workdir llb d path in
      Ok-map llb (finish_workdir llb opt origin.code origin.location wd d')
        (λ x c.
          let same = config_kept llb d'.image x.image c.message _ c.with_state c.image in
          record {
            index = c.index;
            history = grown llb d'.image x.image c.message _ c.with_state c.image;
            cmd_set = c.cmd_set;
            default = ap (λ (y : ImageConfig). y.cmd) same;
            directory = ap (λ (y : ImageConfig). y.working_dir) same;
          })
        (finish_workdir-Commits llb d' opt origin.code origin.location wd)
  dispatch_body-Follows d opt sources origin (run r) =
      as_layer d opt (run r) true refl refl refl _
        (layered d _ (dispatch_run-Layered llb d opt r sources origin))
  dispatch_body-Follows d opt sources origin (add c chown chmod) =
      as_layer d opt (add c chown chmod) true refl refl refl _ (
        layered d _ (
          note_paths-Layered llb d true c.source_paths _
            (dispatch_copy-Layered llb d opt c opt.build_context true origin chown chmod)))
  dispatch_body-Follows d opt sources origin (copy c from chown chmod) =
      as_layer d opt (copy c from chown chmod) true refl refl refl _
        (layered d _ (copy_from-Layered d opt c sources origin chown chmod))
  dispatch_body-Follows d opt sources origin (env es) =
      as_layer d opt (env es) false refl refl refl (dispatch_body llb d opt sources origin (env es))
        (plain-Unchanged llb d opt sources origin (env es) tt)
  dispatch_body-Follows d opt sources origin (label ls n) =
      as_layer d opt (label ls n) false refl refl refl
        (dispatch_body llb d opt sources origin (label ls n))
        (plain-Unchanged llb d opt sources origin (label ls n) tt)
  dispatch_body-Follows d opt sources origin (maintainer w) =
      as_layer d opt (maintainer w) false refl refl refl
        (dispatch_body llb d opt sources origin (maintainer w))
        (plain-Unchanged llb d opt sources origin (maintainer w) tt)
  dispatch_body-Follows d opt sources origin (user name) =
      as_layer d opt (user name) false refl refl refl
        (dispatch_body llb d opt sources origin (user name))
        (plain-Unchanged llb d opt sources origin (user name) tt)
  dispatch_body-Follows d opt sources origin (health_check c) =
      as_layer d opt (health_check c) false refl refl refl
        (dispatch_body llb d opt sources origin (health_check c))
        (plain-Unchanged llb d opt sources origin (health_check c) tt)
  dispatch_body-Follows d opt sources origin (shell s) =
      as_layer d opt (shell s) false refl refl refl
        (dispatch_body llb d opt sources origin (shell s))
        (plain-Unchanged llb d opt sources origin (shell s) tt)
  dispatch_body-Follows d opt sources origin (stop_signal s) =
      as_layer d opt (stop_signal s) false refl refl refl
        (dispatch_body llb d opt sources origin (stop_signal s))
        (plain-Unchanged llb d opt sources origin (stop_signal s) tt)
  dispatch_body-Follows d opt sources origin (expose ports) =
      as_layer d opt (expose ports) false refl refl refl
        (dispatch_body llb d opt sources origin (expose ports))
        (plain-Unchanged llb d opt sources origin (expose ports) tt)
  dispatch_body-Follows d opt sources origin (volume vs) =
      as_layer d opt (volume vs) false refl refl refl
        (dispatch_body llb d opt sources origin (volume vs))
        (plain-Unchanged llb d opt sources origin (volume vs) tt)
  dispatch_body-Follows d opt sources origin (arg args) =
      as_layer d opt (arg args) false refl refl refl
        (dispatch_body llb d opt sources origin (arg args))
        (plain-Unchanged llb d opt sources origin (arg args) tt)
