-- ===== src/Convert/Dispatch/Plain.antt =====
-- The commands that make an entry in the history of the image and leave its default command and its
-- directory.
use dockerfile.Base.{
  ℕ, ◌+◌, ◌≤◌, arith, List, [], ◌∷◌, ◌++◌, Bool, true, false, ◌&&◌, not, Option, none, some, snoc,
  ◌≡◌, refl, ap, if◌then◌else◌,
}
use dockerfile.Base.Text.{Text, codes, text_eq}
use dockerfile.Instructions.Commands.{
  Body, KeyValuePairOptional, env, label, maintainer, workdir, user, stop_signal, onbuild, add,
  copy, run, cmd, entrypoint, health_check, expose, volume, shell, arg,
}
use dockerfile.Shell.Env.{Env}
use dockerfile.Convert.Error.{Result, ok, err, ◌>>=◌, bad_signal}
use dockerfile.Convert.Image.{Image, ImageConfig, History, commit_to_history}
use dockerfile.Convert.Environment.{uppercase_cmd}
use dockerfile.Convert.Messages.{process_cmd_env}
use dockerfile.Convert.States.Filled.{Ok}
use dockerfile.Convert.Dispatch.State.{Llb, Dispatched, DispatchOpt, prefix_command, use_file_op}
use dockerfile.Convert.Dispatch.Config.{
  commit, working_dir, enter_workdir, dispatch_workdir, finish_workdir, make_dir, add_args,
  command_args, dispatch_env, dispatch_label, dispatch_maintainer, dispatch_onbuild, dispatch_cmd,
  dispatch_entrypoint, dispatch_healthcheck, dispatch_expose, dispatch_user, dispatch_volume,
  dispatch_stop_signal, dispatch_shell, dispatch_arg,
}
use dockerfile.Convert.Dispatch.Config
use dockerfile.Convert.Dispatch.Copy.{Origin}
use dockerfile.Convert.Dispatch.Step.{dispatch_body}
use dockerfile.Convert.Dispatch.Effects.{
  one, with_entry, Commits, Ok-any, committed, Kept, prefix_command-Kept,
}

-- The history is as it was, or has one entry more, with a layer or none.
abbrev pub Grows : Option Bool → List History → List History → Type 0
Grows none before after = after ≡ before
Grows (some layer) before after = (message : Text) × (after ≡ with_entry before message layer)

module _ (llb : Llb) where
  abbrev pub full : Text → Bool → Text
  full message with_state = if with_state then message ++ codes " # buildkit" else message

  -- The history of an image that is `img` with one more entry
  pub grown :
      (img img' : Image) (message : Text) (layer with_state : Bool)
      → img' ≡ commit_to_history img message layer with_state
      → Grows (some layer) img.history img'.history
  unfolding commit_to_history
  grown img img' message layer with_state e =
      (full message with_state, ap (λ (i : Image). i.history) e)

  pub config_kept :
      (img img' : Image) (message : Text) (layer with_state : Bool)
      → img' ≡ commit_to_history img message layer with_state
      → img'.config ≡ img.config
  unfolding commit_to_history
  config_kept img img' message layer with_state e = ap (λ (i : Image). i.config) e

  pub Ok-map {ℓ κ} :
      {P : Dispatched llb → Type ℓ} {Q : Dispatched llb → Type κ} (r : Result (Dispatched llb))
      → ((d : Dispatched llb) → P d → Q d)
      → Ok P r
      → Ok Q r
  Ok-map (ok d) f h = f d h
  Ok-map (err e) f h = tt

  pub finish_workdir-Commits :
      (d : Dispatched llb) (opt : DispatchOpt llb) (code : Text) (location : _) (wd : Text)
      → Ok
          (Commits llb d.image d.cmd_set
            (not (text_eq wd (codes "/")) && use_file_op opt.build_arg_values opt.caps)
            d.cmd_index)
          (finish_workdir llb opt code location wd d)
  unfolding commit
  finish_workdir-Commits d opt code location wd =
      by_flag (not (text_eq wd (codes "/")) && use_file_op opt.build_arg_values opt.caps)
    where
      by_flag :
          (b : Bool)
          → Ok (Commits llb d.image d.cmd_set b d.cmd_index) (
              if b
              then (llb.env d.state >>= λ es.
                  commit llb
                    (make_dir llb d opt wd code location es)
                    (codes "WORKDIR " ++ wd)
                    true
                    false)
              else commit llb d (codes "WORKDIR " ++ wd) false false)
      by_flag true = Ok-any llb _ (llb.env d.state) _ (λ es.
          let name = uppercase_cmd (process_cmd_env opt.shlex code es) in
          let platform = some (Config.platform_or opt.target_platform d.platform) in
          committed llb (prefix_command llb d name platform).1 true _ false _
            (prefix_command-Kept llb d name platform))
      by_flag false = record {
        index = omega arith;
        message = _;
        with_state = false;
        image = refl;
        cmd_set = refl;
      }

  -- One more entry, and all else that the rules are about as it was
  pub record Unchanged (layer : Bool) (d d' : Dispatched llb) : Type 0 where
    pub index : d'.cmd_index ≤ d.cmd_index + one layer
    pub history : Grows (some layer) d.image.history d'.image.history
    pub cmd_set : d'.cmd_set ≡ d.cmd_set
    pub default : d'.image.config.cmd ≡ d.image.config.cmd
    pub directory : d'.image.config.working_dir ≡ d.image.config.working_dir

  pub Commits-Unchanged :
      (layer : Bool) (d d' : Dispatched llb)
      → Commits llb d.image d.cmd_set layer d.cmd_index d'
      → Unchanged layer d d'
  Commits-Unchanged layer d d' c =
      let same = config_kept d.image d'.image c.message layer c.with_state c.image in
      record {
        index = c.index;
        history = grown d.image d'.image c.message layer c.with_state c.image;
        cmd_set = c.cmd_set;
        default = ap (λ (x : ImageConfig). x.cmd) same;
        directory = ap (λ (x : ImageConfig). x.working_dir) same;
      }

  -- The commit of a state whose image has another configuration
  commit-Unchanged :
      (d d' : Dispatched llb) (message : Text)
      → d'.cmd_index ≤ d.cmd_index
      → d'.image.history ≡ d.image.history
      → d'.cmd_set ≡ d.cmd_set
      → d'.image.config.cmd ≡ d.image.config.cmd
      → d'.image.config.working_dir ≡ d.image.config.working_dir
      → Ok (Unchanged false d) (commit llb d' message false false)
  unfolding commit commit_to_history
  commit-Unchanged d d' message i h s c w = record {
    index = omega (arith, i);
    history = (message, ap (λ hs. with_entry hs message false) h);
    cmd_set = s;
    default = c;
    directory = w;
  }

  add_args-Kept :
      (meta : List KeyValuePairOptional) (values : Env) (d : Dispatched llb)
      (args : List KeyValuePairOptional)
      → Kept llb 0 d (add_args llb meta values d args)
  unfolding add_args
  add_args-Kept meta values d [] = record { index = omega arith; image = refl; cmd_set = refl }
  add_args-Kept meta values d (a ∷ args) =
      let b = Config.build_arg meta values a in
      let next = record d {
        state = Config.add_arg_env llb d.state b;
        build_args = snoc d.build_args b;
      } in
      let k = add_args-Kept meta values next args in
      record { index = k.index; image = k.image; cmd_set = k.cmd_set }

  same_history : {d d' : Dispatched llb} → Kept llb 0 d d' → d'.image.history ≡ d.image.history
  same_history k = ap (λ (i : Image). i.history) k.image

  same_config : {d d' : Dispatched llb} → Kept llb 0 d d' → d'.image.config ≡ d.image.config
  same_config k = ap (λ (i : Image). i.config) k.image

  -- The commands that only make an entry
  abbrev pub IsPlain : Body → Type 0
  IsPlain (onbuild e) = ⊥
  IsPlain (add c chown chmod) = ⊥
  IsPlain (copy c from chown chmod) = ⊥
  IsPlain (run r) = ⊥
  IsPlain (workdir path) = ⊥
  IsPlain (cmd c) = ⊥
  IsPlain (entrypoint c) = ⊥
  IsPlain _ = Unit

  pub plain-Unchanged :
      (d : Dispatched llb) (opt : DispatchOpt llb) (sources : List ℕ) (origin : Origin) (b : Body)
      → IsPlain b
      → Ok (Unchanged false d) (dispatch_body llb d opt sources origin b)
  unfolding dispatch_body dispatch_env dispatch_label dispatch_maintainer dispatch_healthcheck
      dispatch_expose dispatch_user dispatch_volume dispatch_stop_signal dispatch_shell dispatch_arg
  plain-Unchanged d opt sources origin (env es) h =
      commit-Unchanged d _ _ (omega arith) refl refl refl refl
  plain-Unchanged d opt sources origin (label ls n) h =
      commit-Unchanged d _ _ (omega arith) refl refl refl refl
  plain-Unchanged d opt sources origin (maintainer w) h =
      commit-Unchanged d _ _ (omega arith) refl refl refl refl
  plain-Unchanged d opt sources origin (user name) h =
      commit-Unchanged d _ _ (omega arith) refl refl refl refl
  plain-Unchanged d opt sources origin (health_check c) h =
      commit-Unchanged d _ _ (omega arith) refl refl refl refl
  plain-Unchanged d opt sources origin (shell s) h =
      commit-Unchanged d _ _ (omega arith) refl refl refl refl
  plain-Unchanged d opt sources origin (stop_signal s) h = by_signal (llb.is_signal s)
    where
      by_signal :
          (b : Bool)
          → Ok (Unchanged false d) (
              if b
              then commit llb
                  (Config.configure llb d (record d.image.config { stop_signal = s }))
                  (codes "STOPSIGNAL " ++ s)
                  false
                  false
              else err (bad_signal s))
      by_signal true = commit-Unchanged d _ _ (omega arith) refl refl refl refl
      by_signal false = tt
  plain-Unchanged d opt sources origin (expose ports) h = Ok-any llb _ (llb.env d.state) _ (λ es.
      Ok-any llb _ (Config.expand_ports opt.shlex es ports) _ (λ ps.
        Ok-any llb _ (llb.parse_port_specs ps) _
          (λ specs. commit-Unchanged d _ _ (omega arith) refl refl refl refl)))
  plain-Unchanged d opt sources origin (volume vs) h =
      Ok-any llb _ (Config.add_volumes d.image.config.volumes vs) _
        (λ volumes. commit-Unchanged d _ _ (omega arith) refl refl refl refl)
  plain-Unchanged d opt sources origin (arg args) h =
      let k = add_args-Kept opt.meta_args opt.build_arg_values d args in
      commit-Unchanged d _ _ (omega (arith, k.index)) (same_history k) k.cmd_set
        (ap (λ (x : ImageConfig). x.cmd) (same_config k))
        (ap (λ (x : ImageConfig). x.working_dir) (same_config k))
  plain-Unchanged d opt sources origin (onbuild e) h = absurd h
  plain-Unchanged d opt sources origin (add c chown chmod) h = absurd h
  plain-Unchanged d opt sources origin (copy c from chown chmod) h = absurd h
  plain-Unchanged d opt sources origin (run r) h = absurd h
  plain-Unchanged d opt sources origin (workdir path) h = absurd h
  plain-Unchanged d opt sources origin (cmd c) h = absurd h
  plain-Unchanged d opt sources origin (entrypoint c) h = absurd h
