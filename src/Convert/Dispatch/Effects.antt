-- ===== src/Convert/Dispatch/Effects.antt =====
-- What a command leaves of the image: its history, the default command and the working directory.
use dockerfile.Base.{
  ℕ, ◌+◌, ◌≤◌, arith, List, [], ◌∷◌, Bool, true, false, ◌==◌, not, Option, some, snoc, ◌≡◌, refl,
  ap, ◌∙◌, if◌then◌else◌, if_both,
}
use dockerfile.Base.Text.{Text, text_eq}
use dockerfile.Instructions.Mount.{Mount}
use dockerfile.Instructions.Mount
use dockerfile.Instructions.Commands.{SourcesAndDest, RunCommand}
use dockerfile.Convert.Error.{Result, ok, err, ◌>>=◌, no_state, no_inline_content, no_chmod}
use dockerfile.Convert.Platform.{Platform}
use dockerfile.Convert.Image.{Image, History, history_comment, commit_to_history}
use dockerfile.Convert.Environment.{uppercase_cmd}
use dockerfile.Convert.Messages.{process_cmd_env}
use dockerfile.Convert.States.Filled.{Ok, Ok-bind}
use dockerfile.Convert.Dispatch.State.{
  Llb, Dispatched, DispatchOpt, prefix_command, use_file_op, RunOption, Copied,
}
use dockerfile.Convert.Dispatch.Config.{
  commit, working_dir, enter_workdir, dispatch_workdir, make_dir, finish_workdir, add_args,
  configure, dispatch_arg, set_config,
}
use dockerfile.Convert.Dispatch.Config
use dockerfile.Convert.Dispatch.Mounts.{
  dispatch_run_mounts, dispatch_any_mount, dispatch_mount, note_path,
}
use dockerfile.Convert.Dispatch.Flags.{
  dispatch_secret, dispatch_ssh, dispatch_run_network, dispatch_run_security,
}
use dockerfile.Convert.Dispatch.Mounts
use dockerfile.Convert.Dispatch.Copy.{
  dispatch_copy, dispatch_copy_file_op, dispatch_copy_image, Origin,
}
use dockerfile.Convert.Dispatch.Copy
use dockerfile.Convert.Dispatch.Run.{dispatch_run}
use dockerfile.Convert.Dispatch.Run
use dockerfile.Convert.Dispatch.Step.{note_paths}

-- One more entry, with a message, the comment of this frontend, and a layer or none
abbrev pub with_entry : List History → Text → Bool → List History
with_entry history message layer =
    snoc history
      (record { created_by = message; comment = history_comment; empty_layer = not layer })

-- The steps that are counted for a command with a layer, or with none
abbrev pub one : Bool → ℕ
one true = 1
one false = 0

module _ (llb : Llb) where
  -- Image, directory and default command are left alone, and at most `n` steps are counted.
  pub record Kept (n : ℕ) (d d' : Dispatched llb) : Type 0 where
    pub index : d'.cmd_index ≤ d.cmd_index + n
    pub image : d'.image ≡ d.image
    pub cmd_set : d'.cmd_set ≡ d.cmd_set

  -- The image `img`, with one more entry in its history, and one more step than `start` for a layer
  pub record Commits (img : Image) (set layer : Bool) (start : ℕ) (d' : Dispatched llb)
      : Type 0 where
    pub index : d'.cmd_index ≤ start + one layer
    pub message : Text
    pub with_state : Bool
    pub image : d'.image ≡ commit_to_history img message layer with_state
    pub cmd_set : d'.cmd_set ≡ set

  -- A commit at the end of a step that keeps the image
  pub committed :
      {d : Dispatched llb} (d' : Dispatched llb) (layer : Bool) (message : Text) (with_state : Bool)
      (st : llb.State)
      → Kept (one layer) d d'
      → Ok
          (Commits d.image d.cmd_set layer d.cmd_index)
          (commit llb (record d' { state = st }) message layer with_state)
  unfolding commit
  committed d' layer message with_state st k = record {
    message = message;
    with_state = with_state;
    index = k.index;
    image = ap (λ img. commit_to_history img message layer with_state) k.image;
    cmd_set = k.cmd_set;
  }

  pub prefix_command-Kept :
      (d : Dispatched llb) (s : Text) (p : Option Platform) → Kept 1 d (prefix_command llb d s p).1
  unfolding prefix_command
  prefix_command-Kept d s p =
      if_both (λ (r : Text × Dispatched llb). Kept 1 d r.1) (d.cmd_total == 0) _ _
        (record { index = omega arith; image = refl; cmd_set = refl })
        (record { index = omega arith; image = refl; cmd_set = refl })

  note_path-Kept : (d : Dispatched llb) (m : Mount) → Kept 0 d (note_path llb d m)
  unfolding note_path
  note_path-Kept d m =
      if_both (Kept 0 d) (text_eq (Mounts.from_of m) []) _ _
        (record { index = omega arith; image = refl; cmd_set = refl })
        (record { index = omega arith; image = refl; cmd_set = refl })

  Kept-trans : (m n : ℕ) {a b c : Dispatched llb} → Kept m a b → Kept n b c → Kept (m + n) a c
  Kept-trans m n l r = record {
    index = omega (arith, l.index, r.index);
    image = r.image ∙ l.image;
    cmd_set = r.cmd_set ∙ l.cmd_set;
  }

  Kept-refl : (d : Dispatched llb) → Kept 0 d d
  Kept-refl d = record { index = omega arith; image = refl; cmd_set = refl }

  -- What holds behind a step that may fail, whatever the step gave
  pub Ok-any {ℓ κ μ} :
      {A : Type ℓ} {B : Type κ} (Q : B → Type μ) (m : Result A) (f : A → Result B)
      → ((a : A) → Ok Q (f a))
      → Ok Q (m >>= f)
  Ok-any Q (ok a) f k = k a
  Ok-any Q (err e) f k = tt

  same_state-Kept :
      (d : Dispatched llb) (r : Result (RunOption llb.State))
      → Ok (λ (x : RunOption llb.State × Dispatched llb). Kept 0 d x.1) (Mounts.same_state llb d r)
  same_state-Kept d (ok o) = Kept-refl d
  same_state-Kept d (err e) = tt

  abbrev KeepsMount : Dispatched llb → Result (RunOption llb.State × Dispatched llb) → Type 0
  KeepsMount d = Ok (λ (x : RunOption llb.State × Dispatched llb). Kept 0 d x.1)

  dispatch_mount-Kept :
      (d : Dispatched llb) (opt : DispatchOpt llb) (m : Mount) (source : Option ℕ)
      → KeepsMount d (dispatch_mount llb d opt m source)
  unfolding dispatch_mount
  dispatch_mount-Kept d opt m source =
      Ok-any _ (Mounts.source_state llb opt (Mounts.from_of m) source) _ (λ st.
        Ok-any _ (Mounts.access_options opt.caps m _) _
          (λ opts. Ok-any _ (Mounts.mount_target llb d m) _ (λ target. note_path-Kept d m)))

  dispatch_any_mount-Kept :
      (d : Dispatched llb) (opt : DispatchOpt llb) (m : Mount) (source : Option ℕ)
      → KeepsMount d (dispatch_any_mount llb d opt m source)
  unfolding dispatch_any_mount
  dispatch_any_mount-Kept d opt m source =
      pick (not (Mounts.has_source llb (Mounts.from_of m) source)) (Mounts.is_type m Mount.secret)
        (Mounts.is_type m Mount.ssh)
    where
      pick :
          (lost is_secret is_ssh : Bool)
          → KeepsMount d (
              if lost
              then err no_state
              else if is_secret
              then Mounts.same_state llb d (dispatch_secret m)
              else if is_ssh
              then Mounts.same_state llb d (dispatch_ssh m)
              else dispatch_mount llb d opt m source)
      pick true is_secret is_ssh = tt
      pick false true is_ssh = same_state-Kept d (dispatch_secret m)
      pick false false true = same_state-Kept d (dispatch_ssh m)
      pick false false false = dispatch_mount-Kept d opt m source

  dispatch_run_mounts-Kept :
      (d : Dispatched llb) (opt : DispatchOpt llb) (ms : List Mount) (sources : List ℕ)
      → Ok
          (λ (x : List (RunOption llb.State) × Dispatched llb). Kept 0 d x.1)
          (dispatch_run_mounts llb d opt ms sources)
  unfolding dispatch_run_mounts
  dispatch_run_mounts-Kept d opt [] sources = Kept-refl d
  dispatch_run_mounts-Kept d opt (m ∷ ms) sources =
      Ok-bind (λ (x : RunOption llb.State × Dispatched llb). Kept 0 d x.1) _
        (dispatch_any_mount llb d opt m (Mounts.first_source llb sources)) _
        (dispatch_any_mount-Kept d opt m (Mounts.first_source llb sources))
        (λ first k.
          Ok-bind (λ (x : List (RunOption llb.State) × Dispatched llb). Kept 0 first.1 x.1) _
            (dispatch_run_mounts llb first.1 opt ms (Mounts.other_sources llb sources)) _
            (dispatch_run_mounts-Kept first.1 opt ms (Mounts.other_sources llb sources))
            (λ rest more. Kept-trans 0 0 k more))

  abbrev pub Layered : Dispatched llb → Result (Dispatched llb) → Type 0
  Layered d = Ok (Commits d.image d.cmd_set true d.cmd_index)

  pub run_script-Layered :
      {d : Dispatched llb} (d' : Dispatched llb) (opt : DispatchOpt llb)
      (before : List (RunOption llb.State)) (args : List Text) (custom : Text)
      (platform : Option Platform) (es : List Text)
      → Kept 0 d d'
      → Layered d (Run.run_script llb opt before args custom platform d' es)
  run_script-Layered d' opt before args custom platform es k =
      let name = uppercase_cmd (process_cmd_env (Run.name_lex llb opt.shlex) custom es) in
      committed (prefix_command llb d' name platform).1 true _ true _
        (Kept-trans 0 1 k (prefix_command-Kept d' name platform))

  pub dispatch_run-Layered :
      (d : Dispatched llb) (opt : DispatchOpt llb) (r : RunCommand) (sources : List ℕ)
      (origin : Origin)
      → Layered d (dispatch_run llb d opt r sources origin)
  unfolding dispatch_run
  dispatch_run-Layered d opt r sources origin =
      Ok-any _ (Run.script_of llb d.image.os origin.code r) _ (λ script.
        Ok-any _ (llb.env d.state) _ (λ es.
          Ok-bind (λ (x : List (RunOption llb.State) × Dispatched llb). Kept 0 d x.1) _
            (dispatch_run_mounts llb d opt r.mounts sources) _
            (dispatch_run_mounts-Kept d opt r.mounts sources)
            (λ mounted k. Ok-any _ (dispatch_run_security r.security) _ (λ security.
              Ok-any _ (dispatch_run_network r.network) _ (λ network.
                Ok-any _ (llb.get_platform mounted.1.state) _
                  (λ platform. run_script-Layered mounted.1 opt _ _ script.name platform es k))))))

  finish_copy-Layered :
      (d : Dispatched llb) (opt : DispatchOpt llb) (origin : Origin) (message : Text)
      (copies : List (Copied llb.State)) (es : List Text)
      → Layered d (Copy.finish_copy llb opt origin message copies d es)
  finish_copy-Layered d opt origin message copies es =
      let name = uppercase_cmd (process_cmd_env opt.shlex origin.code es) in
      let platform = some (Config.platform_or opt.target_platform d.platform) in
      committed (prefix_command llb d name platform).1 true _ true _
        (prefix_command-Kept d name platform)

  run_copy-Layered :
      (d : Dispatched llb) (opt : DispatchOpt llb) (origin : Origin) (message chown dest : Text)
      (t : Copy.Targets llb) (es : List Text)
      → Layered d (Copy.run_copy llb opt origin message chown dest t d es)
  run_copy-Layered d opt origin message chown dest t es =
      let name = uppercase_cmd (process_cmd_env opt.shlex origin.code es) in
      let platform = some (Config.platform_or opt.target_platform d.platform) in
      committed (prefix_command llb d name platform).1 true _ true _
        (prefix_command-Kept d name platform)

  pub dispatch_copy-Layered :
      (d : Dispatched llb) (opt : DispatchOpt llb) (c : SourcesAndDest) (st : llb.State)
      (is_add : Bool) (origin : Origin) (chown chmod : Text)
      → Layered d (dispatch_copy llb d opt c st is_add origin chown chmod)
  unfolding dispatch_copy dispatch_copy_file_op dispatch_copy_image
  dispatch_copy-Layered d opt c st is_add origin chown chmod =
      pick (use_file_op opt.build_arg_values opt.caps) (not (Copy.is_nil llb c.source_contents))
        (not (text_eq chmod []))
    where
      pick :
          (file_op contents mode : Bool)
          → Layered d (
              if file_op
              then dispatch_copy_file_op llb d opt c st is_add origin chown chmod
              else if contents
              then err no_inline_content
              else if mode
              then err no_chmod
              else dispatch_copy_image llb d opt c st is_add origin chown)
      pick true contents mode =
          Ok-any _ (Copy.path_relative_to_working_dir llb d.state c.dest_path) _ (λ pp.
            Ok-any _ (Copy.copy_paths llb st is_add _ chown _ c.source_paths) _ (λ copies.
              Ok-any _ (llb.env d.state) _ (λ es. finish_copy-Layered d opt origin _ _ es)))
      pick false true mode = tt
      pick false false true = tt
      pick false false false =
          Ok-any _ (Copy.path_relative_to_working_dir llb d.state c.dest_path) _ (λ pp.
            Ok-any _ (Copy.target_paths llb st is_add 0 c.source_paths) _ (λ t.
              Ok-any _ (llb.env d.state) _ (λ es. run_copy-Layered d opt origin _ chown _ t es)))

  pub note_paths-Layered :
      (d : Dispatched llb) (is_add : Bool) (srcs : List Text) (r : Result (Dispatched llb))
      → Layered d r
      → Layered d (r >>= note_paths llb is_add srcs)
  note_paths-Layered d is_add srcs (err e) h = tt
  note_paths-Layered d is_add srcs (ok x) h = record {
    index = h.index;
    message = h.message;
    with_state = h.with_state;
    image = h.image;
    cmd_set = h.cmd_set;
  }
