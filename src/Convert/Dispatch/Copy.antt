-- ===== src/Convert/Dispatch/Copy.antt =====
-- dockerfile2llb/convert.go: `dispatchCopyFileOp` and `dispatchCopy`.
use dockerfile.Base.{
  ℕ, suc, List, [], ◌∷◌, ◌++◌, Bool, true, false, ◌||◌, not, Option, none, some, map, if◌then◌else◌,
}
use dockerfile.Base.Text.{Text, codes, text_eq, has_prefix}
use dockerfile.Parser.Error.{Range}
use dockerfile.Instructions.Commands.{SourcesAndDest, SourceContent}
use dockerfile.Instructions.Numbers.{parse_uint}
use dockerfile.Convert.Error.{
  Result, ok, err, ◌>>=◌, url_for_copy, no_inline_content, no_chmod, wildcard_panic,
}
use dockerfile.Convert.Environment.{parse_user, uppercase_cmd}
use dockerfile.Convert.Messages.{process_cmd_env, decimal}
use dockerfile.Convert.Wildcards.{split_wildcards, ends_open}
use dockerfile.Convert.Dispatch.State.{
  Llb, Dispatched, DispatchOpt, prefix_command, use_file_op, custom_name, at_location, description,
  ignore_cache, CopyInfo, Copied, RunOption, Constraint, source_path, read_only, net_none, Caps,
}
use dockerfile.Convert.Dispatch.Config.{commit, platform_or}
use dockerfile.Paths.{is_abs, join_paths, base, dir}

-- The source text and the lines of a command
pub record Origin : Type 0 where
  pub code : Text
  pub location : List Range

abbrev pub is_url : Text → Bool
is_url src = has_prefix src (codes "http://") || has_prefix src (codes "https://")

abbrev pub base_or_unnamed : Text → Text
base_or_unnamed b =
    if text_eq b (codes ".") || text_eq b (codes "/") then codes "__unnamed__" else b

abbrev pub file_of_path : Option Text → Text
file_of_path none = codes "__unnamed__"
file_of_path (some path) = base_or_unnamed (base path)

-- `dest`, with the slash behind it
abbrev pub is_directory : Text → Bool
is_directory dest_path = text_eq dest_path (codes ".") || ends_open dest_path

abbrev pub with_slash : Text → Text → Text
with_slash dest_path dest = if is_directory dest_path then dest ++ codes "/" else dest

abbrev pub octal_mode : Text → Option ℕ
octal_mode chmod = if text_eq chmod [] then none else parse_uint 8 32 chmod

abbrev pub user_of : Text → Option Text
user_of [] = none
user_of (c ∷ s) = some (c ∷ s)

abbrev pub local_info : Bool → Option ℕ → Text → CopyInfo
local_info is_add mode chown = record {
  mode = mode;
  follow_symlinks = true;
  copy_dir_contents_only = true;
  attempt_unpack = is_add;
  create_dest_path = true;
  allow_wildcard = true;
  allow_empty_wildcard = true;
  user = user_of chown;
}

abbrev pub remote_info : Option ℕ → Text → CopyInfo
remote_info mode chown = record {
  mode = mode;
  follow_symlinks = false;
  copy_dir_contents_only = false;
  attempt_unpack = false;
  create_dest_path = true;
  allow_wildcard = false;
  allow_empty_wildcard = false;
  user = user_of chown;
}

-- The message of the commit
unfoldable pub sources_message : List Text → Text
sources_message [] = []
sources_message (src ∷ srcs) = codes " " ++ (src ++ sources_message srcs)

unfoldable pub contents_message : List SourceContent → Text
contents_message [] = []
contents_message (c ∷ cs) = codes " <<" ++ (c.path ++ contents_message cs)

abbrev pub verb : Bool → Text
verb true = codes "ADD"
verb false = codes "COPY"

module _ (llb : Llb) where
  -- `pathRelativeToWorkingDir`
  unfoldable pub path_relative_to_working_dir : llb.State → Text → Result Text
  unfolding join_paths
  path_relative_to_working_dir st p =
      if is_abs p then ok p else (llb.get_dir st >>= λ dir. ok (join_paths (dir ∷ p ∷ [])))

  abbrev pub copied : llb.State → Text → Text → CopyInfo → Copied llb.State
  copied from file dest info = record { from = from; file = file; dest = dest; info = info }

  -- The loop over the paths
  unfoldable pub copy_paths :
      llb.State → Bool → Option ℕ → Text → Text → List Text → Result (List (Copied llb.State))
  unfolding has_prefix base text_eq join_paths
  copy_paths st is_add mode chown dest [] = ok []
  copy_paths st is_add mode chown dest (src ∷ srcs) =
      let file = file_of_path (llb.url_path src) in
      let rest = copy_paths st is_add mode chown dest srcs in
      if is_url src
      then (if is_add
          then (rest >>= λ cs.
              ok (copied (llb.http src file) file dest (remote_info mode chown) ∷ cs))
          else err url_for_copy)
      else (rest >>= λ cs.
          ok (
            copied st (join_paths (codes "/" ∷ src ∷ [])) dest (local_info is_add mode chown) ∷ cs))

  -- The loop over the inline contents: 0664 is 436.
  abbrev pub copy_content : Option ℕ → Text → Text → SourceContent → Copied llb.State
  copy_content mode chown dest c =
      copied (llb.inline_file c.path 436 c.data_text) c.path dest (remote_info mode chown)

  abbrev pub cache_constraint : Dispatched llb → List Constraint
  cache_constraint d = if d.ignores_cache then ignore_cache ∷ [] else []

  -- The commit message of both functions
  abbrev pub copy_message : Bool → SourcesAndDest → Text
  copy_message is_add c =
      verb is_add
      ++ (sources_message c.source_paths
          ++ (contents_message c.source_contents ++ (codes " " ++ c.dest_path)))

  abbrev pub step_name : Dispatched llb → DispatchOpt llb → Text → List Text → Text × Dispatched llb
  step_name d opt code env =
      prefix_command llb d (uppercase_cmd (process_cmd_env opt.shlex code env))
        (some (platform_or opt.target_platform d.platform))

  abbrev pub finish_copy :
      DispatchOpt llb
      → Origin
      → Text
      → List (Copied llb.State)
      → Dispatched llb
      → List Text
      → Result (Dispatched llb)
  finish_copy opt origin message copies d env =
      let (name, d') = step_name d opt origin.code env in
      commit llb
        (record d' {
          state =
              llb.copy d'.state copies
                (custom_name name ∷ at_location origin.location ∷ cache_constraint d');
        })
        message true true

  -- `dispatchCopyFileOp`
  unfoldable pub dispatch_copy_file_op :
      Dispatched llb
      → DispatchOpt llb
      → SourcesAndDest
      → llb.State
      → Bool
      → Origin
      → Text
      → Text
      → Result (Dispatched llb)
  unfolding path_relative_to_working_dir copy_paths prefix_command uppercase_cmd process_cmd_env
      parse_uint sources_message contents_message commit text_eq ends_open join_paths
  dispatch_copy_file_op d opt c st is_add origin chown chmod =
      path_relative_to_working_dir d.state c.dest_path >>= λ pp.
      let dest = with_slash c.dest_path (join_paths (codes "/" ∷ pp ∷ [])) in
      let mode = octal_mode chmod in
      copy_paths st is_add mode chown dest c.source_paths >>= λ copies. llb.env d.state >>= λ env.
      finish_copy opt origin (copy_message is_add c)
        (copies ++ map (copy_content mode chown dest) c.source_contents) d env

  -- The variables of the loop of `dispatchCopy`: the targets, the mounts and `unpack`
  pub record Targets : Type 0 where
    pub targets : List Text
    pub mounts : List (RunOption llb.State)
    pub unpack : Bool

  abbrev pub src_dir : ℕ → Text
  src_dir i = codes "/src-" ++ decimal i

  abbrev pub add_local : ℕ → Text → llb.State → Targets → Option (Text × Text) → Result Targets
  add_local i src st t none = err wildcard_panic
  add_local i src st t (some (d, [])) = ok (record {
    targets = join_paths (src_dir i ∷ base src ∷ []) ∷ t.targets;
    mounts =
        RunOption.mount (join_paths (src_dir i ∷ base src ∷ [])) st (source_path d ∷ read_only ∷ [])
        ∷ t.mounts;
    unpack = t.unpack;
  })
  add_local i src st t (some (d, c ∷ f)) = ok (record {
    targets = join_paths (src_dir i ∷ (c ∷ f) ∷ []) ∷ t.targets;
    mounts = RunOption.mount (src_dir i) st (source_path d ∷ read_only ∷ []) ∷ t.mounts;
    unpack = t.unpack;
  })

  abbrev pub add_remote : Text → Text → Text → Targets → Targets
  add_remote src target file t = record {
    targets = target ∷ t.targets;
    mounts = RunOption.mount (dir target) (llb.http src file) (read_only ∷ []) ∷ t.mounts;
    unpack = false;
  }

  -- The loop over the paths, from the index `i` on
  unfoldable pub target_paths : llb.State → Bool → ℕ → List Text → Result Targets
  unfolding split_wildcards has_prefix base dir text_eq join_paths decimal
  target_paths st is_add i [] = ok (record { targets = []; mounts = []; unpack = is_add })
  target_paths st is_add i (src ∷ srcs) =
      let rest = target_paths st is_add (suc i) srcs in
      let file = file_of_path (llb.url_path src) in
      if is_url src
      then (if is_add
          then (rest >>= λ t. ok (add_remote src (join_paths (src_dir i ∷ file ∷ [])) file t))
          else err url_for_copy)
      else elim (split_wildcards src) [
        | none ↦ err wildcard_panic
        | some p ↦ rest >>= λ t. add_local i src st t (some p)
      ]

  abbrev pub owner_mounts : llb.State → Text → List (RunOption llb.State)
  owner_mounts st chown = elim (parse_user chown) [
    | some owner ↦ []
    | none ↦
        RunOption.mount (codes "/etc/passwd") st
          (source_path (codes "/etc/passwd") ∷ read_only ∷ [])
        ∷ RunOption.mount (codes "/etc/group") st
            (source_path (codes "/etc/group") ∷ read_only ∷ [])
        ∷ []
  ]

  abbrev pub chown_args : Text → List Text
  chown_args chown = if text_eq chown [] then [] else (codes "--chown=" ++ chown) ∷ []

  abbrev pub chown_mounts : llb.State → Text → List (RunOption llb.State)
  chown_mounts st chown = if text_eq chown [] then [] else owner_mounts st chown

  -- `args` behind the loop
  abbrev pub copy_args : Bool → Text → List Text → Text → List Text
  copy_args unpack chown targets dest =
      codes "copy"
      ∷ ((if unpack then codes "--unpack" ∷ [] else [])
          ++ (chown_args chown ++ (targets ++ dest ∷ [])))

  abbrev pub no_network : Option Caps → List (RunOption llb.State)
  no_network none = []
  no_network (some caps) = if caps.exec_meta_network then RunOption.network net_none ∷ [] else []

  abbrev pub run_copy :
      DispatchOpt llb
      → Origin
      → Text
      → Text
      → Text
      → Targets
      → Dispatched llb
      → List Text
      → Result (Dispatched llb)
  run_copy opt origin message chown dest t d env =
      let mounts = chown_mounts d.state chown ++ t.mounts in
      let (name, d') = step_name d opt origin.code env in
      commit llb
        (record d' {
          state =
              llb.copy_image opt.copy_image_name opt.build_platform
                (platform_or opt.target_platform d'.platform) d'.state
                (RunOption.args (copy_args t.unpack chown t.targets dest)
                  ∷ RunOption.constraint (description origin.code)
                  ∷ RunOption.constraint (custom_name name)
                  ∷ RunOption.constraint (at_location origin.location)
                  ∷ (map RunOption.constraint (cache_constraint d')
                      ++ (no_network opt.caps ++ mounts)));
        })
        message true true

  -- `dispatchCopy` behind the checks, where file operations are not supported
  unfoldable pub dispatch_copy_image :
      Dispatched llb
      → DispatchOpt llb
      → SourcesAndDest
      → llb.State
      → Bool
      → Origin
      → Text
      → Result (Dispatched llb)
  unfolding path_relative_to_working_dir target_paths prefix_command uppercase_cmd process_cmd_env
      parse_user sources_message contents_message commit text_eq ends_open join_paths
  dispatch_copy_image d opt c st is_add origin chown =
      path_relative_to_working_dir d.state c.dest_path >>= λ pp.
      target_paths st is_add 0 c.source_paths >>= λ t. llb.env d.state >>= λ env.
      run_copy opt origin (copy_message is_add c) chown
        (with_slash c.dest_path (join_paths (codes "." ∷ pp ∷ []))) t d env

  abbrev pub is_nil {ℓ} : {A : Type ℓ} → List A → Bool
  is_nil [] = true
  is_nil (a ∷ rest) = false

  -- `dispatchCopy`
  unfoldable pub dispatch_copy :
      Dispatched llb
      → DispatchOpt llb
      → SourcesAndDest
      → llb.State
      → Bool
      → Origin
      → Text
      → Text
      → Result (Dispatched llb)
  unfolding use_file_op dispatch_copy_file_op dispatch_copy_image text_eq
  dispatch_copy d opt c st is_add origin chown chmod =
      if use_file_op opt.build_arg_values opt.caps
      then dispatch_copy_file_op d opt c st is_add origin chown chmod
      else if not (is_nil c.source_contents)
      then err no_inline_content
      else if not (text_eq chmod [])
      then err no_chmod
      else dispatch_copy_image d opt c st is_add origin chown
