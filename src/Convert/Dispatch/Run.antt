-- ===== src/Convert/Dispatch/Run.antt =====
-- dockerfile2llb/convert.go: `dispatchRun`.
use dockerfile.Base.{
  ℕ, List, [], ◌∷◌, ◌++◌, Bool, true, false, ◌&&◌, not, Option, none, some, map, if◌then◌else◌, ltb,
}
use dockerfile.Base.Text.{Text, codes, text_eq, has_prefix}
use dockerfile.Shell.Env.{build_envs}
use dockerfile.Shell.Lex.{Lex}
use dockerfile.Parser.Heredoc.{must_parse_heredoc, chomp_heredoc_content}
use dockerfile.Instructions.Commands.{RunCommand, ShellInlineFile}
use dockerfile.Convert.Error.{Result, ok, err, ◌>>=◌, invalid_run}
use dockerfile.Convert.Platform.{Platform}
use dockerfile.Convert.Image.{in_shell}
use dockerfile.Convert.Environment.{uppercase_cmd}
use dockerfile.Convert.Messages.{process_cmd_env, summarize_heredoc, run_command_string}
use dockerfile.Convert.Dispatch.State.{
  Llb, Dispatched, DispatchOpt, prefix_command, custom_name, at_location, description, ignore_cache,
  RunOption, source_path, read_only, Caps, Ulimit, ProxyEnv,
}
use dockerfile.Convert.Dispatch.Config.{commit, words}
use dockerfile.Convert.Dispatch.Mounts.{dispatch_run_mounts}
use dockerfile.Convert.Dispatch.Flags.{dispatch_run_security, dispatch_run_network}
use dockerfile.Convert.Dispatch.Copy.{Origin}
use dockerfile.Paths.{join_paths}

abbrev pub file_data : ShellInlineFile → Text
file_data f = if f.chomp then chomp_heredoc_content f.data_text else f.data_text

unfoldable pub with_files : Text → List ShellInlineFile → Text
with_files full [] = full
with_files full (f ∷ fs) = with_files (full ++ b'\n' ∷ (f.data_text ++ f.name)) fs

module _ (llb : Llb) where
  -- The variables `args`, `customname` and `opt` behind the here-documents
  pub record Script : Type 0 where
    pub words : List Text
    pub name : Text
    pub options : List (RunOption llb.State)

  abbrev pub summarized : Text → ShellInlineFile → Text
  summarized code f = code ++ (codes " (" ++ (summarize_heredoc f.data_text ++ codes ")"))

  -- A script with `#!` becomes a file that is run: 0755 is 493.
  abbrev pub run_file : Text → ShellInlineFile → Script
  run_file code f = record {
    words = join_paths (codes "/dev/pipes/" ∷ f.name ∷ []) ∷ [];
    name = summarized code f;
    options =
        RunOption.mount (codes "/dev/pipes/") (llb.inline_file f.name 493 (file_data f))
          (source_path (codes "/") ∷ read_only ∷ [])
        ∷ [];
  }

  abbrev pub run_text : Text → ShellInlineFile → Script
  run_text code f = record { words = file_data f ∷ []; name = summarized code f; options = [] }

  abbrev pub single : Text → Text → ShellInlineFile → Script
  single os code f =
      if not (text_eq os (codes "windows")) && has_prefix f.data_text (codes "#!")
      then run_file code f
      else run_text code f

  abbrev pub is_heredoc : Text → Bool
  is_heredoc arg = elim (must_parse_heredoc arg) [ none ↦ false | some h ↦ true ]

  abbrev pub of_files :
      Text → Text → ShellInlineFile → List ShellInlineFile → Bool → List Text → Result Script
  of_files os code f fs true (arg ∷ []) =
      if is_heredoc arg
      then ok (single os code f)
      else ok (record { words = with_files arg (f ∷ fs) ∷ []; name = code; options = [] })
  of_files os code f fs prepend args = err invalid_run

  abbrev pub script_from : Text → Text → List ShellInlineFile → Bool → List Text → Result Script
  script_from os code [] prepend args = ok (record { words = args; name = code; options = [] })
  script_from os code (f ∷ fs) prepend args = of_files os code f fs prepend args

  -- The here-documents of a command
  unfoldable pub script_of : Text → Text → RunCommand → Result Script
  unfolding must_parse_heredoc chomp_heredoc_content with_files summarize_heredoc has_prefix text_eq
      join_paths
  script_of os code r =
      script_from os code r.cmdline.files r.cmdline.prepend_shell (words r.cmdline.cmd_line)

  abbrev pub if_some : Option (RunOption llb.State) → List (RunOption llb.State)
  if_some none = []
  if_some (some o) = o ∷ []

  abbrev pub proxy_options : Option ProxyEnv → List (RunOption llb.State)
  proxy_options none = []
  proxy_options (some p) = RunOption.with_proxy p ∷ []

  abbrev pub ulimit_options : Option Caps → List Ulimit → List (RunOption llb.State)
  ulimit_options none us = []
  ulimit_options (some caps) us = if caps.exec_meta_ulimit then map RunOption.ulimit us else []

  abbrev pub host_option : Text × Text → RunOption llb.State
  host_option (host, ip) = RunOption.extra_host host ip

  abbrev pub shm_options : Option Caps → ℕ → List (RunOption llb.State)
  shm_options none n = []
  shm_options (some caps) n =
      if caps.exec_mount_tmpfs_size && ltb 0 n then RunOption.shm_size n ∷ [] else []

  abbrev pub cgroup_options : Option Caps → Text → List (RunOption llb.State)
  cgroup_options none parent = []
  cgroup_options (some caps) [] = []
  cgroup_options (some caps) (c ∷ parent) =
      if caps.exec_meta_cgroup_parent then RunOption.cgroup_parent (c ∷ parent) ∷ [] else []

  -- The options that come before the name of the step
  abbrev pub first_options :
      Dispatched llb
      → DispatchOpt llb
      → Origin
      → List Text
      → List (RunOption llb.State)
      → List (RunOption llb.State)
  first_options d opt origin args script =
      script
      ++ (RunOption.args args
          ∷ RunOption.constraint (description origin.code)
          ∷ RunOption.constraint (at_location origin.location)
          ∷ ((if d.ignores_cache then RunOption.constraint ignore_cache ∷ [] else [])
              ++ proxy_options opt.proxy_env))

  -- `shlex` with the two flags that are set for the name
  abbrev pub name_lex : Lex → Lex
  name_lex lex = record lex { raw_quotes = true; skip_unset_env = true }

  abbrev pub run_script :
      DispatchOpt llb
      → List (RunOption llb.State)
      → List Text
      → Text
      → Option Platform
      → Dispatched llb
      → List Text
      → Result (Dispatched llb)
  run_script opt before args custom platform d env =
      let (name, d') =
        prefix_command llb d (uppercase_cmd (process_cmd_env (name_lex opt.shlex) custom env))
          platform in
      commit llb
        (record d' {
          state = llb.run d'.state (
              before
              ++ (RunOption.constraint (custom_name name)
                  ∷ (map host_option opt.extra_hosts
                      ++ (shm_options opt.caps opt.shm ++ cgroup_options opt.caps opt.cgroup))));
        })
        (codes "RUN " ++ run_command_string args d.build_args (build_envs env)) true true

  -- `dispatchRun`, with the sources of its mounts
  unfoldable pub dispatch_run :
      Dispatched llb → DispatchOpt llb → RunCommand → List ℕ → Origin → Result (Dispatched llb)
  unfolding script_of dispatch_run_mounts dispatch_run_security dispatch_run_network prefix_command
      uppercase_cmd process_cmd_env run_command_string build_envs commit
  dispatch_run d opt r sources origin = script_of d.image.os origin.code r >>= λ script.
      let args = if r.cmdline.prepend_shell then in_shell d.image script.words else script.words in
      llb.env d.state >>= λ env. dispatch_run_mounts llb d opt r.mounts sources >>= λ (mounts, d').
      dispatch_run_security r.security >>= λ security. dispatch_run_network r.network >>= λ network.
      llb.get_platform d'.state >>= λ platform.
      run_script opt
        (first_options d opt origin args script.options
          ++ (mounts
              ++ (if_some security ++ (if_some network ++ ulimit_options opt.caps opt.ulimits))))
        args script.name platform d' env
