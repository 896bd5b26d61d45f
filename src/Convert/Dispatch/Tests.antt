-- ===== src/Convert/Dispatch/Tests.antt =====
-- The commands of a stage at concrete inputs, with a state of LLB that lists what has been done to it.
use dockerfile.Convert.Stages.{count_steps}
use dockerfile.Base.{
  ◌≤◌, ◌+◌, ℕ, List, [], ◌∷◌, ◌++◌, Bool, true, false, Option, none, some, snoc, map, ◌≡◌, refl,
}
use dockerfile.Base.Text.{Text, codes, text_eq, is_space, has_prefix}
use dockerfile.Shell.Lex.{new_lex}
use dockerfile.Instructions.Commands.{
  Command, Body, SourcesAndDest, env, workdir, entrypoint, onbuild, ShellDependantCmdLine,
}
use dockerfile.Convert.Error.{Result, ok, err}
use dockerfile.Convert.Platform.{Platform}
use dockerfile.Convert.Environment.{with_shell}
use dockerfile.Convert.Image.{Image, History}
use dockerfile.Convert.Messages.{
  step_prefix, run_command_string, summarize_heredoc, quote_codes, decimal,
}
use dockerfile.Convert.Wildcards.{split_wildcards}
use dockerfile.Convert.States.Filled.{Ok}
use dockerfile.Convert.Dispatch.State.{Llb, Dispatched, DispatchOpt, use_file_op}
use dockerfile.Convert.Dispatch.Step.{dispatch_body, dispatch_all}
use dockerfile.Convert.Dispatch.Copy.{Origin, dispatch_copy}
use dockerfile.Convert.Dispatch.Urls.{Refused, dispatch_copy-Refused}
use dockerfile.Convert.Dispatch.Rules.{Follows, dispatch_body-Follows}
use dockerfile.Convert.Dispatch.Stage.{Together, dispatch_all-Together, dispatch_all-index}

abbrev log : Llb
log = record {
  State = List Text;
  scratch = [];
  add_env = λ st k v. snoc st (k ++ (codes "=" ++ v));
  dir = λ st d. snoc st (codes "dir " ++ d);
  user = λ st u. snoc st (codes "user " ++ u);
  env = λ st. ok (codes "A=1" ∷ []);
  get_dir = λ st. ok (codes "/w");
  get_platform = λ st. ok none;
  run = λ st opts. snoc st (codes "run");
  mkdir = λ st p u cs. snoc st (codes "mkdir " ++ p);
  copy = λ st cs opts. snoc st (codes "copy");
  inline_file = λ p m s. (codes "file " ++ p) ∷ [];
  http = λ src f. (codes "http " ++ src) ∷ [];
  cache_dir = λ st o. st;
  cache_script = λ st s. st;
  copy_image = λ img b p st opts. snoc st (codes "copy image");
  url_path = λ src. some src;
  format_platform = λ p. p.os;
  parse_port_specs = λ ps. ok ps;
  is_signal = λ s. true;
  quote_health = λ h. [];
}

abbrev linux : Platform
linux = record { os = codes "linux"; architecture = codes "amd64"; variant = [] }

abbrev base_image : Image
base_image = record {
  author = [];
  architecture = linux.architecture;
  os = linux.os;
  variant = [];
  config = record {
    user = [];
    exposed_ports = [];
    env = [];
    entrypoint = [];
    cmd = codes "sh" ∷ [];
    volumes = [];
    working_dir = codes "/";
    labels = [];
    stop_signal = [];
    healthcheck = none;
    args_escaped = false;
    on_build = [];
    shell = [];
  };
  history = [];
}

abbrev fresh : Dispatched log
fresh = record {
  state = [];
  image = base_image;
  platform = none;
  build_args = [];
  ctx_paths = [];
  ignores_cache = false;
  cmd_set = false;
  stage_name = codes "s";
  cmd_index = 0;
  cmd_total = 12;
  prefix_platform = false;
}

abbrev options : DispatchOpt log
options = record {
  meta_args = [];
  build_arg_values = [];
  shlex = new_lex b'\\';
  build_context = [];
  proxy_env = none;
  cache_id_namespace = [];
  target_platform = linux;
  build_platform = linux;
  extra_hosts = [];
  shm = 0;
  ulimits = [];
  cgroup = [];
  copy_image_name = codes "copy";
  caps = some (record {
    file_base = true;
    exec_meta_ulimit = true;
    exec_mount_tmpfs_size = true;
    exec_meta_cgroup_parent = true;
    exec_meta_network = true;
    bind_read_write_no_output = true;
  });
  state_of = λ p. [];
}

abbrev origin : Origin
origin = record { code = codes "WORKDIR x"; location = [] }

abbrev sh_line : Text → ShellDependantCmdLine
sh_line s = record { cmd_line = some (s ∷ []); files = []; prepend_shell = true }

abbrev command : Body → Command × List ℕ
command b = (record { base = record { code = codes "c"; name = []; location = [] }; body = b }, [])

run_messages :
    (step_prefix (some (codes "linux")) (codes "s") 1 12 ≡ codes "[linux s  1/12] ")
    × (run_command_string
          (codes "sh" ∷ codes "-c" ∷ codes "ls" ∷ [])
          (record { key = codes "A"; value = none; comment = [] } ∷ [])
          ((codes "A", codes "1") ∷ [])
        ≡ codes "|1 A=1 sh -c ls")
    × (summarize_heredoc (codes "\r\n a\r\nb\n") ≡ codes "a...")
    × (decimal 4096 ≡ codes "4096")
unfolding step_prefix run_command_string summarize_heredoc decimal text_eq is_space
run_messages = (refl, refl, refl, refl)

run_split_wildcards :
    (split_wildcards (codes "a/b*c") ≡ some (codes "a", codes "b*c"))
    × (split_wildcards (codes "a/") ≡ some (codes "a/", []))
    × (split_wildcards (codes "x/\\*y/?z") ≡ some (codes "x/\\*y", codes "?z"))
    × (split_wildcards (codes "a\\") ≡ none)
unfolding split_wildcards text_eq
run_split_wildcards = (refl, refl, refl, refl)

dispatch_body-Follows_example :
    Ok
      (Follows log fresh options (workdir (codes "x")))
      (dispatch_body log fresh options [] origin (workdir (codes "x")))
dispatch_body-Follows_example =
    dispatch_body-Follows log fresh options [] origin (workdir (codes "x"))

abbrev stage_commands : List (Command × List ℕ)
stage_commands =
    command (env (record { key = codes "A"; value = codes "$A-2" } ∷ []))
    ∷ command (onbuild (codes "RUN ls"))
    ∷ command (entrypoint (sh_line (codes "ls")))
    ∷ command (workdir (codes "x"))
    ∷ []

abbrev no_csv : Text → Option (List Text)
no_csv s = none

abbrev no_size : Text → Option ℕ
no_size s = none

dispatch_all-Together_example :
    Ok
      (Together log no_csv no_size stage_commands fresh)
      (dispatch_all log no_csv no_size fresh options stage_commands)
dispatch_all-Together_example =
    dispatch_all-Together log no_csv no_size fresh options stage_commands

dispatch_all-index_example :
    Ok
      (λ (d' : Dispatched log).
        d'.cmd_index
        ≤ fresh.cmd_index
          + count_steps
              (use_file_op options.build_arg_values options.caps)
              (map (λ c. c.0) stage_commands))
      (dispatch_all log no_csv no_size fresh options stage_commands)
dispatch_all-index_example = dispatch_all-index log no_csv no_size fresh options stage_commands

abbrev made : Result (Dispatched log) → List Text × List Text × Text × List (Text × Bool)
made (ok d) = (
  d.state,
  d.image.config.env,
  d.image.config.working_dir,
  map (λ (h : History). (h.created_by, h.empty_layer)) d.image.history,
)
made (err e) = ([], [], [], [])

run_stage : made (dispatch_all log no_csv no_size fresh options stage_commands) ≡ (
  codes "A=1-2" ∷ codes "dir x" ∷ codes "mkdir /x" ∷ [],
  codes "A=1-2" ∷ [],
  codes "/x",
  (codes "ENV A=1-2", true)
      ∷ (codes "ENTRYPOINT [\"/bin/sh\" \"-c\" \"ls\"]", true)
      ∷ (codes "WORKDIR /x", false)
      ∷ [],
)
unfolding dispatch_all text_eq is_space new_lex with_shell quote_codes
run_stage = refl

abbrev with_a_url : SourcesAndDest
with_a_url = record {
  dest_path = codes "/";
  source_paths = codes "f" ∷ codes "https://x/y" ∷ [];
  source_contents = [];
}

dispatch_copy-Refused_example :
    Refused (dispatch_copy log fresh options with_a_url [] false origin [] [])
unfolding has_prefix
dispatch_copy-Refused_example =
    dispatch_copy-Refused log fresh options with_a_url [] origin [] [] refl
