-- ===== src/Convert/Dispatch/State.antt =====
-- dockerfile2llb/convert.go: the state of a stage while its commands are dispatched, and what the code
-- calls of other packages: the state of LLB (client/llb) and some parsers. These are the record `Llb`.
use dockerfile.Base.{
  ℕ, suc, List, ◌++◌, Bool, true, false, ◌==◌, ◌&&◌, not, Option, none, some, if◌then◌else◌,
}
use dockerfile.Base.Text.{Text, codes}
use dockerfile.Parser.Error.{Range}
use dockerfile.Shell.Env.{Env}
use dockerfile.Shell.Lex.{Lex}
use dockerfile.Instructions.Commands.{KeyValuePairOptional, HealthConfig}
use dockerfile.Instructions.Numbers.{ℤ, parse_bool}
use dockerfile.Convert.Error.{Result}
use dockerfile.Convert.Platform.{Platform}
use dockerfile.Convert.Image.{Image}
use dockerfile.Convert.Environment.{find_value}
use dockerfile.Convert.Messages.{step_prefix}

-- `llb.ProxyEnv`
pub record ProxyEnv : Type 0 where
  pub http_proxy : Text
  pub https_proxy : Text
  pub ftp_proxy : Text
  pub no_proxy : Text
  pub all_proxy : Text

-- `llb.CacheMountSharingMode`
pub data Sharing : Type 0 where
  shared private locked : Sharing

-- The uid, the gid and the mode of a file
pub record Owner : Type 0 where
  pub uid : ℕ
  pub gid : ℕ
  pub mode : ℕ

-- `llb.SecretOption`, `llb.SSHOption`
pub data SecretOption : Type 0 where
  secret_id : Text → SecretOption
  secret_optional : SecretOption
  secret_file : Owner → SecretOption

pub data SshOption : Type 0 where
  ssh_id ssh_target : Text → SshOption
  ssh_optional : SshOption
  ssh_socket : Text → Owner → SshOption

-- `llb.MountOption`
pub data MountOption : Type 0 where
  tmpfs_size : ℕ → MountOption
  read_only force_no_output : MountOption
  persistent_cache : Text → Sharing → MountOption
  source_path : Text → MountOption

-- `pb.NetMode`, `pb.SecurityMode`
pub data NetMode : Type 0 where
  net_sandbox net_none net_host : NetMode

pub data SecurityMode : Type 0 where
  sandbox insecure : SecurityMode

-- `pb.Ulimit`
pub record Ulimit : Type 0 where
  pub name : Text
  pub soft : ℤ
  pub hard : ℤ

-- `llb.CopyInfo` with the `CopyOption` for the owner
pub record CopyInfo : Type 0 where
  pub mode : Option ℕ
  pub follow_symlinks : Bool
  pub copy_dir_contents_only : Bool
  pub attempt_unpack : Bool
  pub create_dest_path : Bool
  pub allow_wildcard : Bool
  pub allow_empty_wildcard : Bool
  pub user : Option Text

-- `llb.ConstraintsOpt`: dfCmd, location, WithCustomName, IgnoreCache
pub data Constraint : Type 0 where
  description : Text → Constraint
  at_location : List Range → Constraint
  custom_name : Text → Constraint
  ignore_cache : Constraint

-- `llb.RunOption`, over the states that are mounted
pub data RunOption (S : Type 0) : Type 0 where
  args : List Text → RunOption S
  constraint : Constraint → RunOption S
  with_proxy : ProxyEnv → RunOption S
  mount : Text → S → List MountOption → RunOption S
  secret : Text → List SecretOption → RunOption S
  ssh : List SshOption → RunOption S
  security : SecurityMode → RunOption S
  network : NetMode → RunOption S
  ulimit : Ulimit → RunOption S
  extra_host : Text → Text → RunOption S
  shm_size : ℕ → RunOption S
  cgroup_parent : Text → RunOption S

-- `llb.FileAction`: one copy of a state's file, which follows the others
pub record Copied (S : Type 0) : Type 0 where
  pub from : S
  pub file : Text
  pub dest : Text
  pub info : CopyInfo

-- `llb.State` and the functions that make one. `Env`, `GetDir` and `GetPlatform` may fail.
pub record Llb : Type 1 where
  pub State : Type 0
  pub scratch : State
  pub add_env : State → Text → Text → State
  pub dir : State → Text → State
  pub user : State → Text → State
  pub env : State → Result (List Text)
  pub get_dir : State → Result Text
  pub get_platform : State → Result (Option Platform)
  -- `Run(opts...).Root()`
  pub run : State → List (RunOption State) → State
  -- `File(llb.Mkdir(...))`, with the path, the user and the constraints
  pub mkdir : State → Text → Option Text → List Constraint → State
  -- `File(a)` with the copies of `a`
  pub copy : State → List (Copied State) → List Constraint → State
  -- `llb.Scratch().File(llb.Mkfile(path, mode, data))`, with the internal name
  pub inline_file : Text → ℕ → Text → State
  -- `llb.HTTP(src, llb.Filename(f))`, with the command for its description
  pub http : Text → Text → State
  -- the directory for a cache mount with its owner (setCacheUIDGIDFileOp), and the same by running the
  -- script in busybox (setCacheUIDGID)
  pub cache_dir : State → Owner → State
  pub cache_script : State → Text → State
  -- the copy image of the first platform, run in `/dest` with a root that is read only and with the state
  -- mounted there; the state that comes out is one of the second platform.
  pub copy_image : Text → Platform → Platform → State → List (RunOption State) → State
  -- `url.Parse(src)`: the path, where the URL is one
  pub url_path : Text → Option Text
  -- `platforms.Format`
  pub format_platform : Platform → Text
  -- `nat.ParsePortSpecs`: the ports, each once, in order
  pub parse_port_specs : List Text → Result (List Text)
  -- whether `signal.ParseSignal` accepts the signal
  pub is_signal : Text → Bool
  -- `%q` of a `*HealthConfig`
  pub quote_health : HealthConfig → Text

-- Which capabilities `llbCaps` supports; `none` is nil.
pub record Caps : Type 0 where
  pub file_base : Bool
  pub exec_meta_ulimit : Bool
  pub exec_mount_tmpfs_size : Bool
  pub exec_meta_cgroup_parent : Bool
  pub exec_meta_network : Bool
  pub bind_read_write_no_output : Bool

-- `useFileOp`
abbrev is_enabled : Option Text → Bool
is_enabled none = true
is_enabled (some v) = elim (parse_bool v) [ none ↦ true | some b ↦ not b ]

abbrev has_file_base : Option Caps → Bool
has_file_base none = false
has_file_base (some caps) = caps.file_base

unfoldable pub use_file_op : Env → Option Caps → Bool
unfolding find_value parse_bool
use_file_op build_args caps =
    is_enabled (find_value build_args (codes "BUILDKIT_DISABLE_FILEOP")) && has_file_base caps

module _ (llb : Llb) where
  -- `dispatchState` with the fields that change while its commands are dispatched
  pub record Dispatched : Type 0 where
    pub state : llb.State
    pub image : Image
    pub platform : Option Platform
    pub build_args : List KeyValuePairOptional
    pub ctx_paths : List Text
    pub ignores_cache : Bool
    pub cmd_set : Bool
    pub stage_name : Text
    pub cmd_index : ℕ
    pub cmd_total : ℕ
    pub prefix_platform : Bool

  -- `dispatchOpt`. `state_of` gives the LLB state of a source.
  pub record DispatchOpt : Type 0 where
    pub meta_args : List KeyValuePairOptional
    pub build_arg_values : Env
    pub shlex : Lex
    pub build_context : llb.State
    pub proxy_env : Option ProxyEnv
    pub cache_id_namespace : Text
    pub target_platform : Platform
    pub build_platform : Platform
    pub extra_hosts : List (Text × Text)
    pub shm : ℕ
    pub ulimits : List Ulimit
    pub cgroup : Text
    pub copy_image_name : Text
    pub caps : Option Caps
    pub state_of : ℕ → llb.State

  abbrev pub shown : Bool → Option Platform → Option Text
  shown false platform = none
  shown true none = none
  shown true (some p) = some (llb.format_platform p)

  -- `prefixCommand`, which counts the step
  unfoldable pub prefix_command : Dispatched → Text → Option Platform → Text × Dispatched
  unfolding step_prefix
  prefix_command d s platform = if d.cmd_total == 0 then (s, d) else (
    step_prefix (shown d.prefix_platform platform) d.stage_name (suc d.cmd_index) d.cmd_total ++ s,
    record d { cmd_index = suc d.cmd_index },
  )
