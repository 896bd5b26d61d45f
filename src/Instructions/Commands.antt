-- ===== src/Instructions/Commands.antt =====
-- The types of parser/instructions/commands.go. A type for the build stages and the commands
-- stands for the interface that `ParseInstruction` returns.
use dockerfile.Base.{List, Bool, Option}
use dockerfile.Base.Text.{Text}
use dockerfile.Parser.Error.{Range}
use dockerfile.Instructions.Mount.{Mount}
use dockerfile.Instructions.Numbers.{ℤ}

-- `withNameAndCode`
pub record Code : Type 0 where
  pub code : Text
  pub name : Text
  pub location : List Range

pub record KeyValuePair : Type 0 where
  pub key : Text
  pub value : Text

pub record KeyValuePairOptional : Type 0 where
  pub key : Text
  pub value : Option Text
  pub comment : Text

pub record SourceContent : Type 0 where
  pub path : Text
  pub data_text : Text
  pub expand : Bool

pub record SourcesAndDest : Type 0 where
  pub dest_path : Text
  pub source_paths : List Text
  pub source_contents : List SourceContent

pub record ShellInlineFile : Type 0 where
  pub name : Text
  pub data_text : Text
  pub chomp : Bool

-- `cmd_line` is `none` for nil.
pub record ShellDependantCmdLine : Type 0 where
  pub cmd_line : Option (List Text)
  pub files : List ShellInlineFile
  pub prepend_shell : Bool

-- `container.HealthConfig`, with the durations in nanoseconds
pub record HealthConfig : Type 0 where
  pub test : List Text
  pub interval : ℤ
  pub timeout : ℤ
  pub start_period : ℤ
  pub retries : ℤ

-- `RunCommand`: the values of the --mount flags stand in `mount_flags`, and the rest of its
-- external data in the last fields; `security` is `none` without the build tag dfrunsecurity.
pub record RunCommand : Type 0 where
  pub cmdline : ShellDependantCmdLine
  pub flags_used : List Text
  pub mount_flags : List Text
  pub mounts : List Mount
  pub network : Text
  pub security : Option Text

pub data Body : Type 0 where
  -- `EnvCommand`, `LabelCommand` with its flag `noExpand`
  env : List KeyValuePair → Body
  label : List KeyValuePair → Bool → Body
  maintainer workdir user stop_signal onbuild : Text → Body
  -- sources, chown, chmod; for `CopyCommand` also from, which comes second
  add : SourcesAndDest → Text → Text → Body
  copy : SourcesAndDest → Text → Text → Text → Body
  run : RunCommand → Body
  cmd entrypoint : ShellDependantCmdLine → Body
  health_check : HealthConfig → Body
  expose volume shell : List Text → Body
  arg : List KeyValuePairOptional → Body

-- A command, with its name and code
pub record Command : Type 0 where
  pub base : Code
  pub body : Body

pub record Stage : Type 0 where
  pub name : Text
  pub commands : List Command
  pub base_name : Text
  pub source_code : Text
  pub platform : Text
  pub location : List Range
  pub comment : Text

pub data Instruction : Type 0 where
  stage : Stage → Instruction
  command : Command → Instruction
