-- ===== src/Instructions/Error.antt =====
-- The errors of parser/instructions: bflag.go, commands_runmount.go with the other files on RUN,
-- and parse.go with commands.go. The hints that `suggest.WrapError` adds to a message are the list
-- of words that it looks for one in.
use dockerfile.Base.{ℕ, List}
use dockerfile.Base.Text.{Text}

-- bflag.go
pub data FlagError : Type 0 where
  duplicate_defined : Text → FlagError
  setting_up : FlagError → FlagError
  no_dashes duplicate_specified missing_value : Text → FlagError
  unknown_flag : Text → List Text → FlagError
  not_boolean : Text → Text → FlagError

-- commands_runmount.go, commands_runnetwork.go, commands_runsecurity.go
pub data RunError : Type 0 where
  bad_csv not_pair no_expansion unsupported_sharing : Text → RunError
  unexpected_for_type invalid_value not_allowed_for : Text → Text → RunError
  unsupported_type : Text → List Text → RunError
  unexpected_key : Text → Text → List Text → RunError
  sharing_not_cache : Text → RunError
  secret_with_from secret_with_sharing secret_without_source secret_source_and_id : RunError
  invalid_network invalid_security : Text → RunError

-- parse.go, commands.go
pub data InstructionError : Type 0 where
  unknown_instruction : Text → ℕ → List Text → InstructionError
  at_least_one exactly_one no_destination blank_names too_many not_json : Text → InstructionError
  bad_heredoc : Text → InstructionError
  invalid_stage_name : Text → InstructionError
  from_arguments onbuild_chained : InstructionError
  onbuild_trigger : Text → InstructionError
  none_with_arguments missing_health_command : InstructionError
  unknown_health_type bad_duration short_interval bad_retries few_retries : Text → InstructionError
  empty_volume no_stage not_a_command : InstructionError
  stop_signal_on_windows : InstructionError
