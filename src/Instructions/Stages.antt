-- ===== src/Instructions/Stages.antt =====
-- `ParseInstruction`, `ParseCommand` and `Parse` of parser/instructions/parse.go, and the helpers
-- on stages of commands.go. What the parse functions leave to other packages is the record `Other`.
pub mod Order
pub mod Lookup
use dockerfile.Base.{
  ℕ, zero, suc, ◌+◌, List, [], ◌∷◌, ◌++◌, Bool, true, false, Option, none, some, snoc, map,
  if◌then◌else◌,
}
use dockerfile.Base.Text.{
  Text, codes, trim_space, cut, contains, text_eq, to_lower, to_upper, equal_fold,
}
use dockerfile.Command.{name, of_name, commands}
use dockerfile.Command
use dockerfile.Parser.Heredoc.{must_parse_heredoc}
use dockerfile.Instructions.Mount.{parse_mounts}
use dockerfile.Parser.Ast.{attribute, Fields, Node, fields, Root}
use dockerfile.Parser.Error.{Error, Result, ok, err, ◌>>=◌, at_lines, with_location, parse_error}
use dockerfile.Parser.Error
use dockerfile.Instructions.Error.{
  unknown_instruction, no_stage, not_a_command, stop_signal_on_windows,
}
use dockerfile.Instructions.Numbers.{ℤ, one_of, parse_int}
use dockerfile.Instructions.Flags
use dockerfile.Instructions.Flags.{find_flag, add_string, add_strings, value_of, values_of}
use dockerfile.Instructions.Commands.{Instruction, stage, Stage, Body}
use dockerfile.Instructions.Commands
use dockerfile.Instructions.Request.{
  parse_kvps, get_comment, handle_json_args, new_code, Request, new_request,
}
use dockerfile.Instructions.Parsing.{
  parse_env, parse_label, parse_maintainer, parse_workdir, parse_user, parse_stop_signal,
  is_stage_name, parse_build_stage_name, optional_pairs, trimmed_volumes, without_onbuild,
  drop_word, sort_texts, insert_text, text_leb, parse_from, parse_on_build, parse_expose,
  parse_volume, parse_arg, parse_shell,
}
use dockerfile.Instructions.Parsing.Copying.{
  parse_add, parse_copy, split_last, heredoc_content, content_onto, add_sources,
  parse_sources_and_dest,
}
use dockerfile.Instructions.Parsing.Running.{
  parse_shell_dependent, is_valid_network, is_valid_security, pre_hooks, post_hooks, parse_cmd,
  parse_entrypoint, parse_run,
}
use dockerfile.Instructions.Parsing.Health.{
  parse_healthcheck, parse_opt_interval, parse_retries, health_of,
}

-- The CSV reader, the sizes and the durations of other packages, `container.MinimumDuration`, and
-- whether the build has the tag dfrunsecurity
pub record Other : Type 0 where
  pub read_csv : Text → Option (List Text)
  pub mem_bytes : Text → Option ℕ
  pub parse_duration : Text → Option ℤ
  pub minimum : ℕ
  pub sandboxed : Bool

-- `allInstructionNames`
abbrev pub all_instruction_names : List Text
all_instruction_names = map (λ c. to_upper (name c)) commands

abbrev pub as_command : Result Commands.Command → Result Instruction
as_command (ok c) = ok (Instruction.command c)
as_command (err e) = err e

abbrev pub as_stage : Result Stage → Result Instruction
as_stage (ok s) = ok (stage s)
as_stage (err e) = err e

-- The last stage with one more command: `CurrentStage` and `AddCommand`
unfoldable pub add_command : List Stage → Commands.Command → Option (List Stage)
add_command [] c = none
add_command (s ∷ []) c = some (record s { commands = snoc s.commands c } ∷ [])
add_command (s ∷ t ∷ ss) c = elim (add_command (t ∷ ss) c) [ none ↦ none | some ts ↦ some (s ∷ ts) ]

-- `IsCurrentStage`
unfoldable pub is_current_stage : List Stage → Text → Bool
is_current_stage [] name = false
is_current_stage (s ∷ []) name = text_eq s.name name
is_current_stage (s ∷ t ∷ ss) name = is_current_stage (t ∷ ss) name

-- `HasStage`: the index of the first stage with the name, in any case
unfoldable pub has_stage : List Stage → Text → Option ℕ
has_stage [] name = none
has_stage (s ∷ ss) name =
    if equal_fold s.name name
    then some 0
    else elim (has_stage ss name) [ none ↦ none | some n ↦ some (suc n) ]

-- `CheckPlatform`, which only STOPSIGNAL has; `none` is nil.
unfoldable pub check_platform : Text → Option Error
unfolding text_eq
check_platform platform =
    if text_eq platform (codes "windows")
    then some (Error.instruction stop_signal_on_windows)
    else none

-- The variables `stages` and `metaArgs`
pub record Built : Type 0 where
  pub stages : List Stage
  pub meta_args : List Commands.Command

abbrev pub is_arg : Body → Bool
is_arg (Body.arg _) = true
is_arg _ = false

abbrev pub with_stages : Built → ℕ → ℕ → Option (List Stage) → Result Built
with_stages b start end none = err (with_location (Error.instruction no_stage) start end)
with_stages b start end (some ss) = ok (record b { stages = ss })

-- A round of `Parse`, at the instruction of a node with these lines
unfoldable pub add_instruction : Built → ℕ → ℕ → Instruction → Result Built
add_instruction b start end (stage s) = ok (record b { stages = snoc b.stages s })
add_instruction b start end (Instruction.command c) = elim b.stages [
  | [] ↦
      if is_arg c.body
      then ok (record b { meta_args = snoc b.meta_args c })
      else err (with_location (Error.instruction no_stage) start end)
  | s ∷ ss ↦ with_stages b start end (add_command (s ∷ ss) c)
]

module _ (other : Other) where
  -- the `switch` of `ParseInstruction`
  unfoldable pub parse_request : Option Command.Command → Text → ℕ → Request → Result Instruction
  parse_request none value line req =
      err (Error.instruction (unknown_instruction value line all_instruction_names))
  parse_request (some Command.env) value line req = as_command (parse_env req)
  parse_request (some Command.maintainer) value line req = as_command (parse_maintainer req)
  parse_request (some Command.label) value line req = as_command (parse_label req)
  parse_request (some Command.add) value line req = as_command (parse_add req)
  parse_request (some Command.copy) value line req = as_command (parse_copy req)
  parse_request (some Command.from) value line req = as_stage (parse_from req)
  parse_request (some Command.onbuild) value line req = as_command (parse_on_build req)
  parse_request (some Command.workdir) value line req = as_command (parse_workdir req)
  parse_request (some Command.run) value line req =
      as_command (parse_run other.sandboxed other.read_csv other.mem_bytes req)
  parse_request (some Command.cmd) value line req = as_command (parse_cmd req)
  parse_request (some Command.healthcheck) value line req =
      as_command (parse_healthcheck other.parse_duration other.minimum req)
  parse_request (some Command.entrypoint) value line req = as_command (parse_entrypoint req)
  parse_request (some Command.expose) value line req = as_command (parse_expose req)
  parse_request (some Command.user) value line req = as_command (parse_user req)
  parse_request (some Command.volume) value line req = as_command (parse_volume req)
  parse_request (some Command.stop_signal) value line req = as_command (parse_stop_signal req)
  parse_request (some Command.arg) value line req = as_command (parse_arg req)
  parse_request (some Command.shell) value line req = as_command (parse_shell req)

  -- `ParseInstruction`
  unfoldable pub parse_instruction : Node → Result Instruction
  parse_instruction n =
      let f = fields n in
      at_lines f.start_line f.end_line
        (parse_request (of_name (to_lower f.value)) f.value f.start_line (new_request n))

  abbrev only_command : ℕ → ℕ → Instruction → Result Commands.Command
  only_command start end (Instruction.command c) = ok c
  only_command start end (stage s) = err (with_location (Error.instruction not_a_command) start end)

  -- `ParseCommand`
  unfoldable pub parse_command : Node → Result Commands.Command
  parse_command n = let f = fields n in parse_instruction n >>= only_command f.start_line f.end_line

  -- the error of `ParseInstruction`, as `Parse` returns it
  abbrev pub at_node {ℓ} : {A : Type ℓ} → Node → Result A → Result A
  at_node n (ok x) = ok x
  at_node n (err e) = err (parse_error ((fields n).start_line) e)

  -- The loop of `Parse`
  unfoldable pub build : Built → List Node → Result Built
  build b [] = ok b
  build b (n ∷ ns) = at_node n (parse_instruction n) >>= λ i.
      add_instruction b ((fields n).start_line) ((fields n).end_line) i >>= λ b'. build b' ns

  -- `Parse`
  unfoldable pub parse_stages : Root → Result Built
  unfolding build parse_instruction parse_request new_request add_instruction add_command of_name
      to_lower parse_env parse_label parse_maintainer parse_workdir parse_user parse_stop_signal
      parse_from parse_on_build parse_expose parse_volume parse_arg parse_shell parse_add parse_copy
      parse_cmd parse_entrypoint parse_run parse_healthcheck new_code handle_json_args get_comment
      parse_kvps attribute Flags.parse find_flag add_string add_strings value_of values_of
      is_stage_name parse_build_stage_name equal_fold trim_space text_eq to_upper cut contains
      optional_pairs trimmed_volumes without_onbuild drop_word sort_texts insert_text text_leb
      split_last heredoc_content content_onto add_sources parse_sources_and_dest must_parse_heredoc
      parse_shell_dependent is_valid_network is_valid_security pre_hooks post_hooks parse_mounts
      parse_opt_interval parse_retries health_of parse_int one_of
  parse_stages root = build (record { stages = []; meta_args = [] }) root.children
