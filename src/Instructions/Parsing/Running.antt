-- ===== src/Instructions/Parsing/Running.antt =====
-- RUN, CMD and ENTRYPOINT: `parseShellDependentCommand`, `parseRun` with the hooks of
-- commands_runmount.go, commands_runnetwork.go and commands_runsecurity.go, `parseCmd` and
-- `parseEntrypoint` of parser/instructions/parse.go.
use dockerfile.Base.{
  ℕ, List, [], ◌∷◌, Bool, true, false, not, Option, none, some, map, if◌then◌else◌,
}
use dockerfile.Base.Text.{Text, codes}
use dockerfile.Parser.Ast.{Heredoc}
use dockerfile.Parser.Error.{Result, ok, err, ◌>>=◌}
use dockerfile.Parser.Error
use dockerfile.Instructions.Error.{invalid_network, invalid_security}
use dockerfile.Instructions.Numbers.{one_of}
use dockerfile.Instructions.Flags.{Flags, add_string, add_strings, value_of, values_of}
use dockerfile.Instructions.Flags
use dockerfile.Instructions.Mount.{parse_mounts}
use dockerfile.Instructions.Commands.{
  ShellInlineFile, ShellDependantCmdLine, RunCommand, Command, run, cmd, entrypoint,
}
use dockerfile.Instructions.Request.{Request, new_code, is_json, handle_json_args}

abbrev inline_file : Heredoc → ShellInlineFile
inline_file h = record { name = h.name; data_text = h.content; chomp = h.chomp }

abbrev nil_if_empty : Bool → List Text → Option (List Text)
nil_if_empty true [] = none
nil_if_empty _ args = some args

-- `parseShellDependentCommand`
unfoldable pub parse_shell_dependent : Request → Bool → ShellDependantCmdLine
parse_shell_dependent req empty_as_nil = record {
  cmd_line = nil_if_empty empty_as_nil (handle_json_args req.args (is_json req));
  files = map inline_file req.heredocs;
  prepend_shell = not (is_json req);
}

-- `parseCmd`
unfoldable pub parse_cmd : Request → Result Command
parse_cmd req = Flags.parse req.flags >>= λ fs.
    ok (record { base = new_code req; body = cmd (parse_shell_dependent req false) })

-- `parseEntrypoint`
unfoldable pub parse_entrypoint : Request → Result Command
parse_entrypoint req = Flags.parse req.flags >>= λ fs.
    ok (record { base = new_code req; body = entrypoint (parse_shell_dependent req true) })

-- `isValidNetwork`
unfoldable pub is_valid_network : Text → Bool
is_valid_network s = one_of (codes "default" ∷ codes "none" ∷ codes "host" ∷ []) s

-- `isValidSecurity`
unfoldable pub is_valid_security : Text → Bool
is_valid_security s = one_of (codes "insecure" ∷ codes "sandbox" ∷ []) s

module _ (sandboxed : Bool) (read_csv : Text → Option (List Text))
    (mem_bytes : Text → Option ℕ) where
  -- the hooks in front of the flags
  unfoldable pub pre_hooks : Flags → Flags
  pre_hooks fs =
      let fs' = add_string (add_strings fs (codes "mount")) (codes "network") (codes "default") in
      if sandboxed then add_string fs' (codes "security") (codes "sandbox") else fs'

  -- `runNetworkPostHook`
  abbrev pub network_hook : Text → Result Text
  network_hook v = if is_valid_network v then ok v else err (Error.run (invalid_network v))

  -- `runSecurityPostHook`
  abbrev pub security_hook : Text → Result (Option Text)
  security_hook v =
      if sandboxed
      then (if is_valid_security v then ok (some v) else err (Error.run (invalid_security v)))
      else ok none

  -- the hooks behind the flags
  unfoldable pub post_hooks : Flags → ShellDependantCmdLine → Result RunCommand
  post_hooks fs cmdline =
      let values = values_of fs (codes "mount") in
      parse_mounts read_csv mem_bytes none values >>= λ mounts.
      network_hook (value_of fs (codes "network")) >>= λ network.
      security_hook (value_of fs (codes "security")) >>= λ security. ok (record {
        cmdline = cmdline;
        flags_used = fs.used;
        mount_flags = values;
        mounts = mounts;
        network = network;
        security = security;
      })

  -- `parseRun`
  unfoldable pub parse_run : Request → Result Command
  parse_run req = Flags.parse (pre_hooks req.flags) >>= λ fs.
      post_hooks fs (parse_shell_dependent req false) >>= λ c.
      ok (record { base = new_code req; body = run c })
