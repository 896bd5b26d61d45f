-- ===== src/Instructions/Parsing.antt =====
-- The parse functions of parser/instructions/parse.go. `time.ParseDuration` and
-- `container.MinimumDuration` are parameters, with the CSV reader and the sizes that mounts use;
-- `sandboxed` says whether the build has the tag dfrunsecurity.
pub mod Copying
pub mod Running
pub mod Health
pub mod Naming
use dockerfile.Base.{
  ℕ, List, [], ◌∷◌, ◌++◌, Bool, true, false, not, ◌&&◌, ◌||◌, ◌==◌, Option, none, some, snoc, leb,
  if◌then◌else◌,
}
use dockerfile.Base.Text.{
  Text, codes, text_eq, trim_space, trim_left, to_upper, to_lower, equal_fold, contains, cut,
}
use dockerfile.Parser.Ast.{Heredoc}
use dockerfile.Parser.Directives.{is_re_space}
use dockerfile.Parser.Error.{Result, ok, err, ◌>>=◌, instruction}
use dockerfile.Instructions.Error.{
  at_least_one, exactly_one, blank_names, not_json, invalid_stage_name, from_arguments,
  onbuild_chained, onbuild_trigger, empty_volume,
}
use dockerfile.Instructions.Flags.{add_string, value_of}
use dockerfile.Instructions.Flags
use dockerfile.Instructions.Commands.{
  KeyValuePairOptional, Body, Command, Stage, env, label, maintainer, workdir, user, stop_signal,
  onbuild, expose, volume, shell, arg,
}
use dockerfile.Instructions.Request.{
  Request, new_code, is_json, handle_json_args, get_comment, parse_kvps,
}

-- The command of the request with this body
abbrev pub made : Request → Body → Command
made req body = record { base = new_code req; body = body }

-- `req.flags.Parse()`, and the command behind it
abbrev pub with_flags : Request → Result Body → Result Command
with_flags req body = Flags.parse req.flags >>= λ fs. body >>= λ b. ok (made req b)

abbrev pub exactly : Text → Request → List Text → (Text → Body) → Result Command
exactly name req (a ∷ []) body = with_flags req (ok (body a))
exactly name req _ body = err (instruction (exactly_one name))

-- `parseEnv`, `parseLabel`
unfoldable pub parse_env : Request → Result Command
parse_env req = with_flags req (parse_kvps req.args (codes "ENV") >>= λ kvs. ok (env kvs))

unfoldable pub parse_label : Request → Result Command
parse_label req =
    with_flags req (parse_kvps req.args (codes "LABEL") >>= λ kvs. ok (label kvs false))

-- `parseMaintainer`, `parseWorkdir`, `parseUser`
unfoldable pub parse_maintainer : Request → Result Command
parse_maintainer req = exactly (codes "MAINTAINER") req req.args maintainer

unfoldable pub parse_workdir : Request → Result Command
parse_workdir req = exactly (codes "WORKDIR") req req.args workdir

unfoldable pub parse_user : Request → Result Command
parse_user req = exactly (codes "USER") req req.args user

-- `parseStopSignal` does not look at the flags.
abbrev one_signal : Request → List Text → Result Command
one_signal req (a ∷ []) = ok (made req (stop_signal a))
one_signal req _ = err (instruction (exactly_one (codes "STOPSIGNAL")))

unfoldable pub parse_stop_signal : Request → Result Command
parse_stop_signal req = one_signal req req.args

-- `^[a-z][a-z0-9-_\.]*$`
abbrev is_lower : ℕ → Bool
is_lower c = leb b'a' c && leb c b'z'

abbrev pub is_stage_char : ℕ → Bool
is_stage_char c = is_lower c || (leb b'0' c && leb c b'9') || c == b'-' || c == b'_' || c == b'.'

abbrev pub all_stage_chars : Text → Bool
all_stage_chars [] = true
all_stage_chars (c ∷ s) = is_stage_char c && all_stage_chars s

unfoldable pub is_stage_name : Text → Bool
is_stage_name [] = false
is_stage_name (c ∷ s) = is_lower c && all_stage_chars s

-- `parseBuildStageName`
unfoldable pub parse_build_stage_name : List Text → Result Text
parse_build_stage_name (a ∷ []) = ok []
parse_build_stage_name (a ∷ b ∷ c ∷ []) =
    if equal_fold b (codes "as")
    then (if is_stage_name (to_lower c)
        then ok (to_lower c)
        else err (instruction (invalid_stage_name c)))
    else err (instruction from_arguments)
parse_build_stage_name _ = err (instruction from_arguments)

abbrev pub first_or_empty : List Text → Text
first_or_empty [] = []
first_or_empty (a ∷ _) = a

-- `parseFrom`
unfoldable pub parse_from : Request → Result Stage
parse_from req = parse_build_stage_name req.args >>= λ name.
    Flags.parse (add_string req.flags (codes "platform") []) >>= λ fs. ok (record {
      name = name;
      commands = [];
      base_name = first_or_empty req.args;
      source_code = trim_space req.original;
      platform = value_of fs (codes "platform");
      location = req.location;
      comment = get_comment req.comments name;
    })

-- `s` without the word at its start, in any case; as it is, where it does not begin with the word
unfoldable pub drop_word : Text → Text → Option Text
drop_word [] s = some s
drop_word (w ∷ word) [] = none
drop_word (w ∷ word) (c ∷ s) =
    let rest = drop_word word s in if text_eq (to_upper (c ∷ [])) (w ∷ []) then rest else none

abbrev or_whole : Text → Option Text → Text
or_whole s none = s
or_whole s (some rest) = trim_left is_re_space rest

-- `(?i)^\s*ONBUILD\s*` is replaced by nothing.
unfoldable pub without_onbuild : Text → Text
without_onbuild s = or_whole s (drop_word (codes "ONBUILD") (trim_left is_re_space s))

abbrev add_heredocs : Text → List Heredoc → Text
add_heredocs s [] = s
add_heredocs s (h ∷ hs) = add_heredocs (s ++ (b'\n' ∷ (h.content ++ h.name))) hs

-- behind `req.flags.Parse()`, with the trigger in upper case
abbrev pub trigger : Request → Text → Result Body
trigger req name =
    if text_eq name (codes "ONBUILD")
    then err (instruction onbuild_chained)
    else if text_eq name (codes "MAINTAINER") || text_eq name (codes "FROM")
    then err (instruction (onbuild_trigger name))
    else ok (onbuild (add_heredocs (without_onbuild req.original) req.heredocs))

-- `parseOnBuild`
abbrev pub onbuild_args : Request → List Text → Result Command
onbuild_args req [] = err (instruction (at_least_one (codes "ONBUILD")))
onbuild_args req (a ∷ _) = with_flags req (trigger req (to_upper (to_upper (trim_space a))))

unfoldable pub parse_on_build : Request → Result Command
parse_on_build req = onbuild_args req req.args

-- `sort.Strings`
unfoldable pub text_leb : Text → Text → Bool
text_leb [] t = true
text_leb (c ∷ s) [] = false
text_leb (c ∷ s) (d ∷ t) = if c == d then text_leb s t else leb c d

unfoldable pub insert_text : Text → List Text → List Text
insert_text s [] = s ∷ []
insert_text s (t ∷ ts) = if text_leb s t then s ∷ t ∷ ts else t ∷ insert_text s ts

unfoldable pub sort_texts : List Text → List Text
sort_texts [] = []
sort_texts (s ∷ ts) = insert_text s (sort_texts ts)

abbrev pub expose_args : Request → List Text → Result Command
expose_args req [] = err (instruction (at_least_one (codes "EXPOSE")))
expose_args req (a ∷ args) = with_flags req (ok (expose (sort_texts (a ∷ args))))

-- `parseExpose`
unfoldable pub parse_expose : Request → Result Command
parse_expose req = expose_args req req.args

-- The loop of `parseVolume`
unfoldable pub trimmed_volumes : List Text → Result (List Text)
trimmed_volumes [] = ok []
trimmed_volumes (v ∷ vs) =
    if text_eq (trim_space v) []
    then err (instruction empty_volume)
    else trimmed_volumes vs >>= λ rest. ok (trim_space v ∷ rest)

abbrev pub volume_args : Request → List Text → Result Command
volume_args req [] = err (instruction (at_least_one (codes "VOLUME")))
volume_args req (a ∷ args) = with_flags req (trimmed_volumes (a ∷ args) >>= λ vs. ok (volume vs))

-- `parseVolume`
unfoldable pub parse_volume : Request → Result Command
parse_volume req = volume_args req req.args

-- A round of the loop of `parseArg`, at the parts of the argument
abbrev pub optional_pair : List Text → Text × Option Text → Result KeyValuePairOptional
optional_pair comments (k, none) =
    ok (record { key = k; value = none; comment = get_comment comments k })
optional_pair comments ([], some v) = err (instruction (blank_names (codes "ARG")))
optional_pair comments (c ∷ k, some v) =
    ok (record { key = c ∷ k; value = some v; comment = get_comment comments (c ∷ k) })

unfoldable pub optional_pairs : List Text → List Text → Result (List KeyValuePairOptional)
optional_pairs comments [] = ok []
optional_pairs comments (a ∷ args) =
    optional_pair comments (cut a b'=') >>= λ p. optional_pairs comments args >>= λ ps. ok (p ∷ ps)

abbrev pub arg_args : Request → List Text → Result Command
arg_args req [] = err (instruction (at_least_one (codes "ARG")))
arg_args req (a ∷ args) = optional_pairs req.comments (a ∷ args) >>= λ ps. ok (made req (arg ps))

-- `parseArg` does not look at the flags.
unfoldable pub parse_arg : Request → Result Command
parse_arg req = arg_args req req.args

abbrev pub shell_args : Bool → List Text → Result Body
shell_args json [] = err (instruction (at_least_one (codes "SHELL")))
shell_args true (a ∷ args) = ok (shell (a ∷ args))
shell_args false (a ∷ args) = err (instruction (not_json (codes "SHELL")))

-- `parseShell`
unfoldable pub parse_shell : Request → Result Command
parse_shell req =
    with_flags req (shell_args (is_json req) (handle_json_args req.args (is_json req)))
