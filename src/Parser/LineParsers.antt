-- ===== src/Parser/LineParsers.antt =====
-- parser/line_parsers.go, and `newNodeFromLine` with its dispatch table. `decode` stands for the
-- JSON decoder of Go's library: the elements of the array that a text begins with, `none` for one
-- that is no string, or `none` for an error.
pub mod Fuel
use dockerfile.Base.{
  ℕ, zero, suc, List, [], ◌∷◌, ◌++◌, Bool, true, false, not, ◌&&◌, ◌||◌, ◌==◌, Option, none, some,
  ◌≡◌, refl, snoc, if◌then◌else◌,
}
use dockerfile.Base.Text.{Text, codes, is_space, trim_left, contains, cut, to_lower, has_prefix}
use dockerfile.SplitCommand.{is_blank, split_whitespace, Split, split_command}
use dockerfile.Command
use dockerfile.Command.{Command, of_name}
use dockerfile.Parser.Ast.{
  Attributes, Fields, Node, node, Link, nil, next, no_children, child, leaf, chain,
}
use dockerfile.Parser.Error.{
  Error, not_string_array, two_arguments, no_equals, out_of_fuel, Result, ok, err, ◌>>=◌,
}
use dockerfile.Parser.ParseWords.{parse_words}

-- What a line parser returns: a node, or nil, and its attributes
abbrev pub Parsed : Type 0
Parsed = Result (Link × Attributes)

abbrev pub nothing : Parsed
nothing = ok (nil, [])

-- `parseIgnore`
unfoldable pub parse_ignore : Text → Parsed
parse_ignore rest = ok (chain ([] ∷ []), [])

-- `parseSubCommand`, over `newNodeFromLine`
unfoldable pub parse_sub_command : (Text → Result Node) → Text → Parsed
parse_sub_command new_node [] = nothing
parse_sub_command new_node (c ∷ rest) = do
  sub ← new_node (c ∷ rest)
  ok (next (node (leaf []) nil (child sub no_children)), [])

-- One round of the loop of `parseNameVal`, before the rounds behind it
abbrev pub name_value : Text × Option Text → Text → Result (List Text) → Result (List Text)
name_value (k, none) word rest = err (no_equals word)
name_value (k, some v) word rest = rest >>= λ vs. ok (k ∷ v ∷ vs)

-- The values of the nodes that the loop of `parseNameVal` builds: names and values in turn
unfoldable pub name_values : List Text → Result (List Text)
name_values [] = ok []
name_values (word ∷ words) = name_value (cut word b'=') word (name_values words)

-- the old format, `KEY name value`, from the two sides of the first blanks
abbrev pub old_format : Text → Text × Option Text → Result Link
old_format key (k, some v) = ok (chain (k ∷ v ∷ []))
old_format key (k, none) = err (two_arguments key)

abbrev pub new_format : List Text → Result Link
new_format words = name_values words >>= λ vs. ok (chain vs)

abbrev pub name_val_words : Text → Text → List Text → Result Link
name_val_words rest key [] = ok nil
name_val_words rest key (word ∷ words) =
    if not (contains word b'=')
    then old_format key (split_whitespace rest)
    else new_format (word ∷ words)

module _ (token : ℕ) where
  unfoldable pub parse_name_val : Text → Text → Result Link
  unfolding contains cut name_values parse_words split_whitespace chain
  parse_name_val rest key = name_val_words rest key (parse_words token rest)

  unfoldable pub parse_env : Text → Parsed
  unfolding parse_name_val
  parse_env rest = parse_name_val rest (codes "ENV") >>= λ n. ok (n, [])

  unfoldable pub parse_label : Text → Parsed
  unfolding parse_name_val
  parse_label rest = parse_name_val rest (codes "LABEL") >>= λ n. ok (n, [])

  unfoldable pub parse_name_or_name_val : Text → Parsed
  unfolding parse_words chain
  parse_name_or_name_val rest = ok (chain (parse_words token rest), [])

abbrev cons_head : ℕ → List Text → List Text
cons_head c [] = (c ∷ []) ∷ []
cons_head c (p ∷ ps) = (c ∷ p) ∷ ps

-- `reWhitespace.Split(s, -1)`; `skip` is set within a run of blanks
split_from : Bool → Text → List Text
split_from skip [] = [] ∷ []
split_from skip (c ∷ s) =
    let parts = split_from (is_blank c) s in
    if is_blank c then (if skip then parts else [] ∷ parts) else cons_head c parts

unfoldable pub split_all : Text → List Text
unfolding split_from is_blank
split_all = split_from false

-- `parseStringsWhitespaceDelimited`
unfoldable pub parse_strings : Text → Parsed
unfolding split_all chain
parse_strings [] = nothing
parse_strings (c ∷ rest) = ok (chain (split_all (c ∷ rest)), [])

unfoldable pub parse_string : Text → Parsed
unfolding chain
parse_string [] = nothing
parse_string (c ∷ rest) = ok (chain ((c ∷ rest) ∷ []), [])

abbrev pub json_attributes : Attributes
json_attributes = (codes "json", true) ∷ []

-- What `parseJSON` returns; the error matters only where it is `errDockerfileNotStringArray`.
pub data Json : Type 0 where
  strings : List Text → Json
  not_strings not_json : Json

abbrev pub prepend : Text → Json → Json
prepend s (strings ss) = strings (s ∷ ss)
prepend s not_strings = not_strings
prepend s not_json = not_json

unfoldable pub all_strings : List (Option Text) → Json
all_strings [] = strings []
all_strings (none ∷ elements) = not_strings
all_strings (some s ∷ elements) = prepend s (all_strings elements)

abbrev pub decoded : Option (List (Option Text)) → Json
decoded none = not_json
decoded (some elements) = all_strings elements

-- The first argument, and what is behind it and the spaces that follow
unfoldable pub break_space : Text → Text × Text
unfolding trim_left
break_space [] = ([], [])
break_space (c ∷ s) =
    let (typ, cmd) = break_space s in
    if is_space c then ([], trim_left is_space (c ∷ s)) else (c ∷ typ, cmd)

-- the node that `newNodeFromLine` returns
abbrev pub made_node : Split → Text → List Text → Link × Attributes → Node
made_node s line comments (n, attrs) =
    node
      (record {
        value = s.cmd;
        heredocs = [];
        attributes = attrs;
        original = line;
        flags = s.flags;
        start_line = 0;
        end_line = 0;
        prev_comment = comments;
      })
      n no_children

module _ (decode : Text → Option (List (Option Text))) where
  unfoldable pub parse_json : Text → Json
  unfolding trim_left has_prefix all_strings
  parse_json rest =
      let rest' = trim_left is_space rest in
      if not (has_prefix rest' (b'[' ∷ [])) then not_json else decoded (decode rest')

  abbrev pub maybe_json : Parsed → Json → Parsed
  maybe_json otherwise (strings ss) = ok (chain ss, json_attributes)
  maybe_json otherwise not_strings = err not_string_array
  maybe_json otherwise not_json = otherwise

  unfoldable pub parse_maybe_json : Text → Parsed
  unfolding parse_json chain
  parse_maybe_json [] = nothing
  parse_maybe_json (c ∷ rest) =
      maybe_json (ok (chain ((c ∷ rest) ∷ []), [])) (parse_json (c ∷ rest))

  unfoldable pub parse_maybe_json_to_list : Text → Parsed
  unfolding parse_json parse_strings chain
  parse_maybe_json_to_list rest = maybe_json (parse_strings rest) (parse_json rest)

  abbrev pub health : Text → Text → Parsed
  health [] cmd = nothing
  health (c ∷ typ) cmd = do
    (n, attrs) ← parse_maybe_json cmd
    ok (next (node (leaf (c ∷ typ)) n no_children), attrs)

  unfoldable pub parse_health_config : Text → Parsed
  unfolding break_space parse_maybe_json
  parse_health_config rest = let (typ, cmd) = break_space rest in health typ cmd

  module _ (token : ℕ) where
    -- The dispatch table; a command that is not in it is ignored.
    unfoldable pub dispatch : (Text → Result Node) → Option Command → Text → Parsed
    unfolding parse_maybe_json_to_list parse_name_or_name_val parse_maybe_json parse_env
        parse_strings parse_health_config parse_label parse_string parse_sub_command parse_ignore
    dispatch new_node none = parse_ignore
    dispatch new_node (some Command.add) = parse_maybe_json_to_list
    dispatch new_node (some Command.arg) = parse_name_or_name_val token
    dispatch new_node (some Command.cmd) = parse_maybe_json
    dispatch new_node (some Command.copy) = parse_maybe_json_to_list
    dispatch new_node (some Command.entrypoint) = parse_maybe_json
    dispatch new_node (some Command.env) = parse_env token
    dispatch new_node (some Command.expose) = parse_strings
    dispatch new_node (some Command.from) = parse_strings
    dispatch new_node (some Command.healthcheck) = parse_health_config
    dispatch new_node (some Command.label) = parse_label token
    dispatch new_node (some Command.maintainer) = parse_string
    dispatch new_node (some Command.onbuild) = parse_sub_command new_node
    dispatch new_node (some Command.run) = parse_maybe_json
    dispatch new_node (some Command.shell) = parse_maybe_json
    dispatch new_node (some Command.stop_signal) = parse_string
    dispatch new_node (some Command.user) = parse_string
    dispatch new_node (some Command.volume) = parse_maybe_json_to_list
    dispatch new_node (some Command.workdir) = parse_string

    -- `newNodeFromLine`, with fuel for the commands behind ONBUILD
    unfoldable pub new_node : ℕ → Text → List Text → Result Node
    new_node zero line comments = err out_of_fuel
    new_node (suc f) line comments =
        let s = split_command line in
        dispatch (λ rest. new_node f rest []) (of_name (to_lower s.cmd)) s.args >>= λ parsed.
        ok (made_node s line comments parsed)
