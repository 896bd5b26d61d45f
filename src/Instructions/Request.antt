-- ===== src/Instructions/Request.antt =====
-- The request of an instruction (parser/instructions/parse.go and support.go): what the parse
-- functions get of a node, and what they share.
use dockerfile.Base.{List, [], ◌∷◌, ◌++◌, Bool, true, false, if◌then◌else◌}
use dockerfile.Base.Text.{Text, codes, trim_space, has_prefix, trim_prefix, join}
use dockerfile.Parser.Ast.{
  Heredoc, Attributes, attribute, Node, node, Link, nil, next, no_children, child,
}
use dockerfile.Parser.Error.{Range, to_ranges, Result, ok, err, ◌>>=◌, instruction}
use dockerfile.Instructions.Error.{at_least_one, blank_names, too_many}
use dockerfile.Instructions.Flags.{Flags, new_flags}
use dockerfile.Instructions.Commands.{Code, KeyValuePair}

-- `parseRequest`
pub record Request : Type 0 where
  pub command : Text
  pub args : List Text
  pub heredocs : List Heredoc
  pub attributes : Attributes
  pub flags : Flags
  pub original : Text
  pub location : List Range
  pub comments : List Text

-- `nodeArgs`, from `node.Next` on
unfoldable pub link_args : Link → List Text
link_args nil = []
link_args (next (node f l no_children)) = f.value ∷ link_args l
link_args (next (node f l (child (node g m _) no_children))) =
    g.value ∷ (link_args m ++ link_args l)
link_args (next (node f l (child _ (child _ _)))) = link_args l

-- `nodeArgs`
unfoldable pub node_args : Node → List Text
unfolding link_args
node_args (node f l _) = link_args l

-- `newParseRequestFromNode`
unfoldable pub new_request : Node → Request
unfolding node_args to_ranges
new_request (node f l c) = record {
  command = f.value;
  args = node_args (node f l c);
  heredocs = f.heredocs;
  attributes = f.attributes;
  flags = new_flags f.flags;
  original = f.original;
  location = to_ranges f.start_line f.end_line;
  comments = f.prev_comment;
}

-- `newWithNameAndCode`
unfoldable pub new_code : Request → Code
unfolding trim_space
new_code req = record {
  code = trim_space req.original;
  name = req.command;
  location = req.location;
}

abbrev pub is_json : Request → Bool
is_json req = attribute req.attributes (codes "json")

-- `handleJSONArgs`
unfoldable pub handle_json_args : List Text → Bool → List Text
unfolding join
handle_json_args [] json = []
handle_json_args (a ∷ args) json = if json then a ∷ args else join (a ∷ args) (codes " ") ∷ []

abbrev pub comment_for : Text → List Text → Text
comment_for prefix [] = []
comment_for prefix (line ∷ lines) =
    if has_prefix line prefix then trim_prefix line prefix else comment_for prefix lines

-- `getComment`
unfoldable pub get_comment : List Text → Text → Text
unfolding has_prefix trim_prefix
get_comment comments [] = []
get_comment comments (c ∷ name) = comment_for ((c ∷ name) ++ codes " ") comments

-- The loop of `parseKvps`, on an even number of arguments
unfoldable pub pairs : List Text → Text → Result (List KeyValuePair)
pairs [] cmd = ok []
pairs (k ∷ []) cmd = err (instruction (too_many cmd))
pairs ([] ∷ v ∷ args) cmd = err (instruction (blank_names cmd))
pairs ((c ∷ k) ∷ v ∷ args) cmd =
    pairs args cmd >>= λ kvs. ok (record { key = c ∷ k; value = v } ∷ kvs)

unfoldable pub is_odd : List Text → Bool
is_odd [] = false
is_odd (a ∷ []) = true
is_odd (a ∷ b ∷ args) = is_odd args

-- `parseKvps`
unfoldable pub parse_kvps : List Text → Text → Result (List KeyValuePair)
unfolding pairs is_odd
parse_kvps [] cmd = err (instruction (at_least_one cmd))
parse_kvps (a ∷ args) cmd =
    if is_odd (a ∷ args) then err (instruction (too_many cmd)) else pairs (a ∷ args) cmd
