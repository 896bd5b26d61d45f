-- ===== src/Instructions/Examples.antt =====
-- The properties of the instructions at concrete inputs.
use dockerfile.Base.{◌↔◌, ℕ, List, [], ◌∷◌, false, Option, none, some, ◌≡◌, refl, arith}
use dockerfile.Base.Text.{equal_fold, trim_space, Text, codes, text_eq, contains, is_space}
use dockerfile.Parser.Ast.{Node, node, chain, leaf, no_children, Root}
use dockerfile.Instructions.Error.{duplicate_specified}
use dockerfile.Instructions.Flags.Twice.{parse-twice}
use dockerfile.Parser.Error.{flag, err, Result, ok, ◌>>=◌}
use dockerfile.Parser.LineParsers.{parse_name_val}
use dockerfile.Parser.ParseWords.Spec.{IsWord, Spaced}
use dockerfile.Instructions.Assignments.{pair, parse_name_val-pairs}
use dockerfile.Instructions.Commands.{Stage, Command, Body}
use dockerfile.Instructions.Flags.{Flags, new_flags, add_string, value_of, find_flag, has_name}
use dockerfile.Instructions.Flags
use dockerfile.Instructions.Flags.Assignments.{assigned, parse-assignments}
use dockerfile.Instructions.Mount.{parse_mount, Mount}
use dockerfile.Instructions.Mount.Valid.{Valid, parse_mount-Valid}
use dockerfile.Instructions.Request.{Request, get_comment, link_args, parse_kvps}
use dockerfile.Instructions.Parsing.{parse_from, parse_build_stage_name, is_stage_name}
use dockerfile.Instructions.Parsing.Naming.{Named, Begins, parse_from-Named}
use dockerfile.Instructions.Stages.Lookup.{IsFirst, has_stage-IsFirst}
use dockerfile.Instructions.Stages.{has_stage, Other, Built, parse_stages}
use dockerfile.Instructions.Stages.Order.{parse_all, parse_stages-instructions}
use dockerfile.Instructions.Stages.Order.Adding.{instructions, HasArgs}

abbrev chown_flags : Flags
chown_flags =
    add_string (add_string (new_flags (codes "--chown=a:b" ∷ [])) (codes "chown") [])
      (codes "chmod") []

parse-assignments_example :
    (bf' : Flags) × (Flags.parse chown_flags ≡ ok bf')
    × ((n : Text)
        → value_of bf' n ≡ assigned ((codes "chown", codes "a:b") ∷ []) n (value_of chown_flags n))
unfolding add_string find_flag text_eq contains has_name
parse-assignments_example =
    parse-assignments chown_flags ((codes "chown", codes "a:b") ∷ []) refl refl
      (refl, (_, refl, refl), refl, tt)

abbrev one_field : Text → Option (List Text)
one_field s = some (s ∷ codes "target=/x" ∷ [])

abbrev no_size : Text → Option ℕ
no_size s = none

abbrev as_it_is : Text → Result Text
as_it_is s = ok s

abbrev cached : Mount
cached = record {
  mount_type = codes "cache";
  from = [];
  source = [];
  target = codes "/x";
  read_only = false;
  size_limit = 0;
  cache_id = [];
  cache_sharing = [];
  required = false;
  mode = none;
  uid = none;
  gid = none;
}

cached_lem : parse_mount one_field no_size (codes "type=cache") (some as_it_is) ≡ ok cached
unfolding parse_mount
cached_lem = refl

parse_mount-Valid_example : Valid one_field no_size cached
parse_mount-Valid_example =
    parse_mount-Valid one_field no_size (codes "type=cache") (some as_it_is) cached_lem

abbrev other : Other
other = record {
  read_csv = one_field;
  mem_bytes = no_size;
  parse_duration = λ s. none;
  minimum = 1000000;
  sandboxed = false;
}

abbrev instruction_node : Text → List Text → Node
instruction_node value args = node (leaf value) (chain args) no_children

abbrev three_nodes : Root
three_nodes = record {
  start_line = some 1;
  end_line = 3;
  children =
      instruction_node (codes "ARG") (codes "V=1" ∷ [])
      ∷ instruction_node (codes "FROM") (codes "a" ∷ codes "as" ∷ codes "B" ∷ [])
      ∷ instruction_node (codes "USER") (codes "u" ∷ [])
      ∷ [];
}

abbrev arg_command : Command
arg_command = record {
  base = record { code = []; name = codes "ARG"; location = record { start = 0; end = 0 } ∷ [] };
  body = Body.arg (record { key = codes "V"; value = some (codes "1"); comment = [] } ∷ []);
}

abbrev user_command : Command
user_command = record {
  base = record { code = []; name = codes "USER"; location = record { start = 0; end = 0 } ∷ [] };
  body = Body.user (codes "u");
}

abbrev three_built : Built
three_built = record {
  stages =
      record {
        name = codes "b";
        commands = user_command ∷ [];
        base_name = codes "a";
        source_code = [];
        platform = [];
        location = record { start = 0; end = 0 } ∷ [];
        comment = [];
      }
      ∷ [];
  meta_args = arg_command ∷ [];
}

three_lem : parse_stages other three_nodes ≡ ok three_built
unfolding parse_stages chain
three_lem = refl

parse_stages-instructions_example :
    (parse_all other three_nodes.children ≡ ok (instructions three_built))
    × HasArgs three_built.meta_args
parse_stages-instructions_example = parse_stages-instructions other three_nodes three_lem

two_pairs : Spaced b'\\' (codes "a=1 b=x=y") (codes "a=1" ∷ codes "b=x=y" ∷ [])
unfolding is_space
two_pairs =
    Spaced.more [] (codes "a=1") b' ' tt
      (IsWord.plain b'a' (ground arith)
        (IsWord.plain b'=' (ground arith) (IsWord.plain b'1' (ground arith) IsWord.end)))
      (ground arith) refl
      (Spaced.last [] (codes "b=x=y") tt
        (IsWord.plain b'b' (ground arith) (
          IsWord.plain b'=' (ground arith) (
            IsWord.plain b'x' (ground arith)
              (IsWord.plain b'=' (ground arith) (IsWord.plain b'y' (ground arith) IsWord.end)))))
        (ground arith))

parse_name_val-pairs_example :
    (parse_name_val b'\\' (codes "a=1 b=x=y") (codes "ENV") >>= λ link.
    parse_kvps (link_args link) (codes "ENV"))
    ≡ ok (pair (codes "a", codes "1") ∷ pair (codes "b", codes "x=y") ∷ [])
unfolding is_space contains
parse_name_val-pairs_example =
    parse_name_val-pairs b'\\' (codes "ENV") (codes "ENV") (codes "a", codes "1")
      ((codes "b", codes "x=y") ∷ []) (ground arith) two_pairs
      ((ground arith, refl), ((ground arith, refl), tt))

has_stage-IsFirst_example :
    IsFirst three_built.stages (codes "B") (has_stage three_built.stages (codes "B"))
has_stage-IsFirst_example = has_stage-IsFirst three_built.stages (codes "B")

abbrev from_request : Request
from_request = record {
  command = codes "FROM";
  args = codes "a" ∷ codes "AS" ∷ codes "Base" ∷ [];
  heredocs = [];
  attributes = [];
  flags = new_flags [];
  original = codes "FROM a AS Base";
  location = [];
  comments = [];
}

abbrev from_stage : Stage
from_stage = record {
  name = codes "base";
  commands = [];
  base_name = codes "a";
  source_code = codes "FROM a AS Base";
  platform = [];
  location = [];
  comment = [];
}

from_lem : parse_from from_request ≡ ok from_stage
unfolding parse_from parse_build_stage_name is_stage_name equal_fold Flags.parse add_string value_of
    get_comment trim_space
from_lem = refl

abbrev from_flags : Flags
from_flags = add_string from_request.flags (codes "platform") []

from_flags_lem : Flags.parse from_flags ≡ ok from_flags
unfolding Flags.parse add_string
from_flags_lem = refl

parse_from-Named_example :
    Begins from_request (codes "a") (codes "base")
    ↔ Named from_request.args (codes "a") (codes "base")
parse_from-Named_example =
    parse_from-Named from_request from_flags (codes "a") (codes "base") from_flags_lem

abbrev chown_twice : Flags
chown_twice =
    add_string (new_flags (codes "--chown=a" ∷ codes "--chown=b" ∷ codes "x" ∷ [])) (codes "chown")
      []

parse-twice_example : Flags.parse chown_twice ≡ err (flag (duplicate_specified (codes "chown")))
unfolding add_string find_flag text_eq contains has_name
parse-twice_example =
    parse-twice chown_twice (codes "chown") (codes "a") (codes "b") [] (codes "x" ∷ []) refl refl
      (refl, (_, refl, refl), refl, tt)
