-- ===== src/Instructions/Stages/Order.antt =====
-- `Parse` keeps every instruction, in order.
pub mod Adding
use dockerfile.Base.{
  ℕ, List, [], ◌∷◌, ◌++◌, true, Option, none, some, snoc, map, ◌≡◌, refl, sym, ap, ◌∙◌, append-nil,
  append_assoc, All, All-snoc,
}
use dockerfile.Base.Text.{Text, codes, to_lower, trim_space}
use dockerfile.Command.{of_name}
use dockerfile.Command
use dockerfile.Parser.Ast.{Node, fields, Root}
use dockerfile.Parser.Error.{Result, ok, err, ◌>>=◌, at_lines}
use dockerfile.Parser.Error
use dockerfile.Parser.Error.Ends.{Holds, Holds-map, Holds-if_known, Holds-bind, Holds-ok}
use dockerfile.Instructions.Flags
use dockerfile.Instructions.Flags.{add_string, value_of}
use dockerfile.Instructions.Commands.{Instruction, stage, Stage, Body}
use dockerfile.Instructions.Commands
use dockerfile.Instructions.Request.{Request, new_request, get_comment}
use dockerfile.Instructions.Parsing.{parse_from, parse_build_stage_name, first_or_empty}
use dockerfile.Instructions.Stages.{
  no_stage, with_location, Other, with_stages, as_command, as_stage, add_command, Built, is_arg,
  add_instruction, parse_request, parse_instruction, at_node, build, parse_stages,
}
use dockerfile.Instructions.Stages.Order.Adding.{
  instructions, IsFresh, as_command-IsFresh, parse_from-IsFresh, HasArgs, Adds,
  add_instruction-Adds,
}

module _ (other : Other) where
  -- The instructions of the nodes, one by one
  unfoldable pub parse_all : List Node → Result (List Instruction)
  parse_all [] = ok []
  parse_all (n ∷ ns) =
      at_node other n (parse_instruction other n) >>= λ i. parse_all ns >>= λ is. ok (i ∷ is)

  parse_request-IsFresh :
      (c : Option Command.Command) (value : Text) (line : ℕ) (req : Request)
      → Holds IsFresh (parse_request other c value line req)
  unfolding parse_request
  parse_request-IsFresh none value line req = tt
  parse_request-IsFresh (some Command.env) value line req = as_command-IsFresh _
  parse_request-IsFresh (some Command.maintainer) value line req = as_command-IsFresh _
  parse_request-IsFresh (some Command.label) value line req = as_command-IsFresh _
  parse_request-IsFresh (some Command.add) value line req = as_command-IsFresh _
  parse_request-IsFresh (some Command.copy) value line req = as_command-IsFresh _
  parse_request-IsFresh (some Command.from) value line req = parse_from-IsFresh req
  parse_request-IsFresh (some Command.onbuild) value line req = as_command-IsFresh _
  parse_request-IsFresh (some Command.workdir) value line req = as_command-IsFresh _
  parse_request-IsFresh (some Command.run) value line req = as_command-IsFresh _
  parse_request-IsFresh (some Command.cmd) value line req = as_command-IsFresh _
  parse_request-IsFresh (some Command.healthcheck) value line req = as_command-IsFresh _
  parse_request-IsFresh (some Command.entrypoint) value line req = as_command-IsFresh _
  parse_request-IsFresh (some Command.expose) value line req = as_command-IsFresh _
  parse_request-IsFresh (some Command.user) value line req = as_command-IsFresh _
  parse_request-IsFresh (some Command.volume) value line req = as_command-IsFresh _
  parse_request-IsFresh (some Command.stop_signal) value line req = as_command-IsFresh _
  parse_request-IsFresh (some Command.arg) value line req = as_command-IsFresh _
  parse_request-IsFresh (some Command.shell) value line req = as_command-IsFresh _

  parse_instruction-IsFresh :
      (n : Node) → Holds IsFresh (at_node other n (parse_instruction other n))
  unfolding parse_instruction
  parse_instruction-IsFresh n =
      let f = fields n in
      located
        (parse_request other (of_name (to_lower f.value)) f.value f.start_line (new_request n))
        (parse_request-IsFresh (of_name (to_lower f.value)) f.value f.start_line (new_request n))
    where
      located :
          (r : Result Instruction)
          → Holds IsFresh r
          → Holds IsFresh
              (at_node other n (at_lines ((fields n).start_line) ((fields n).end_line) r))
      located (ok i) h = h
      located (err e) h = tt

  -- The nodes' instructions, behind those of `b`
  abbrev Builds : Built → List Node → Built → Type 0
  Builds b ns b' =
      (is : List Instruction) × (parse_all ns ≡ ok is)
      × (instructions b' ≡ instructions b ++ is)
      × HasArgs b'.meta_args

  build-Builds :
      (b : Built) (ns : List Node) → HasArgs b.meta_args → Holds (Builds b ns) (build other b ns)
  unfolding build parse_all
  build-Builds b [] h = ([], refl, sym (append-nil (instructions b)), h)
  build-Builds b (n ∷ ns) h =
      by_instruction (at_node other n (parse_instruction other n)) (parse_instruction-IsFresh n)
        (λ b' k. build-Builds b' ns k)
    where
      s : ℕ
      s = (fields n).start_line

      t : ℕ
      t = (fields n).end_line

      Extended : Result Instruction → Built → Type 0
      Extended r b' =
          (is : List Instruction) × ((r >>= λ i. parse_all ns >>= λ js. ok (i ∷ js)) ≡ ok is)
          × (instructions b' ≡ instructions b ++ is)
          × HasArgs b'.meta_args

      by_instruction :
          (r : Result Instruction)
          → Holds IsFresh r
          → ((b' : Built) → HasArgs b'.meta_args → Holds (Builds b' ns) (build other b' ns))
          → Holds (Extended r) (r >>= λ i. add_instruction b s t i >>= λ b'. build other b' ns)
      by_instruction (err e) f k = tt
      by_instruction (ok i) f k =
          Holds-bind (Adds b i) (Extended (ok i)) (add_instruction b s t i)
            (λ b'. build other b' ns) (add_instruction-Adds b.stages b.meta_args s t i f h)
            (λ b' a. Holds-map (Extended (ok i)) (build other b' ns) (k b' a.1) (λ b'' w. (
              i ∷ w.0,
              ap (λ r. r >>= λ js. ok (i ∷ js)) w.1,
              (w.2 ∙ (ap (λ is. is ++ w.0) a.0 ∙ append_assoc (instructions b) (i ∷ []) w.0)),
              w.3,
            )))

  -- `Parse` keeps every instruction in order: where it succeeds, each node parses by itself, and
  -- the meta arguments, followed by each stage's FROM and commands, are these instructions; the
  -- meta arguments are ARG commands.
  pub parse_stages-instructions :
      (root : Root) {b : Built}
      → parse_stages other root ≡ ok b
      → (parse_all root.children ≡ ok (instructions b)) × HasArgs b.meta_args
  unfolding parse_stages
  parse_stages-instructions root {b} h =
      let none_yet : Built = record { stages = []; meta_args = [] } in
      let w =
        Holds-ok (Builds none_yet root.children) (build other none_yet root.children)
          (build-Builds none_yet root.children tt) h in
      ((w.1 ∙ ap (λ is. ok is) (sym w.2)), w.3)
