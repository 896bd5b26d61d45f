-- ===== src/Instructions/Stages/Order/Adding.antt =====
-- The instructions that stages were made of, and a round of `Parse` of parser/instructions/parse.go.
use dockerfile.Base.{
  ℕ, List, [], ◌∷◌, ◌++◌, true, Option, none, some, snoc, map, ◌≡◌, refl, sym, ap, ◌∙◌, append-nil,
  append_assoc, All, All-snoc,
}
use dockerfile.Base.Text.{Text, codes, trim_space}
use dockerfile.Parser.Error.{Result, ok, err, ◌>>=◌, at_lines}
use dockerfile.Parser.Error
use dockerfile.Parser.Error.Ends.{Holds, Holds-if_known}
use dockerfile.Instructions.Flags
use dockerfile.Instructions.Flags.{add_string, value_of}
use dockerfile.Instructions.Commands.{Instruction, stage, Stage, Body}
use dockerfile.Instructions.Commands
use dockerfile.Instructions.Request.{Request, get_comment}
use dockerfile.Instructions.Parsing.{parse_from, parse_build_stage_name, first_or_empty}
use dockerfile.Instructions.Stages.{
  no_stage, with_location, with_stages, as_command, as_stage, add_command, Built, is_arg,
  add_instruction,
}

-- The instructions that a stage was made of
abbrev pub of_stage : Stage → List Instruction
of_stage s = stage (record s { commands = [] }) ∷ map Instruction.command s.commands

abbrev pub of_stages : List Stage → List Instruction
of_stages [] = []
of_stages (s ∷ ss) = of_stage s ++ of_stages ss

abbrev pub instructions : Built → List Instruction
instructions b = map Instruction.command b.meta_args ++ of_stages b.stages

-- A stage that has just begun
abbrev pub IsFresh : Instruction → Type 0
IsFresh (stage s) = s.commands ≡ []
IsFresh (Instruction.command c) = Unit

pub as_command-IsFresh : (r : Result Commands.Command) → Holds IsFresh (as_command r)
as_command-IsFresh (ok c) = tt
as_command-IsFresh (err e) = tt

anything {ℓ} : {A : Type ℓ} (r : Result A) → Holds (λ x. Unit) r
anything (ok x) = tt
anything (err e) = tt

pub parse_from-IsFresh : (req : Request) → Holds IsFresh (as_stage (parse_from req))
unfolding parse_from
parse_from-IsFresh req =
    by_name (parse_build_stage_name req.args)
      (Flags.parse (add_string req.flags (codes "platform") []))
  where
    fresh : Text → Flags.Flags → Stage
    fresh name fs = record {
      name = name;
      commands = [];
      base_name = first_or_empty req.args;
      source_code = trim_space req.original;
      platform = value_of fs (codes "platform");
      location = req.location;
      comment = get_comment req.comments name;
    }

    by_name :
        (name : Result Text) (fs : Result Flags.Flags)
        → Holds IsFresh (as_stage (name >>= λ n. fs >>= λ f. ok (fresh n f)))
    by_name (err e) fs = tt
    by_name (ok n) (err e) = tt
    by_name (ok n) (ok f) = refl

map-snoc {ℓ κ} :
    {A : Type ℓ} {B : Type κ} (f : A → B) (xs : List A) (x : A)
    → map f (snoc xs x) ≡ snoc (map f xs) (f x)
map-snoc f [] x = refl
map-snoc f (y ∷ ys) x = ap (λ t. f y ∷ t) (map-snoc f ys x)

-- The stages with one more instruction
abbrev OneMore : List Stage → Instruction → Option (List Stage) → Type 0
OneMore ss i none = Unit
OneMore ss i (some ss') = of_stages ss' ≡ snoc (of_stages ss) i

add_command-OneMore :
    (ss : List Stage) (c : Commands.Command) → OneMore ss (Instruction.command c) (add_command ss c)
unfolding add_command
add_command-OneMore [] c = tt
add_command-OneMore (s ∷ []) c =
    ap (λ is. stage (record s { commands = [] }) ∷ is)
      (append-nil _
        ∙ (map-snoc Instruction.command s.commands c
            ∙ ap (λ is. snoc is (Instruction.command c)) (sym (append-nil _))))
add_command-OneMore (s ∷ t ∷ ss) c =
    further (add_command (t ∷ ss) c) (add_command-OneMore (t ∷ ss) c)
  where
    further :
        (o : Option (List Stage))
        → OneMore (t ∷ ss) (Instruction.command c) o
        → OneMore
            (s ∷ t ∷ ss)
            (Instruction.command c)
            (elim o [ none ↦ none | some ts ↦ some (s ∷ ts) ])
    further none h = tt
    further (some ts) h =
        ap (λ is. of_stage s ++ is) h
        ∙ sym (append_assoc (of_stage s) (of_stages (t ∷ ss)) (Instruction.command c ∷ []))

of_stages-snoc :
    (ss : List Stage) (s : Stage)
    → s.commands ≡ []
    → of_stages (snoc ss s) ≡ snoc (of_stages ss) (stage s)
of_stages-snoc [] s h =
    append-nil _
    ∙ ap (λ cs. stage (record s { commands = [] }) ∷ map Instruction.command cs) h
    ∙ ap (λ cs. stage (record s { commands = cs }) ∷ []) (sym h)
of_stages-snoc (t ∷ ss) s h =
    ap (λ is. of_stage t ++ is) (of_stages-snoc ss s h)
    ∙ sym (append_assoc (of_stage t) (of_stages ss) (stage s ∷ []))

abbrev pub HasArgs : List Commands.Command → Type 0
HasArgs = All (λ c. is_arg c.body ≡ true)

-- One more instruction, and only ARG in front of the first stage
abbrev pub Adds : Built → Instruction → Built → Type 0
Adds b i b' = (instructions b' ≡ snoc (instructions b) i) × HasArgs b'.meta_args

meta_arg-Adds :
    (ms : List Commands.Command) (c : Commands.Command)
    → map Instruction.command (snoc ms c) ++ []
      ≡ snoc (map Instruction.command ms ++ []) (Instruction.command c)
meta_arg-Adds ms c =
    append-nil _
    ∙ (map-snoc Instruction.command ms c
        ∙ ap (λ is. snoc is (Instruction.command c)) (sym (append-nil _)))

pub add_instruction-Adds :
    (ss : List Stage) (ms : List Commands.Command) (s t : ℕ) (i : Instruction)
    → IsFresh i
    → HasArgs ms
    → Holds
        (Adds (record { stages = ss; meta_args = ms }) i)
        (add_instruction (record { stages = ss; meta_args = ms }) s t i)
unfolding add_instruction
add_instruction-Adds ss ms s t (stage g) f h = (
  (ap (λ is. map Instruction.command ms ++ is) (of_stages-snoc ss g f)
      ∙ sym (append_assoc (map Instruction.command ms) (of_stages ss) (stage g ∷ []))),
  h,
)
add_instruction-Adds [] ms s t (Instruction.command c) f h =
    Holds-if_known (Adds (record { stages = []; meta_args = ms }) (Instruction.command c))
      (is_arg c.body) (ok (record { stages = []; meta_args = snoc ms c }))
      (err (with_location (Error.instruction no_stage) s t))
      (λ a. (meta_arg-Adds ms c, All-snoc (λ d. is_arg d.body ≡ true) ms c h a)) (λ _. tt)
add_instruction-Adds (g ∷ ss) ms s t (Instruction.command c) f h =
    to_stages (add_command (g ∷ ss) c) (add_command-OneMore (g ∷ ss) c)
  where
    to_stages :
        (o : Option (List Stage))
        → OneMore (g ∷ ss) (Instruction.command c) o
        → Holds
            (Adds (record { stages = g ∷ ss; meta_args = ms }) (Instruction.command c))
            (with_stages (record { stages = g ∷ ss; meta_args = ms }) s t o)
    to_stages none k = tt
    to_stages (some ss') k = (
      (ap (λ is. map Instruction.command ms ++ is) k
          ∙ sym (
              append_assoc (map Instruction.command ms) (of_stages (g ∷ ss))
                (Instruction.command c ∷ []))),
      h,
    )
