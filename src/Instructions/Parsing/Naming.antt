-- ===== src/Instructions/Parsing/Naming.antt =====
-- The arguments of FROM (`parseFrom` and `parseBuildStageName` of parser/instructions/parse.go).
use dockerfile.Base.{
  ℕ, ◌≤◌, List, [], ◌∷◌, true, ◌≡◌, ◌⊎◌, ◌↔◌, inl, inr, refl, subst, if◌then◌else◌, All, arith,
}
use dockerfile.Base.Text.{Text, codes, to_lower, equal_fold, trim_space}
use dockerfile.Parser.Error.{Result, ok, err, ◌>>=◌, instruction}
use dockerfile.Parser.Error.Ends.{Holds, Holds-bind, Holds-if_known, Holds-ok}
use dockerfile.Instructions.Error.{invalid_stage_name, from_arguments}
use dockerfile.Instructions.Flags
use dockerfile.Instructions.Flags.{Flags, add_string, value_of}
use dockerfile.Instructions.Commands.{Stage}
use dockerfile.Instructions.Request.{Request, get_comment}
use dockerfile.Instructions.Parsing.{
  is_stage_char, all_stage_chars, is_stage_name, parse_build_stage_name, first_or_empty, parse_from,
}

-- A letter from `a` to `z`
abbrev pub IsLetter : ℕ → Type 0
IsLetter c = (97 ≤ c) × (c ≤ 122)

-- Such a letter, a digit, a dash, an underscore or a dot
abbrev pub IsNameCharacter : ℕ → Type 0
IsNameCharacter c = IsLetter c ⊎ (((48 ≤ c) × (c ≤ 57)) ⊎ ((c ≡ b'-') ⊎ ((c ≡ b'_') ⊎ (c ≡ b'.'))))

abbrev pub IsName : Text → Type 0
IsName [] = ⊥
IsName (c ∷ s) = IsLetter c × All IsNameCharacter s

is_stage_char-IsNameCharacter : (c : ℕ) → (is_stage_char c ≡ true) ↔ IsNameCharacter c
is_stage_char-IsNameCharacter c = ground arith

all_stage_chars-All : (s : Text) → (all_stage_chars s ≡ true) ↔ All IsNameCharacter s
all_stage_chars-All [] = ground arith
all_stage_chars-All (c ∷ s) = ground (arith, is_stage_char-IsNameCharacter c, all_stage_chars-All s)

is_stage_name-IsName : (s : Text) → (is_stage_name s ≡ true) ↔ IsName s
unfolding is_stage_name
is_stage_name-IsName [] = ground arith
is_stage_name-IsName (c ∷ s) = ground (arith, all_stage_chars-All s)

-- One argument, the base, with no name; or a base, `as` in any case, and a text whose lower case is the
-- name, which is a letter with letters, digits, dashes, underscores and dots behind it
abbrev pub Named : List Text → Text → Text → Type 0
Named args base name =
    ((args ≡ base ∷ []) × (name ≡ []))
    ⊎ ((word : Text) × (given : Text) × (args ≡ base ∷ word ∷ given ∷ [])
        × (equal_fold word (codes "as") ≡ true)
        × (name ≡ to_lower given)
        × IsName name)

parse_build_stage_name-Named :
    (args : List Text) → Holds (Named args (first_or_empty args)) (parse_build_stage_name args)
unfolding parse_build_stage_name
parse_build_stage_name-Named [] = tt
parse_build_stage_name-Named (a ∷ []) = inl (refl, refl)
parse_build_stage_name-Named (a ∷ b ∷ []) = tt
parse_build_stage_name-Named (a ∷ b ∷ c ∷ []) =
    Holds-if_known (Named (a ∷ b ∷ c ∷ []) a) (equal_fold b (codes "as"))
      (if is_stage_name (to_lower c)
        then ok (to_lower c)
        else err (instruction (invalid_stage_name c)))
      (err (instruction from_arguments))
      (λ y.
        Holds-if_known (Named (a ∷ b ∷ c ∷ []) a) (is_stage_name (to_lower c)) (ok (to_lower c))
          (err (instruction (invalid_stage_name c)))
          (λ v. inr (b, c, refl, y, refl, (is_stage_name-IsName (to_lower c)).0 v)) (λ _. tt))
      (λ _. tt)
parse_build_stage_name-Named (a ∷ b ∷ c ∷ d ∷ args) = tt

-- Such arguments are accepted.
Named-accepted :
    (args : List Text) (base name : Text)
    → Named args base name
    → (parse_build_stage_name args ≡ ok name) × (first_or_empty args ≡ base)
unfolding parse_build_stage_name
Named-accepted args base name (inl (one, empty)) = rw (one, empty) (refl, refl)
Named-accepted args base name (inr (word, given, three, as_word, lower, n)) =
    let valid : is_stage_name (to_lower given) ≡ true =
      (is_stage_name-IsName (to_lower given)).1 (subst IsName lower n) in
    rw (three, lower) (rw (as_word, valid) refl, refl)

abbrev begun : Request → Text → Flags → Stage
begun req name fs = record {
  name = name;
  commands = [];
  base_name = first_or_empty req.args;
  source_code = trim_space req.original;
  platform = value_of fs (codes "platform");
  location = req.location;
  comment = get_comment req.comments name;
}

parse_from-Holds : (req : Request) → Holds (λ s. Named req.args s.base_name s.name) (parse_from req)
unfolding parse_from
parse_from-Holds req =
    Holds-bind (Named req.args (first_or_empty req.args)) (λ s. Named req.args s.base_name s.name)
      (parse_build_stage_name req.args)
      (λ name.
        Flags.parse (add_string req.flags (codes "platform") []) >>= λ fs. ok (begun req name fs))
      (parse_build_stage_name-Named req.args)
      (λ name n. by_flags name n (Flags.parse (add_string req.flags (codes "platform") [])))
  where
    by_flags :
        (name : Text)
        → Named req.args (first_or_empty req.args) name
        → (fs : Result Flags)
        → Holds (λ s. Named req.args s.base_name s.name) (fs >>= λ f. ok (begun req name f))
    by_flags name n (ok f) = n
    by_flags name n (err e) = tt

-- The stage that FROM begins, with a base and a name
abbrev pub Begins : Request → Text → Text → Type 0
Begins req base name =
    (s : Stage) × (parse_from req ≡ ok s) × (s.base_name ≡ base) × (s.name ≡ name)

-- A FROM with valid flags begins a stage with a base and a name exactly where it has one argument, the
-- base, and the name is empty, or three, the base, `as` in any case and a text whose lower case is the name,
-- a letter with letters, digits, dashes, underscores and dots behind it.
pub parse_from-Named :
    (req : Request) (fs : Flags) (base name : Text)
    → Flags.parse (add_string req.flags (codes "platform") []) ≡ ok fs
    → Begins req base name ↔ Named req.args base name
unfolding parse_from
parse_from-Named req fs base name h = (forward, backward)
  where
    forward : Begins req base name → Named req.args base name
    forward (s, e, b, n) =
        let k =
          Holds-ok (λ s. Named req.args s.base_name s.name) (parse_from req) (parse_from-Holds req)
            e in
        subst (λ x. Named req.args x name) b (subst (Named req.args s.base_name) n k)

    backward : Named req.args base name → Begins req base name
    backward k =
        let (accepted, b) = Named-accepted req.args base name k in
        (begun req name fs, rw (accepted, h) refl, b, refl)
