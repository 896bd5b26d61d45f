-- ===== src/Instructions/Flags.antt =====
-- parser/instructions/bflag.go: the flags of an instruction. `flags` is in the order in which the
-- flags were added, and `used` in the order in which they were given, where Go has maps. A
-- `*Flag` that an AddXXX method returns is the name of the flag here.
pub mod Assignments
pub mod Twice
use dockerfile.Base.{
  ℕ, List, [], ◌∷◌, Bool, true, false, not, ◌&&◌, ◌||◌, Option, none, some, snoc, if◌then◌else◌,
  map, ◌≡◌, refl,
}
use dockerfile.Base.Text.{Text, codes, text_eq, has_prefix, trim_prefix, cut, to_lower}
use dockerfile.Parser.Error.{Result, ok, err, ◌>>=◌, flag}
use dockerfile.Instructions.Error.{
  FlagError, duplicate_defined, setting_up, no_dashes, duplicate_specified, missing_value,
  unknown_flag, not_boolean,
}

pub data FlagType : Type 0 where
  bool_type string_type strings_type : FlagType

pub record Flag : Type 0 where
  pub name : Text
  pub flag_type : FlagType
  pub value : Text
  pub string_values : List Text

-- `BFlags`
pub record Flags : Type 0 where
  pub args : List Text
  pub flags : List Flag
  pub used : List Text
  pub failure : Option FlagError

-- `NewBFlagsWithArgs`
abbrev pub new_flags : List Text → Flags
new_flags args = record { args = args; flags = []; used = []; failure = none }

-- `flags[name]`
unfoldable pub find_flag : List Flag → Text → Option Flag
find_flag [] name = none
find_flag (f ∷ fs) name = if text_eq name f.name then some f else find_flag fs name

-- `flag.Value = ...` through the pointer in the map
unfoldable pub put_flag : List Flag → Flag → List Flag
put_flag [] g = []
put_flag (f ∷ fs) g = if text_eq g.name f.name then g ∷ fs else f ∷ put_flag fs g

abbrev pub add_new : Flags → Flag → Option Flag → Flags
add_new bf f none = record bf { flags = snoc bf.flags f }
add_new bf f (some g) = record bf { failure = some (duplicate_defined f.name) }

-- `addFlag`, with the value that the AddXXX method sets
unfoldable pub add_flag : Flags → Flag → Flags
unfolding find_flag
add_flag bf f = add_new bf f (find_flag bf.flags f.name)

abbrev pub truth : Bool → Text
truth true = codes "true"
truth false = codes "false"

-- `AddBool`
unfoldable pub add_bool : Flags → Text → Bool → Flags
unfolding add_flag
add_bool bf name default =
    add_flag bf
      (record { name = name; flag_type = bool_type; value = truth default; string_values = [] })

-- `AddString`
unfoldable pub add_string : Flags → Text → Text → Flags
unfolding add_flag
add_string bf name default =
    add_flag bf
      (record { name = name; flag_type = string_type; value = default; string_values = [] })

-- `AddStrings`
unfoldable pub add_strings : Flags → Text → Flags
unfolding add_flag
add_strings bf name =
    add_flag bf (record { name = name; flag_type = strings_type; value = []; string_values = [] })

unfoldable pub has_name : List Text → Text → Bool
has_name [] name = false
has_name (n ∷ ns) name = text_eq name n || has_name ns name

-- `bf.used[name] = flag`
abbrev pub note_used : List Text → Text → List Text
note_used names name = if has_name names name then names else snoc names name

-- `IsUsed`, for the flag of this name
unfoldable pub is_used : Flags → Text → Bool
unfolding has_name
is_used bf name = has_name bf.used name

-- `flag.Value` and `flag.StringValues` of the flag of this name
abbrev value_or_empty : Option Flag → Text
value_or_empty none = []
value_or_empty (some f) = f.value

unfoldable pub value_of : Flags → Text → Text
unfolding find_flag
value_of bf name = value_or_empty (find_flag bf.flags name)

abbrev values_or_empty : Option Flag → List Text
values_or_empty none = []
values_or_empty (some f) = f.string_values

unfoldable pub values_of : Flags → Text → List Text
unfolding find_flag
values_of bf name = values_or_empty (find_flag bf.flags name)

-- `allFlags`
abbrev pub all_flags : List Flag → List Text
all_flags = map (λ f. f.name)

-- `case boolType`
unfoldable pub set_bool : Flag → Option Text → Result Flag
unfolding to_lower text_eq
set_bool f none = ok (record f { value = codes "true" })
set_bool f (some []) = err (flag (missing_value f.name))
set_bool f (some (c ∷ s)) =
    let lower = to_lower (c ∷ s) in
    if text_eq lower (codes "true") || text_eq lower (codes "false")
    then ok (record f { value = lower })
    else err (flag (not_boolean f.name (c ∷ s)))

-- `switch flag.flagType`; the value is `none` where there is no `=`
unfoldable pub set_value : FlagType → Flag → Option Text → Result Flag
unfolding set_bool
set_value bool_type f v = set_bool f v
set_value string_type f none = err (flag (missing_value f.name))
set_value string_type f (some v) = ok (record f { value = v })
set_value strings_type f none = err (flag (missing_value f.name))
set_value strings_type f (some v) = ok (record f { string_values = snoc f.string_values v })

abbrev is_strings : FlagType → Bool
is_strings strings_type = true
is_strings _ = false

-- A round of the loop of `Parse` behind the dashes, at the flag that was found
unfoldable pub use_flag : Flags → Text → Option Text → Option Flag → Result Flags
unfolding has_name set_value put_flag
use_flag bf name v none = err (flag (unknown_flag name (all_flags bf.flags)))
use_flag bf name v (some f) =
    if has_name bf.used name && not (is_strings f.flag_type)
    then err (flag (duplicate_specified name))
    else (set_value f.flag_type f v >>= λ g.
        ok (record bf { flags = put_flag bf.flags g; used = note_used bf.used name }))

abbrev pub use_assignment : Flags → Text × Option Text → Result Flags
use_assignment bf (name, v) = use_flag bf name v (find_flag bf.flags name)

abbrev pub dashes : Text
dashes = codes "--"

-- The loop of `Parse`
unfoldable pub parse_args : Flags → List Text → Result Flags
unfolding find_flag use_flag has_prefix trim_prefix cut
parse_args bf [] = ok bf
parse_args bf (arg ∷ args) =
    if not (has_prefix arg dashes)
    then err (flag (no_dashes arg))
    else if text_eq arg dashes
    then ok bf
    else use_assignment bf (cut (trim_prefix arg dashes) b'=') >>= λ bf'. parse_args bf' args

abbrev pub parse_unless : Flags → Option FlagError → Result Flags
parse_unless bf none = parse_args bf bf.args
parse_unless bf (some e) = err (flag (setting_up e))

-- `Parse`
unfoldable pub parse : Flags → Result Flags
unfolding parse_args
parse bf = parse_unless bf bf.failure
