-- ===== src/Instructions/Flags/Assignments.antt =====
-- Flags that are given values: `BFlags.Parse` on arguments `--name=value`.
use dockerfile.Base.{
  inl, inr, Bool-cases, ℕ, List, [], ◌∷◌, ◌++◌, false, none, some, if◌then◌else◌, map, ◌≡◌, refl,
  arith, ◌∙◌, sym, ap,
}
use dockerfile.Base.Text.{
  Text, text_eq, text_eq_iff, text_eq_refl, contains, has_prefix, trim_prefix,
}
use dockerfile.Shell.Env.{cut-append}
use dockerfile.Parser.Error.{ok, ◌>>=◌}
use dockerfile.Instructions.Flags.{
  string_type, Flag, Flags, find_flag, put_flag, has_name, note_used, value_of, use_flag, set_value,
  dashes, parse_args, parse_unless, parse, value_or_empty,
}

-- `--name=value`
abbrev pub assignment : Text × Text → Text
assignment (k, x) = dashes ++ (k ++ b'=' ∷ x)

-- A flag with one text as its value is declared under the name.
abbrev pub IsString : List Flag → Text → Type 0
IsString fs name = (f : Flag) × (find_flag fs name ≡ some f) × (f.flag_type ≡ string_type)

-- Each name is that of such a flag, has no `=` in it, and is neither used nor given before.
abbrev pub Assigns : List Flag → List Text → List (Text × Text) → Type 0
Assigns fs used [] = Unit
Assigns fs used ((k, x) ∷ kvs) =
    (contains k b'=' ≡ false)
    × IsString fs k
    × (has_name used k ≡ false)
    × Assigns fs (note_used used k) kvs

-- The value that is assigned to a name, or the one it has
abbrev pub assigned : List (Text × Text) → Text → Text → Text
assigned [] name default = default
assigned ((k, x) ∷ kvs) name default = assigned kvs name (if text_eq name k then x else default)

pub find_flag-name : (fs : List Flag) (n : Text) (f : Flag) → find_flag fs n ≡ some f → n ≡ f.name
unfolding find_flag
find_flag-name [] n f h = cc
find_flag-name (g ∷ fs) n f h = ground (arith, text_eq_iff n g.name, find_flag-name fs n f)

find_flag-put_flag :
    (fs : List Flag) (g f : Flag)
    → find_flag fs g.name ≡ some f
    → find_flag (put_flag fs g) g.name ≡ some g
unfolding find_flag put_flag
find_flag-put_flag [] g f h = cc
find_flag-put_flag (e ∷ fs) g f h = ground (arith, text_eq_refl g.name, find_flag-put_flag fs g f)

find_flag-put_flag_other :
    (fs : List Flag) (g : Flag) (n : Text)
    → text_eq n g.name ≡ false
    → find_flag (put_flag fs g) n ≡ find_flag fs n
unfolding find_flag put_flag
find_flag-put_flag_other [] g n h = refl
find_flag-put_flag_other (e ∷ fs) g n h =
    ground (arith, text_eq_iff g.name e.name, find_flag-put_flag_other fs g n h)

pub put_flag-IsString :
    (fs : List Flag) (g : Flag) (n : Text)
    → g.flag_type ≡ string_type
    → IsString fs g.name
    → IsString fs n
    → IsString (put_flag fs g) n
put_flag-IsString fs g n s d h = elim (Bool-cases (text_eq n g.name)) [
  | inl y ↦ (
    g,
    (ap (find_flag (put_flag fs g)) ((text_eq_iff n g.name).0 y) ∙ find_flag-put_flag fs g d.0 d.1),
    s,
  )
  | inr n≢ ↦ (h.0, (find_flag-put_flag_other fs g n n≢ ∙ h.1), h.2)
]

pub put_flag-Assigns :
    (fs : List Flag) (used : List Text) (g : Flag) (kvs : List (Text × Text))
    → g.flag_type ≡ string_type
    → IsString fs g.name
    → Assigns fs used kvs
    → Assigns (put_flag fs g) used kvs
put_flag-Assigns fs used g [] s d h = tt
put_flag-Assigns fs used g ((k, x) ∷ kvs) s d h = (
  h.0,
  put_flag-IsString fs g k s d h.1,
  h.2,
  put_flag-Assigns fs (note_used used k) g kvs s d h.3,
)

-- The flags after a value is given
abbrev pub given : Flags → Text → Flag → Flags
given bf k g = record bf { flags = put_flag bf.flags g; used = note_used bf.used k }

pub use_flag-string :
    (bf : Flags) (k x : Text) (f : Flag)
    → f.flag_type ≡ string_type
    → has_name bf.used k ≡ false
    → use_flag bf k (some x) (some f) ≡ ok (given bf k (record f { value = x }))
unfolding use_flag set_value
use_flag-string bf k x f s h = rw (h, s) refl

append-not-empty : (k : Text) (c : ℕ) (x : Text) → text_eq (k ++ c ∷ x) [] ≡ false
unfolding text_eq
append-not-empty [] c x = refl
append-not-empty (d ∷ k) c x = refl

pub parse_args-assignment :
    (bf : Flags) (k x : Text) (args : List Text)
    → contains k b'=' ≡ false
    → parse_args bf (assignment (k, x) ∷ args)
      ≡ (use_flag bf k (some x) (find_flag bf.flags k) >>= λ bf'. parse_args bf' args)
unfolding parse_args has_prefix trim_prefix text_eq
parse_args-assignment bf k x args h = rw (append-not-empty k b'=' x, cut-append k x b'=' h) refl

value_of-given :
    (bf : Flags) (k x n : Text) (f : Flag)
    → find_flag bf.flags k ≡ some f
    → value_of (given bf k (record f { value = x })) n ≡ (if text_eq n k then x else value_of bf n)
unfolding value_of
value_of-given bf k x n f h =
    let g : Flag = record f { value = x } in
    let e = find_flag-name bf.flags k f h in
    elim (Bool-cases (text_eq n k)) [
      | inl y ↦ rw y (
          ap (λ m. value_or_empty (find_flag (put_flag bf.flags g) m)) ((text_eq_iff n k).0 y ∙ e)
          ∙ ap value_or_empty
              (find_flag-put_flag bf.flags g f (ap (find_flag bf.flags) (sym e) ∙ h)))
      | inr n≢ ↦
          rw n≢ (
            ap value_or_empty (find_flag-put_flag_other bf.flags g n (ap (text_eq n) (sym e) ∙ n≢)))
    ]

parse_args-assignments :
    (bf : Flags) (kvs : List (Text × Text))
    → Assigns bf.flags bf.used kvs
    → (bf' : Flags) × (parse_args bf (map assignment kvs) ≡ ok bf')
      × ((n : Text) → value_of bf' n ≡ assigned kvs n (value_of bf n))
unfolding parse_args
parse_args-assignments bf [] h = (bf, refl, λ n. refl)
parse_args-assignments bf ((k, x) ∷ kvs) h =
    let f = h.1.0 in
    let g : Flag = record f { value = x } in
    let e = find_flag-name bf.flags k f h.1.1 in
    let r = parse_args-assignments (given bf k g) kvs (
      put_flag-Assigns bf.flags (note_used bf.used k) g kvs h.1.2
        (f, ap (find_flag bf.flags) (sym e) ∙ h.1.1, h.1.2) h.3) in
    (
      r.0,
      (parse_args-assignment bf k x (map assignment kvs) h.0
          ∙ (ap (λ o. use_flag bf k (some x) o >>= λ bf2. parse_args bf2 (map assignment kvs)) h.1.1
              ∙ (ap (λ q. q >>= λ bf2. parse_args bf2 (map assignment kvs))
                    (use_flag-string bf k x f h.1.2 h.2)
                  ∙ r.1))),
      λ n. r.2 n ∙ ap (assigned kvs n) (value_of-given bf k x n f h.1.1),
    )

-- Arguments `--name=value` succeed, and give each flag that is named the value behind its first
-- `=` and leave the values of the others, if no error was noted when the flags were added, and each
-- name is that of a flag added by AddString, has no `=` in it, and is neither used nor given before.
pub parse-assignments :
    (bf : Flags) (kvs : List (Text × Text))
    → bf.failure ≡ none
    → bf.args ≡ map assignment kvs
    → Assigns bf.flags bf.used kvs
    → (bf' : Flags) × (parse bf ≡ ok bf')
      × ((n : Text) → value_of bf' n ≡ assigned kvs n (value_of bf n))
unfolding parse
parse-assignments bf kvs e a h =
    let r = parse_args-assignments bf kvs h in
    (r.0, (ap (parse_unless bf) e ∙ (ap (parse_args bf) a ∙ r.1)), r.2)
