-- ===== src/Instructions/Flags/Twice.antt =====
-- A flag with one value that is given twice: `BFlags.Parse` of parser/instructions/bflag.go.
use dockerfile.Base.{
  List, [], ◌∷◌, ◌++◌, true, false, none, some, map, ◌≡◌, refl, ap, ◌∙◌, sym, arith, snoc,
}
use dockerfile.Base.Text.{Text, text_eq_refl, contains}
use dockerfile.Parser.Error.{err, ◌>>=◌, flag}
use dockerfile.Instructions.Error.{duplicate_specified}
use dockerfile.Instructions.Flags.{
  string_type, Flag, Flags, find_flag, has_name, note_used, use_flag, parse_args, parse_unless,
  parse,
}
use dockerfile.Instructions.Flags.Assignments.{
  assignment, IsString, Assigns, given, find_flag-name, put_flag-IsString, put_flag-Assigns,
  use_flag-string, parse_args-assignment,
}

has_name-snoc : (names : List Text) (k : Text) → has_name (snoc names k) k ≡ true
unfolding has_name
has_name-snoc [] k = ground (arith, text_eq_refl k)
has_name-snoc (n ∷ names) k = ground (arith, has_name-snoc names k)

has_name-note_used : (names : List Text) (k : Text) → has_name (note_used names k) k ≡ true
has_name-note_used names k = ground (arith, has_name-snoc names k)

has_name-more :
    (names : List Text) (k n : Text) → has_name names n ≡ true → has_name (snoc names k) n ≡ true
unfolding has_name
has_name-more [] k n h = absurd (ground (arith, h))
has_name-more (m ∷ names) k n h = ground (arith, has_name-more names k n)

note_used-more :
    (names : List Text) (k n : Text)
    → has_name names n ≡ true
    → has_name (note_used names k) n ≡ true
note_used-more names k n h = ground (arith, has_name-more names k n h)

use_flag-used :
    (bf : Flags) (k y : Text) (f : Flag)
    → f.flag_type ≡ string_type
    → has_name bf.used k ≡ true
    → use_flag bf k (some y) (some f) ≡ err (flag (duplicate_specified k))
unfolding use_flag
use_flag-used bf k y f s h = rw (h, s) refl

parse_args-used :
    (bf : Flags) (kvs : List (Text × Text)) (k y : Text) (more : List Text)
    → Assigns bf.flags bf.used kvs
    → IsString bf.flags k
    → contains k b'=' ≡ false
    → has_name bf.used k ≡ true
    → parse_args bf (map assignment kvs ++ assignment (k, y) ∷ more)
      ≡ err (flag (duplicate_specified k))
parse_args-used bf [] k y more h d c u =
    parse_args-assignment bf k y more c
    ∙ (ap (λ o. use_flag bf k (some y) o >>= λ bf2. parse_args bf2 more) d.1
        ∙ ap (λ q. q >>= λ bf2. parse_args bf2 more) (use_flag-used bf k y d.0 d.2 u))
parse_args-used bf ((j, x) ∷ kvs) k y more h d c u =
    let f = h.1.0 in
    let g : Flag = record f { value = x } in
    let e = find_flag-name bf.flags j f h.1.1 in
    let g_declared : IsString bf.flags g.name =
      (f, ap (find_flag bf.flags) (sym e) ∙ h.1.1, h.1.2) in
    let rest = map assignment kvs ++ assignment (k, y) ∷ more in
    let r =
      parse_args-used (given bf j g) kvs k y more
        (put_flag-Assigns bf.flags (note_used bf.used j) g kvs h.1.2 g_declared h.3)
        (put_flag-IsString bf.flags g k h.1.2 g_declared d) c (note_used-more bf.used j k u) in
    parse_args-assignment bf j x rest h.0
    ∙ (ap (λ o. use_flag bf j (some x) o >>= λ bf2. parse_args bf2 rest) h.1.1
        ∙ (ap (λ q. q >>= λ bf2. parse_args bf2 rest) (use_flag-string bf j x f h.1.2 h.2) ∙ r))

-- A flag added by AddString that is given a second time is refused, whatever other flags stand
-- between and behind, where no error was noted when the flags were added, and the arguments before
-- are `--name=value` with names of flags added by AddString that are each given once and have no
-- `=` in them.
pub parse-twice :
    (bf : Flags) (k x y : Text) (kvs : List (Text × Text)) (more : List Text)
    → bf.failure ≡ none
    → bf.args ≡ assignment (k, x) ∷ (map assignment kvs ++ assignment (k, y) ∷ more)
    → Assigns bf.flags bf.used ((k, x) ∷ kvs)
    → parse bf ≡ err (flag (duplicate_specified k))
unfolding parse
parse-twice bf k x y kvs more e a h =
    let f = h.1.0 in
    let g : Flag = record f { value = x } in
    let n = find_flag-name bf.flags k f h.1.1 in
    let g_declared : IsString bf.flags g.name =
      (f, ap (find_flag bf.flags) (sym n) ∙ h.1.1, h.1.2) in
    let rest = map assignment kvs ++ assignment (k, y) ∷ more in
    ap (parse_unless bf) e
    ∙ (ap (parse_args bf) a
        ∙ (parse_args-assignment bf k x rest h.0
            ∙ (ap (λ o. use_flag bf k (some x) o >>= λ bf2. parse_args bf2 rest) h.1.1
                ∙ (ap (λ q. q >>= λ bf2. parse_args bf2 rest) (use_flag-string bf k x f h.1.2 h.2)
                    ∙ parse_args-used (given bf k g) kvs k y more
                        (put_flag-Assigns bf.flags (note_used bf.used k) g kvs h.1.2 g_declared h.3)
                        (put_flag-IsString bf.flags g k h.1.2 g_declared h.1) h.0
                        (has_name-note_used bf.used k)))))
