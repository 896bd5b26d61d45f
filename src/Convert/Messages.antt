-- ===== src/Convert/Messages.antt =====
-- dockerfile2llb/convert.go: the texts that name a step of the build, and what the code uses of fmt for
-- them.
use dockerfile.Base.{
  ℕ, zero, suc, ◌+◌, ◌-◌, ◌/◌, ◌%◌, List, [], ◌∷◌, ◌++◌, ◌==◌, ◌||◌, Option, none, some, map,
  length, ltb, if◌then◌else◌,
}
use dockerfile.Base.Text.{Text, codes, join, trim_space}
use dockerfile.Shell.Env.{Env, get_env}
use dockerfile.Shell.Lex.{Lex}
use dockerfile.Shell.Quote.{Result, value, process_word}
use dockerfile.Instructions.Commands.{KeyValuePairOptional}
use dockerfile.Convert.Environment.{value_string, entry}
use dockerfile.Paths.{split}

-- `%d`: the digits of a number, the last ones given; the fuel is enough where it is above the number.
unfoldable pub digits_of : ℕ → ℕ → Text → Text
digits_of zero n done = done
digits_of (suc f) n done =
    let rest = digits_of f (n / 10) ((b'0' + n % 10) ∷ done) in
    if ltb n 10 then (b'0' + n) ∷ done else rest

unfoldable pub decimal : ℕ → Text
unfolding digits_of
decimal n = digits_of (suc n) n []

-- `%*d`
unfoldable pub pad_left : ℕ → Text → Text
pad_left zero s = s
pad_left (suc n) s = if ltb n (length s) then s else b' ' ∷ pad_left n s

-- `%v` of a `[]string`
abbrev pub show_list : List Text → Text
show_list args = codes "[" ++ (join args (codes " ") ++ codes "]")

abbrev hex_digit : ℕ → ℕ
hex_digit d = if ltb d 10 then b'0' + d else b'a' + (d - 10)

-- The code point in `strconv.Quote`, which leaves those above ASCII as they are where they can be printed
unfoldable pub quote_code : ℕ → Text
quote_code c =
    if c == b'"' || c == b'\\'
    then b'\\' ∷ c ∷ []
    else if c == 7
    then codes "\\a"
    else if c == 8
    then codes "\\b"
    else if c == 12
    then codes "\\f"
    else if c == 10
    then codes "\\n"
    else if c == 13
    then codes "\\r"
    else if c == 9
    then codes "\\t"
    else if c == 11
    then codes "\\v"
    else if ltb c 32 || c == 127
    then codes "\\x" ++ hex_digit (c / 16) ∷ hex_digit (c % 16) ∷ []
    else c ∷ []

unfoldable pub quote_codes : Text → Text
unfolding quote_code
quote_codes [] = []
quote_codes (c ∷ s) = quote_code c ++ quote_codes s

abbrev pub quote : Text → Text
quote s = b'"' ∷ (quote_codes s ++ b'"' ∷ [])

-- `%q` of a `[]string`
abbrev pub quote_list : List Text → Text
quote_list args = show_list (map quote args)

-- `strings.ReplaceAll(doc, "\r\n", "\n")`
unfoldable pub unix_lines : Text → Text
unix_lines [] = []
unix_lines (c ∷ []) = c ∷ []
unix_lines (c ∷ d ∷ s) =
    let rest = unix_lines (d ∷ s) in
    if c == 13 then (if d == 10 then rest else c ∷ rest) else c ∷ rest

abbrev summary : List Text → Text
summary [] = []
summary (line ∷ []) = line
summary (line ∷ more ∷ lines) = line ++ codes "..."

-- `summarizeHeredoc`
unfoldable pub summarize_heredoc : Text → Text
unfolding split unix_lines trim_space
summarize_heredoc doc = summary (split (unix_lines (trim_space doc)) 10)

abbrev or_cmd : Text → Result Text → Text
or_cmd cmd (value w) = w
or_cmd cmd _ = cmd

-- `processCmdEnv`
unfoldable pub process_cmd_env : Lex → Text → List Text → Text
unfolding process_word
process_cmd_env lex cmd env = or_cmd cmd (process_word lex cmd env)

abbrev or_default : Option Text → Text → Text
or_default none d = d
or_default (some v) d = v

unfoldable pub build_env_strings : List KeyValuePairOptional → Env → List Text
unfolding get_env
build_env_strings [] envs = []
build_env_strings (arg ∷ args) envs =
    entry arg.key (or_default (get_env envs arg.key) (value_string arg))
    ∷ build_env_strings args envs

abbrev counted : List Text → List Text
counted [] = []
counted (e ∷ es) = (b'|' ∷ decimal (length (e ∷ es))) ∷ e ∷ es

-- `runCommandString`
unfoldable pub run_command_string : List Text → List KeyValuePairOptional → Env → Text
unfolding build_env_strings decimal join
run_command_string args build_args envs =
    join (counted (build_env_strings build_args envs) ++ args) (codes " ")

-- The words that `prefixCommand` puts in front: the platform where it is shown, the name of the stage, the
-- index of the step and their number
abbrev pub shown_platform : Option Text → Text
shown_platform none = []
shown_platform (some p) = p ++ codes " "

abbrev pub shown_name : Text → Text
shown_name [] = []
shown_name (c ∷ s) = (c ∷ s) ++ codes " "

-- The width 1 + log10 of the number of steps is that of its digits.
unfoldable pub step_prefix : Option Text → Text → ℕ → ℕ → Text
unfolding decimal pad_left
step_prefix platform name index total =
    codes "["
    ++ (shown_platform platform
        ++ (shown_name name
            ++ (pad_left (length (decimal total)) (decimal index)
                ++ (codes "/" ++ (decimal total ++ codes "] ")))))
