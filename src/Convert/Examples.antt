-- ===== src/Convert/Examples.antt =====
-- The properties of the conversion at concrete inputs.
use dockerfile.Base.{List, [], ◌∷◌, some, ◌≡◌, refl, ◌+◌, ◌≤◌, length}
use dockerfile.Base.Text.{Text, codes, text_eq, contains}
use dockerfile.Parser.Directives.{match_directive}
use dockerfile.Shell.Env.{get_env, build_envs}
use dockerfile.Convert.Environment.{add_env, parse_key_value}
use dockerfile.Convert.Environment.Reading.{value_in, IsDistinct, value_in-add_env}
use dockerfile.Convert.Syntax.{detect_syntax, detect_syntax-stop}

abbrev image_env : List Text
image_env = codes "PATH=/bin" ∷ codes "A=1" ∷ []

value_in-add_env_example :
    (value_in (add_env image_env (codes "A") (codes "b=c")) (codes "A") ≡ some (codes "b=c"))
    × IsDistinct (add_env image_env (codes "A") (codes "b=c"))
    × (length (add_env image_env (codes "A") (codes "b=c")) ≤ length image_env + 1)
unfolding text_eq contains get_env build_envs parse_key_value
value_in-add_env_example =
    value_in-add_env image_env (codes "A") (codes "b=c") (codes "A") refl (refl, (refl, tt))

-- With two entries for the variable the first is replaced, and the last one counts.
run_add_env_twice :
    value_in (add_env (codes "A=1" ∷ codes "A=2" ∷ []) (codes "A") (codes "3")) (codes "A")
    ≡ some (codes "2")
unfolding add_env get_env build_envs text_eq
run_add_env_twice = refl

detect_syntax-stop_example :
    detect_syntax (codes "# syntax = a/b:1 x" ∷ codes "FROM a" ∷ codes "# syntax=c" ∷ [])
    ≡ detect_syntax (codes "# syntax = a/b:1 x" ∷ [])
unfolding match_directive
detect_syntax-stop_example =
    detect_syntax-stop (codes "# syntax = a/b:1 x" ∷ []) (codes "FROM a") (codes "# syntax=c" ∷ [])
      refl

run_syntax :
    detect_syntax (codes "# syntax = a/b:1 x" ∷ codes "FROM a" ∷ [])
    ≡ some (codes "a/b:1", codes "a/b:1 x", 1)
unfolding detect_syntax text_eq
run_syntax = refl
