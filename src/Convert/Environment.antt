-- ===== src/Convert/Environment.antt =====
-- dockerfile2llb/convert.go: the environment of an image, build arguments and users.
pub mod Reading
use dockerfile.Base.{
  ℕ, ◌+◌, ◌≤◌, List, [], ◌∷◌, ◌++◌, false, Option, none, some, snoc, if◌then◌else◌, ◌≡◌, refl, ap,
  arith, length,
}
use dockerfile.Base.Text.{Text, codes, text_eq, text_eq_iff, contains, cut, to_upper, join}
use dockerfile.Shell.Env.{equal_env_keys, set_env, Env, cut-append}
use dockerfile.Instructions.Commands.{KeyValuePairOptional}
use dockerfile.Instructions.Numbers.{parse_uint}

abbrev pub or_empty : Text × Option Text → Text × Text
or_empty (k, none) = (k, [])
or_empty (k, some v) = (k, v)

-- `parseKeyValue`
unfoldable pub parse_key_value : Text → Text × Text
unfolding cut
parse_key_value e = or_empty (cut e b'=')

abbrev pub entry : Text → Text → Text
entry k v = k ++ b'=' ∷ v

-- `addEnv`
unfoldable pub add_env : List Text → Text → Text → List Text
unfolding parse_key_value equal_env_keys
add_env [] k v = entry k v ∷ []
add_env (e ∷ env) k v =
    if equal_env_keys ((parse_key_value e).0) k then entry k v ∷ env else e ∷ add_env env k v

-- `setKVValue`, on an environment of build arguments
abbrev or_value : KeyValuePairOptional → Option Text → KeyValuePairOptional
or_value p none = p
or_value p (some v) = record p { value = some v }

unfoldable pub find_value : Env → Text → Option Text
find_value [] k = none
find_value ((key, v) ∷ values) k = if text_eq k key then some v else find_value values k

unfoldable pub set_kv_value : KeyValuePairOptional → Env → KeyValuePairOptional
unfolding find_value
set_kv_value p values = or_value p (find_value values p.key)

-- `ValueString`
abbrev pub value_string : KeyValuePairOptional → Text
value_string p = elim p.value [ none ↦ [] | some v ↦ v ]

meta_args_onto : Env → List KeyValuePairOptional → Env
meta_args_onto m [] = m
meta_args_onto m (p ∷ ps) = meta_args_onto (set_env m p.key (value_string p)) ps

-- `metaArgsToMap`
unfoldable pub meta_args_to_map : List KeyValuePairOptional → Env
unfolding meta_args_onto set_env
meta_args_to_map args = meta_args_onto [] args

-- `parseUID`
unfoldable pub parse_uid : Text → Option ℕ
unfolding parse_uint text_eq
parse_uid s = if text_eq s (codes "root") then some 0 else parse_uint 10 32 s

abbrev both : Option ℕ → Option ℕ → Option (ℕ × ℕ)
both (some u) (some g) = some (u, g)
both _ _ = none

abbrev user_parts : Text × Option Text → Option (ℕ × ℕ)
user_parts (u, none) = both (parse_uid u) (parse_uid u)
user_parts (u, some g) = both (parse_uid u) (parse_uid g)

-- `parseUser`, where an error is `none`
unfoldable pub parse_user : Text → Option (ℕ × ℕ)
unfolding parse_uid cut
parse_user [] = some (0, 0)
parse_user (c ∷ s) = user_parts (cut (c ∷ s) b':')

-- `uppercaseCmd`
abbrev with_rest : Text × Option Text → Text
with_rest (word, none) = to_upper word
with_rest (word, some rest) = to_upper word ++ b' ' ∷ rest

unfoldable pub uppercase_cmd : Text → Text
unfolding cut to_upper
uppercase_cmd s = with_rest (cut s b' ')

-- `defaultShell`
unfoldable pub default_shell : Text → List Text
unfolding text_eq
default_shell os =
    if text_eq os (codes "windows")
    then codes "cmd" ∷ codes "/S" ∷ codes "/C" ∷ []
    else codes "/bin/sh" ∷ codes "-c" ∷ []

-- `withShell`, on the shell of the image and its system
unfoldable pub with_shell : List Text → Text → List Text → List Text
unfolding default_shell join
with_shell [] os args = snoc (default_shell os) (join args (codes " "))
with_shell (a ∷ shell) os args = snoc (a ∷ shell) (join args (codes " "))
