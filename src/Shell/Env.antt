-- ===== src/Shell/Env.antt =====
-- Environments: `BuildEnvs`, `getEnv` and `EqualEnvKeys` of the Unix build. The map is a list of
-- entries with one entry for each key.
use dockerfile.Base.{
  ℕ, Bool, true, false, List, [], ◌∷◌, ◌++◌, Option, none, some, ◌≡◌, refl, ◌∙◌, ap, arith,
  if◌then◌else◌, snoc,
}
use dockerfile.Base.Text.{Text, text_eq, text_eq_iff, contains, cut}

abbrev pub Env : Type 0
Env = List (Text × Text)

-- parser/shell/equal_env_unix.go
unfoldable pub equal_env_keys : Text → Text → Bool
equal_env_keys from to = text_eq from to

-- `(*shellWord).getEnv`: `none` is `"", false`.
unfoldable pub get_env : Env → Text → Option Text
unfolding equal_env_keys
get_env [] name = none
get_env ((key, value) ∷ env) name = if equal_env_keys name key then some value else get_env env name

-- `envs[k] = v`
unfoldable pub set_env : Env → Text → Text → Env
set_env [] k v = (k, v) ∷ []
set_env ((key, value) ∷ env) k v =
    if text_eq k key then (key, v) ∷ env else (key, value) ∷ set_env env k v

-- One round of the loop of `BuildEnvs`.
abbrev add_entry : Env → Text × Option Text → Env
add_entry envs (e, none) = set_env envs e []
add_entry envs (k, some v) = set_env envs k v

build_onto : Env → List Text → Env
build_onto envs [] = envs
build_onto envs (e ∷ env) = build_onto (add_entry envs (cut e b'=')) env

unfoldable pub build_envs : List Text → Env
unfolding build_onto cut set_env
build_envs = build_onto []

pub get_env-set_env :
    (envs : Env) (k v name : Text)
    → get_env (set_env envs k v) name ≡ (if text_eq name k then some v else get_env envs name)
unfolding get_env set_env
get_env-set_env [] k v name = refl
get_env-set_env ((key, value) ∷ envs) k v name = ground (
  arith,
  get_env-set_env envs k v name,
  text_eq_iff k key,
  text_eq_iff name key,
  text_eq_iff name k,
)

pub cut-append : (k v : Text) (c : ℕ) → contains k c ≡ false → cut (k ++ c ∷ v) c ≡ (k, some v)
unfolding cut contains
cut-append [] v c h = ground arith
cut-append (d ∷ k) v c h = ground (arith, cut-append k v c)

build_onto-append :
    (env more : List Text) (envs : Env)
    → build_onto envs (env ++ more) ≡ build_onto (build_onto envs env) more
unfolding build_onto
build_onto-append [] more envs = refl
build_onto-append (e ∷ env) more envs = build_onto-append env more (add_entry envs (cut e b'='))

build_envs-snoc :
    (env : List Text) (k v : Text)
    → contains k b'=' ≡ false
    → build_envs (snoc env (k ++ b'=' ∷ v)) ≡ set_env (build_envs env) k v
unfolding build_envs build_onto
build_envs-snoc env k v h =
    build_onto-append env ((k ++ b'=' ∷ v) ∷ []) [] ∙ rw (cut-append k v b'=' h)

-- A variable has the value of the last entry `k=v` for it: an entry behind all others sets its
-- own variable, to everything behind the first `=`, and no other.
pub get_env-build_envs :
    (env : List Text) (k v name : Text)
    → contains k b'=' ≡ false
    → get_env (build_envs (snoc env (k ++ b'=' ∷ v))) name
      ≡ (if text_eq name k then some v else get_env (build_envs env) name)
get_env-build_envs env k v name h =
    rw (build_envs-snoc env k v h) (get_env-set_env (build_envs env) k v name)

abbrev pub or_else : Option Text → Option Text → Option Text
or_else (some v) o = some v
or_else none o = o

pub or_else-none : (a : Option Text) → or_else a none ≡ a
or_else-none (some v) = refl
or_else-none none = refl

or_else_assoc : (a b c : Option Text) → or_else a (or_else b c) ≡ or_else (or_else a b) c
or_else_assoc (some v) b c = refl
or_else_assoc none b c = refl

-- The variable of an entry, and its value
abbrev pub variable : Text × Option Text → Text × Text
variable (e, none) = (e, [])
variable (k, some v) = (k, v)

-- What an entry says of a variable
abbrev pub said : Text × Text → Text → Option Text
said (k, v) name = if text_eq name k then some v else none

said_else :
    (b : Bool) (v : Text) (o : Option Text)
    → (if b then some v else o) ≡ or_else (if b then some v else none) o
said_else true v o = refl
said_else false v o = refl

get_env-add_entry :
    (envs : Env) (c : Text × Option Text) (name : Text)
    → get_env (add_entry envs c) name ≡ or_else (said (variable c) name) (get_env envs name)
get_env-add_entry envs (e, none) name =
    get_env-set_env envs e [] name ∙ said_else (text_eq name e) [] (get_env envs name)
get_env-add_entry envs (k, some v) name =
    get_env-set_env envs k v name ∙ said_else (text_eq name k) v (get_env envs name)

get_env-build_onto :
    (env : List Text) (envs : Env) (name : Text)
    → get_env (build_onto envs env) name
      ≡ or_else (get_env (build_onto [] env) name) (get_env envs name)
unfolding build_onto get_env
get_env-build_onto [] envs name = refl
get_env-build_onto (e ∷ env) envs name =
    let c = cut e b'=' in
    get_env-build_onto env (add_entry envs c) name
    ∙ (rw
        (
          get_env-build_onto env (add_entry [] c) name,
          get_env-add_entry envs c name,
          get_env-add_entry [] c name,
          or_else-none,
        )
        (or_else_assoc (get_env (build_onto [] env) name) (said (variable c) name)
          (get_env envs name)))

-- The entries behind an entry go before it.
pub get_env-build_envs_cons :
    (e : Text) (env : List Text) (name : Text)
    → get_env (build_envs (e ∷ env)) name
      ≡ or_else (get_env (build_envs env) name) (said (variable (cut e b'=')) name)
unfolding build_envs build_onto get_env
get_env-build_envs_cons e env name =
    get_env-build_onto env (add_entry [] (cut e b'=')) name
    ∙ ap (or_else (get_env (build_onto [] env) name))
        (get_env-add_entry [] (cut e b'=') name ∙ or_else-none (said (variable (cut e b'=')) name))
