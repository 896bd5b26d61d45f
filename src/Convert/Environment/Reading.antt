-- ===== src/Convert/Environment/Reading.antt =====
-- What the variables of an image are once `addEnv` has set one, as `BuildEnvs` reads them
use dockerfile.Base.{
  ◌+◌, ◌≤◌, List, [], ◌∷◌, Bool, true, false, Option, none, some, if◌then◌else◌, ◌≡◌, ◌⊎◌, refl,
  sym, ap, ◌∙◌, subst, inl, inr, Bool-cases, arith, length,
}
use dockerfile.Base.Text.{Text, text_eq, text_eq_iff, contains, cut}
use dockerfile.Shell.Env.{
  equal_env_keys, get_env, build_envs, or_else, or_else-none, said, variable, cut-append,
  get_env-build_envs_cons,
}
use dockerfile.Convert.Environment.{parse_key_value, or_empty, entry, add_env}

-- The value that a variable has in an environment: that of its last entry
abbrev pub value_in : List Text → Text → Option Text
value_in env name = get_env (build_envs env) name

abbrev name_of : Text → Text
name_of e = (parse_key_value e).0

-- No two entries are for the same variable.
abbrev pub IsDistinct : List Text → Type 0
IsDistinct [] = Unit
IsDistinct (e ∷ env) = (value_in env ((parse_key_value e).0) ≡ none) × IsDistinct env

or_empty-variable : (c : Text × Option Text) → variable c ≡ or_empty c
or_empty-variable (k, none) = refl
or_empty-variable (k, some v) = refl

value_in-cons :
    (e : Text) (env : List Text) (name : Text)
    → value_in (e ∷ env) name ≡ or_else (value_in env name) (said (parse_key_value e) name)
unfolding parse_key_value
value_in-cons e env name =
    get_env-build_envs_cons e env name
    ∙ ap (λ p. or_else (value_in env name) (said p name)) (or_empty-variable (cut e b'='))

parse_key_value-entry :
    (k v : Text) → contains k b'=' ≡ false → parse_key_value (entry k v) ≡ (k, v)
unfolding parse_key_value
parse_key_value-entry k v h = rw (cut-append k v b'=' h) refl

in_front :
    (b : Bool) (v : Text) (o : Option Text)
    → (b ≡ true → o ≡ none)
    → or_else o (if b then some v else none) ≡ (if b then some v else o)
in_front true v o h = rw (h refl) refl
in_front false v o h = or_else-none o

behind :
    (b : Bool) (v : Text) (o s : Option Text)
    → or_else (if b then some v else o) s ≡ (if b then some v else or_else o s)
behind true v o s = refl
behind false v o s = refl

hidden :
    (b c : Bool) (v w : Text) (o : Option Text)
    → c ≡ b
    → (if b then some v else o) ≡ (if b then some v else or_else o (if c then some w else none))
hidden true c v w o e = refl
hidden false c v w o e = rw e (sym (or_else-none o))

-- The entry for `k` in front, where no other is for it
value_in-front :
    (k v : Text) (env : List Text) (name : Text)
    → contains k b'=' ≡ false
    → value_in env k ≡ none
    → value_in (entry k v ∷ env) name ≡ (if text_eq name k then some v else value_in env name)
value_in-front k v env name h fresh =
    value_in-cons (entry k v) env name
    ∙ ap (λ p. or_else (value_in env name) (said p name)) (parse_key_value-entry k v h)
    ∙ in_front (text_eq name k) v (value_in env name)
        (λ e. subst (λ n. value_in env n ≡ none) (sym ((text_eq_iff name k).0 e)) fresh)

length-add_env : (env : List Text) (k v : Text) → length (add_env env k v) ≤ length env + 1
unfolding add_env
length-add_env [] k v = omega arith
length-add_env (e ∷ env) k v = ground (arith, length-add_env env k v)

-- What `addEnv` does to the variables
record Sets (env : List Text) (k v : Text) (env' : List Text) : Type 0 where
  values :
      (name : Text) → value_in env' name ≡ (if text_eq name k then some v else value_in env name)
  distinct : IsDistinct env'

add_env-Sets :
    (env : List Text) (k v : Text)
    → contains k b'=' ≡ false
    → IsDistinct env
    → Sets env k v (add_env env k v)
unfolding add_env equal_env_keys
add_env-Sets [] k v h d = record {
  values = λ name. value_in-front k v [] name h (unfold build_envs get_env in refl);
  distinct = (unfold build_envs get_env in refl, tt);
}
add_env-Sets (e ∷ env) k v h d =
    by_name (Bool-cases (text_eq (name_of e) k)) (add_env-Sets env k v h d.1)
  where
    replaced : name_of e ≡ k → Sets (e ∷ env) k v (entry k v ∷ env)
    replaced same =
        let fresh = subst (λ n. value_in env n ≡ none) same d.0 in
        record {
          values = λ name.
              value_in-front k v env name h fresh
              ∙ hidden (text_eq name k) (text_eq name (name_of e)) v ((parse_key_value e).1)
                  (value_in env name) (ap (text_eq name) same)
              ∙ ap (λ o. if text_eq name k then some v else o) (sym (value_in-cons e env name));
          distinct = (
            subst (λ n. value_in env n ≡ none) (sym (ap (λ p. p.0) (parse_key_value-entry k v h)))
                fresh,
            d.1,
          );
        }

    kept :
        text_eq (name_of e) k ≡ false
        → Sets env k v (add_env env k v)
        → Sets (e ∷ env) k v (e ∷ add_env env k v)
    kept other s = record {
      values = λ name.
          value_in-cons e (add_env env k v) name
          ∙ ap (λ o. or_else o (said (parse_key_value e) name)) (s.values name)
          ∙ behind (text_eq name k) v (value_in env name) (said (parse_key_value e) name)
          ∙ ap (λ o. if text_eq name k then some v else o) (sym (value_in-cons e env name));
      distinct = (s.values (name_of e) ∙ rw other d.0, s.distinct);
    }

    by_name :
        (text_eq (name_of e) k ≡ true) ⊎ (text_eq (name_of e) k ≡ false)
        → Sets env k v (add_env env k v)
        → Sets
            (e ∷ env)
            k
            v
            (if text_eq (name_of e) k then entry k v ∷ env else e ∷ add_env env k v)
    by_name (inl same) s = rw same (replaced ((text_eq_iff (name_of e) k).0 same))
    by_name (inr other) s = rw other (kept other s)

-- Where no two entries of an environment are for one variable, `addEnv` gives the variable the new value,
-- as `BuildEnvs` reads it, and leaves every other variable the one that it had, for a name without `=`; there
-- are still no two entries for one variable, and at most one entry more.
pub value_in-add_env :
    (env : List Text) (k v name : Text)
    → contains k b'=' ≡ false
    → IsDistinct env
    → (value_in (add_env env k v) name ≡ (if text_eq name k then some v else value_in env name))
      × IsDistinct (add_env env k v)
      × (length (add_env env k v) ≤ length env + 1)
value_in-add_env env k v name h d =
    let s = add_env-Sets env k v h d in (s.values name, s.distinct, length-add_env env k v)
