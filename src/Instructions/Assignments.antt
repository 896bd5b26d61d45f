-- ===== src/Instructions/Assignments.antt =====
-- ENV and LABEL with `name=value` words: from the text behind the instruction (`parseNameVal`),
-- over the tree (`nodeArgs`), to the pairs of the command (`parseKvps`).
use dockerfile.Base.{ℕ, List, [], ◌∷◌, ◌++◌, true, false, map, ◌≡◌, ◌≢◌, refl, ap, arith, All}
use dockerfile.Base.Text.{Text, contains}
use dockerfile.Shell.Env.{cut-append}
use dockerfile.Parser.Ast.{chain}
use dockerfile.Parser.Error.{ok, ◌>>=◌}
use dockerfile.Parser.LineParsers.{name_values, parse_name_val}
use dockerfile.Parser.ParseWords.Spec.{IsToken, Spaced, parse_words-Spaced}
use dockerfile.Instructions.Commands.{KeyValuePair}
use dockerfile.Instructions.Request.{link_args, pairs, is_odd, parse_kvps}

-- `name=value`
abbrev pub word : Text × Text → Text
word (k, v) = k ++ b'=' ∷ v

abbrev pub pair : Text × Text → KeyValuePair
pair (k, v) = record { key = k; value = v }

-- A name is not empty and has no `=` in it.
abbrev pub HasName : Text × Text → Type 0
HasName (k, v) = (k ≢ []) × (contains k b'=' ≡ false)

-- Names and values in turn
abbrev flat : List (Text × Text) → List Text
flat [] = []
flat ((k, v) ∷ kvs) = k ∷ v ∷ flat kvs

name_values-words :
    (kvs : List (Text × Text)) → All HasName kvs → name_values (map word kvs) ≡ ok (flat kvs)
unfolding name_values
name_values-words [] h = refl
name_values-words ((k, v) ∷ kvs) h = rw (cut-append k v b'=' h.0.1, name_values-words kvs h.1) refl

link_args-chain : (vs : List Text) → link_args (chain vs) ≡ vs
unfolding link_args chain
link_args-chain [] = refl
link_args-chain (v ∷ vs) = ap (λ ws. v ∷ ws) (link_args-chain vs)

pairs-flat :
    (kvs : List (Text × Text)) (cmd : Text)
    → All HasName kvs
    → pairs (flat kvs) cmd ≡ ok (map pair kvs)
unfolding pairs
pairs-flat [] cmd h = refl
pairs-flat (([], v) ∷ kvs) cmd h = absurd (h.0.0 refl)
pairs-flat ((c ∷ k, v) ∷ kvs) cmd h = rw (pairs-flat kvs cmd h.1) refl

is_odd-flat : (kvs : List (Text × Text)) → is_odd (flat kvs) ≡ false
unfolding is_odd
is_odd-flat [] = refl
is_odd-flat (kv ∷ kvs) = is_odd-flat kvs

contains-word : (k v : Text) → contains (k ++ b'=' ∷ v) b'=' ≡ true
unfolding contains
contains-word [] v = ground arith
contains-word (c ∷ k) v = ground (arith, contains-word k v)

parse_kvps-flat :
    (kv : Text × Text) (kvs : List (Text × Text)) (cmd : Text)
    → All HasName (kv ∷ kvs)
    → parse_kvps (flat (kv ∷ kvs)) cmd ≡ ok (map pair (kv ∷ kvs))
unfolding parse_kvps
parse_kvps-flat (k, v) kvs cmd h = rw (is_odd-flat kvs) (pairs-flat ((k, v) ∷ kvs) cmd h)

-- The words `name=value` of an ENV or a LABEL become the pairs of the command, in order, with
-- every value from behind the first `=` on, for at least one word, names that are not empty and
-- have no `=` in them, and an escape token that is neither a quote nor a space.
pub parse_name_val-pairs :
    (token : ℕ) {text : Text} (key cmd : Text) (kv : Text × Text) (kvs : List (Text × Text))
    → IsToken token
    → Spaced token text (map word (kv ∷ kvs))
    → All HasName (kv ∷ kvs)
    → (parse_name_val token text key >>= λ link. parse_kvps (link_args link) cmd)
      ≡ ok (map pair (kv ∷ kvs))
unfolding parse_name_val
parse_name_val-pairs token {text} key cmd (k, v) kvs t s h =
    rw
      (
        parse_words-Spaced token t s,
        contains-word k v,
        name_values-words ((k, v) ∷ kvs) h,
        link_args-chain (flat ((k, v) ∷ kvs)),
      )
      (parse_kvps-flat (k, v) kvs cmd h)
