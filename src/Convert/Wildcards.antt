-- ===== src/Convert/Wildcards.antt =====
-- dockerfile2llb/convert.go: `splitWildcards`.
use dockerfile.Base.{
  ℕ, [], ◌∷◌, ◌++◌, Bool, true, ◌==◌, ◌||◌, Option, none, some, if◌then◌else◌, snoc,
}
use dockerfile.Base.Text.{Text}
use dockerfile.Paths.{base, dir}

abbrev pub is_wildcard : ℕ → Bool
is_wildcard c = c == b'*' || c == b'?' || c == b'['

-- The loop: the text before the first wildcard, and the rest. `none` is the index behind the end, at
-- which the code panics.
unfoldable pub find_wildcard : Text → Text → Option (Text × Text)
find_wildcard done [] = some (done, [])
find_wildcard done (c ∷ []) =
    if c == b'\\'
    then none
    else if is_wildcard c
    then some (done, c ∷ [])
    else some (snoc done c, [])
find_wildcard done (c ∷ d ∷ s) =
    let escaped = find_wildcard (done ++ c ∷ d ∷ []) s in
    let next = find_wildcard (snoc done c) (d ∷ s) in
    if c == b'\\' then escaped else if is_wildcard c then some (done, c ∷ d ∷ s) else next

-- Whether the text is empty or ends in a slash
unfoldable pub ends_open : Text → Bool
ends_open [] = true
ends_open (c ∷ []) = c == b'/'
ends_open (c ∷ d ∷ s) = ends_open (d ∷ s)

abbrev split_at : Text → Text × Text → Text × Text
split_at name (before, []) = (name, [])
split_at name (before, c ∷ rest) =
    (dir before, (if ends_open before then [] else base before) ++ c ∷ rest)

abbrev or_panic : Text → Option (Text × Text) → Option (Text × Text)
or_panic name none = none
or_panic name (some p) = some (split_at name p)

-- `splitWildcards`
unfoldable pub split_wildcards : Text → Option (Text × Text)
unfolding find_wildcard dir base ends_open
split_wildcards name = or_panic name (find_wildcard [] name)
