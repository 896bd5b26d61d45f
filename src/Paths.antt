-- ===== src/Paths.antt =====
-- What the program uses of Go's packages path and path/filepath, as on Unix, where both agree.
pub mod Clean
mod Tests
use mathlib.Core.List.{reverse}
use dockerfile.Base.{
  ℕ, List, [], ◌∷◌, ◌++◌, Bool, true, false, ◌==◌, ◌||◌, Option, none, some, if◌then◌else◌,
}
use dockerfile.Base.Text.{Text, codes, text_eq, cut, join, trim_right}

-- `strings.Split(s, string(c))`, with the element that is being read
abbrev pub add_char : ℕ → List Text → List Text
add_char c [] = (c ∷ []) ∷ []
add_char c (s ∷ ss) = (c ∷ s) ∷ ss

unfoldable pub split : Text → ℕ → List Text
split [] c = [] ∷ []
split (d ∷ s) c = let rest = split s c in if d == c then [] ∷ rest else add_char d rest

-- `path.IsAbs`
abbrev pub is_abs : Text → Bool
is_abs [] = false
is_abs (c ∷ s) = c == b'/'

abbrev pub dot : Text
dot = codes "."

abbrev pub dots : Text
dots = codes ".."

abbrev is_skipped : Text → Bool
is_skipped e = text_eq e [] || text_eq e dot

-- The elements behind `..`, last one first: it takes the last element away, if that is no `..`.
abbrev pub go_up : Bool → List Text → List Text
go_up true [] = []
go_up false [] = dots ∷ []
go_up rooted (e ∷ es) = if text_eq e dots then dots ∷ e ∷ es else es

-- One more element of the path
unfoldable pub push : Bool → List Text → Text → List Text
unfolding text_eq
push rooted es e = if is_skipped e then es else if text_eq e dots then go_up rooted es else e ∷ es

unfoldable pub push_all : Bool → List Text → List Text → List Text
unfolding push
push_all rooted es [] = es
push_all rooted es (p ∷ ps) = push_all rooted (push rooted es p) ps

-- The elements of the path that `Clean` gives
unfoldable pub clean_elements : Text → List Text
unfolding push_all split
clean_elements s = reverse (push_all (is_abs s) [] (split s b'/'))

abbrev pub render : Bool → List Text → Text
render true es = b'/' ∷ join es (codes "/")
render false [] = dot
render false (e ∷ es) = join (e ∷ es) (codes "/")

-- `path.Clean`, by the rules of its documentation
unfoldable pub clean : Text → Text
unfolding clean_elements join
clean s = render (is_abs s) (clean_elements s)

abbrev without_empty : List Text → List Text
without_empty [] = []
without_empty ([] ∷ es) = without_empty es
without_empty ((c ∷ e) ∷ es) = (c ∷ e) ∷ without_empty es

abbrev clean_join : List Text → Text
clean_join [] = []
clean_join (e ∷ es) = clean (join (e ∷ es) (codes "/"))

-- `path.Join`
unfoldable pub join_paths : List Text → Text
unfolding clean join
join_paths es = clean_join (without_empty es)

-- The last element and all before it, with its slash
unfoldable pub split_last : Text → Text × Text
split_last [] = ([], [])
split_last (c ∷ s) = step c (split_last s)
  where
    step : ℕ → Text × Text → Text × Text
    step c ([], file) = if c == b'/' then (c ∷ [], file) else ([], c ∷ file)
    step c (d ∷ dir, file) = (c ∷ d ∷ dir, file)

abbrev or_root : Text → Text
or_root [] = codes "/"
or_root (c ∷ s) = c ∷ s

-- `path.Base`
unfoldable pub base : Text → Text
unfolding split_last trim_right
base [] = dot
base (c ∷ s) = or_root ((split_last (trim_right (λ d. d == b'/') (c ∷ s))).1)

-- `path.Dir`
unfoldable pub dir : Text → Text
unfolding split_last clean
dir s = clean ((split_last s).0)
