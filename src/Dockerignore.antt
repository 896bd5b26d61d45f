-- ===== src/Dockerignore.antt =====
-- parser/dockerignore/dockerignore.go: `ReadAll`, on the lines of `bufio.ScanLines`.
pub mod Patterns
mod Tests
use dockerfile.Base.{
  ℕ, List, [], ◌∷◌, ◌++◌, Bool, true, false, ◌==◌, Option, none, some, if◌then◌else◌,
}
use dockerfile.Base.Text.{Text, trim_space, has_prefix, codes}
use dockerfile.Paths.{clean}

-- `bytes.TrimPrefix(scannedBytes, utf8bom)`: the three bytes are one code point.
abbrev pub trim_mark : Text → Text
trim_mark [] = []
trim_mark (c ∷ s) = if c == 0xfeff then s else c ∷ s

-- `pattern[1:]`, where more than the slash is there
abbrev pub without_slash : Text → Text
without_slash [] = []
without_slash (c ∷ []) = c ∷ []
without_slash (c ∷ d ∷ s) = if c == b'/' then d ∷ s else c ∷ d ∷ s

-- The condition `len(pattern) > 0` and its body; `ToSlash` changes nothing on Unix.
unfoldable pub normalize : Text → Text
unfolding clean
normalize [] = []
normalize (c ∷ s) = without_slash (clean (c ∷ s))

abbrev pub of_trimmed : Text → Option Text
of_trimmed [] = none
of_trimmed (c ∷ s) =
    if c == b'!' then some (b'!' ∷ normalize (trim_space s)) else some (normalize (c ∷ s))

-- The pattern of a line; `none` is `continue`.
unfoldable pub pattern_of : Text → Option Text
unfolding normalize trim_space has_prefix
pattern_of line = if has_prefix line (codes "#") then none else of_trimmed (trim_space line)

abbrev pub exclude : Option Text → List Text → List Text
exclude none excludes = excludes
exclude (some p) excludes = p ∷ excludes

unfoldable pub read_lines : List Text → List Text
unfolding pattern_of
read_lines [] = []
read_lines (line ∷ lines) = exclude (pattern_of line) (read_lines lines)

abbrev pub trim_first : List Text → List Text
trim_first [] = []
trim_first (line ∷ lines) = trim_mark line ∷ lines

-- `ReadAll`; `failed` is the error of the scanner behind the lines, and `lines` is `none` for a reader
-- that is nil.
pub data Excludes : Type 0 where
  excludes : List Text → Excludes
  failed : Text → Excludes

abbrev or_failed : Option Text → List Text → Excludes
or_failed none ps = excludes ps
or_failed (some message) ps = failed message

unfoldable pub read_all : Option (List Text) → Option Text → Excludes
unfolding read_lines
read_all none error = excludes []
read_all (some lines) error = or_failed error (read_lines (trim_first lines))
