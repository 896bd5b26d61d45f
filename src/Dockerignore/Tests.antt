-- ===== src/Dockerignore/Tests.antt =====
-- The patterns of a .dockerignore file at a concrete input.
use dockerfile.Base.{List, [], ◌∷◌, none, some, ◌≡◌, refl, All}
use dockerfile.Base.Text.{Text, codes, text_eq, is_space}
use dockerfile.Dockerignore.{read_all, excludes}
use dockerfile.Dockerignore.Patterns.{IsPattern, read_all-ArePatterns}

abbrev ignored : List Text
ignored = codes "# comment" ∷ codes " /a/./b/ " ∷ [] ∷ codes "! c/../d" ∷ codes "!" ∷ codes "/" ∷ []

run_read_all :
    read_all (some ignored) none ≡ excludes (codes "a/b" ∷ codes "!d" ∷ codes "!" ∷ codes "/" ∷ [])
unfolding read_all text_eq is_space
run_read_all = refl

read_all-ArePatterns_example :
    (ps : List Text) × (read_all (some ignored) none ≡ excludes ps) × All IsPattern ps
read_all-ArePatterns_example = read_all-ArePatterns ignored
