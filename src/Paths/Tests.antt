-- ===== src/Paths/Tests.antt =====
-- Runs of the functions on paths.
use dockerfile.Base.{[], ◌∷◌, ◌≡◌, refl}
use dockerfile.Base.Text.{codes, text_eq}
use dockerfile.Paths.{clean, join_paths, base, dir}

run_clean :
    (clean (codes "/a/../b//c/.") ≡ codes "/b/c")
    × (clean (codes "a/../../b/..") ≡ codes "..")
    × (clean (codes "/..") ≡ codes "/")
    × (clean [] ≡ codes ".")
unfolding clean text_eq
run_clean = (refl, refl, refl, refl)

run_parts :
    (join_paths (codes "/" ∷ codes "/x" ∷ [] ∷ codes "../y/" ∷ []) ≡ codes "/y")
    × (base (codes "a/b//") ≡ codes "b")
    × (base (codes "/") ≡ codes "/")
    × (dir (codes "/a/b") ≡ codes "/a")
    × (dir (codes "a") ≡ codes ".")
unfolding join_paths base dir text_eq
run_parts = (refl, refl, refl, refl, refl)
