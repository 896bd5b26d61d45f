-- ===== src/Convert/Context/Tests.antt =====
-- The paths of the context and the proxies at concrete inputs
use dockerfile.Base.{[], ◌∷◌, Bool, true, false, Option, none, some, ◌≡◌, refl}
use dockerfile.Base.Text.{Text, codes, equal_fold}
use dockerfile.Convert.Context.{normalize_context_paths, proxy_env_from_build_args}
use dockerfile.Convert.Context.Sorted.{Normalized, normalize_context_paths-Normalized}
use dockerfile.Convert.Dispatch.State.{ProxyEnv}

abbrev shown : Option ProxyEnv → Bool × Text × Text
shown none = (false, [], [])
shown (some pe) = (true, pe.http_proxy, pe.no_proxy)

run_normalize :
    normalize_context_paths (codes "/src/b" ∷ codes "/a" ∷ codes "/src" ∷ [])
    ≡ some (codes "a" ∷ codes "src" ∷ codes "src/b" ∷ [])
unfolding normalize_context_paths
run_normalize = refl

-- Of two spellings of a name the later one counts.
run_proxies :
    shown (
      proxy_env_from_build_args (
        (codes "HTTP_PROXY", codes "a")
        ∷ (codes "x", codes "y")
        ∷ (codes "http_proxy", codes "b")
        ∷ []))
    ≡ (true, codes "b", [])
unfolding proxy_env_from_build_args equal_fold
run_proxies = refl

run_no_proxies : shown (proxy_env_from_build_args ((codes "x", codes "y") ∷ [])) ≡ (false, [], [])
unfolding proxy_env_from_build_args equal_fold
run_no_proxies = refl

normalize_context_paths-Normalized_example :
    Normalized
      (codes "/src" ∷ codes "/a" ∷ [])
      (normalize_context_paths (codes "/src" ∷ codes "/a" ∷ []))
normalize_context_paths-Normalized_example =
    normalize_context_paths-Normalized (codes "/src" ∷ codes "/a" ∷ [])
