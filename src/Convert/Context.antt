-- ===== src/Convert/Context.antt =====
-- dockerfile2llb/convert.go: what `Dockerfile2LLB` asks of the build context (`normalizeContextPaths`), the
-- proxies of the build arguments, and the names that are suggested for an image.
pub mod Sorted
mod Tests
use dockerfile.Base.{
  ℕ, List, [], ◌∷◌, ◌++◌, Bool, true, false, ◌==◌, ◌||◌, ◌&&◌, Option, none, some, if◌then◌else◌,
  ltb, map,
}
use dockerfile.Base.Text.{Text, codes, text_eq, equal_fold}
use dockerfile.Shell.Env.{Env}
use dockerfile.Convert.Dispatch.State.{ProxyEnv}
use dockerfile.Paths.{join_paths}

-- `<` on strings
unfoldable pub text_lt : Text → Text → Bool
text_lt a [] = false
text_lt [] (y ∷ b) = true
text_lt (x ∷ a) (y ∷ b) = ltb x y || x == y && text_lt a b

unfoldable pub insert_text : Text → List Text → List Text
unfolding text_lt
insert_text x [] = x ∷ []
insert_text x (y ∷ ys) = if text_lt y x then y ∷ insert_text x ys else x ∷ y ∷ ys

-- `sort.Slice` by `<`
unfoldable pub sort : List Text → List Text
unfolding insert_text
sort [] = []
sort (x ∷ xs) = insert_text x (sort xs)

abbrev pub relative : Text → Text
relative p = join_paths (codes "." ∷ p ∷ [])

-- The loop over the paths; `none` is the nil that it returns at the root.
unfoldable pub relative_paths : List Text → Option (List Text)
unfolding text_eq join_paths
relative_paths [] = some []
relative_paths (p ∷ ps) =
    if text_eq p (codes "/")
    then none
    else elim (relative_paths ps) [ none ↦ none | some rest ↦ some (relative p ∷ rest) ]

abbrev pub sorted : Option (List Text) → Option (List Text)
sorted none = none
sorted (some ps) = some (sort ps)

-- `normalizeContextPaths`
unfoldable pub normalize_context_paths : List Text → Option (List Text)
unfolding relative_paths sort
normalize_context_paths paths = sorted (relative_paths paths)

abbrev pub no_proxy_env : ProxyEnv
no_proxy_env = record {
  http_proxy = [];
  https_proxy = [];
  ftp_proxy = [];
  no_proxy = [];
  all_proxy = [];
}

abbrev pub is_proxy : Text → Bool
is_proxy k =
    equal_fold k (codes "http_proxy")
    || equal_fold k (codes "https_proxy")
    || equal_fold k (codes "ftp_proxy")
    || equal_fold k (codes "no_proxy")
    || equal_fold k (codes "all_proxy")

-- The assignments of a round of the loop of `proxyEnvFromBuildArgs`
abbrev pub set_proxy : Text → Text → ProxyEnv → ProxyEnv
set_proxy k v pe = record {
  http_proxy = if equal_fold k (codes "http_proxy") then v else pe.http_proxy;
  https_proxy = if equal_fold k (codes "https_proxy") then v else pe.https_proxy;
  ftp_proxy = if equal_fold k (codes "ftp_proxy") then v else pe.ftp_proxy;
  no_proxy = if equal_fold k (codes "no_proxy") then v else pe.no_proxy;
  all_proxy = if equal_fold k (codes "all_proxy") then v else pe.all_proxy;
}

-- The loop with its variables, in the order in which `range` gives the arguments
unfoldable pub add_proxies : Env → ProxyEnv → Bool → Option ProxyEnv
unfolding equal_fold
add_proxies [] pe is_nil = if is_nil then none else some pe
add_proxies ((k, v) ∷ args) pe is_nil =
    add_proxies args (set_proxy k v pe) (if is_proxy k then false else is_nil)

-- `proxyEnvFromBuildArgs`
unfoldable pub proxy_env_from_build_args : Env → Option ProxyEnv
unfolding add_proxies
proxy_env_from_build_args args = add_proxies args no_proxy_env true

-- The names that the loop of `commonImageNames` adds for one
abbrev pub image_names : Text → List Text
image_names name =
    name
    ∷ (codes "docker.io/library" ++ name)
    ∷ (name ++ codes ":latest")
    ∷ (codes "docker.io/library" ++ (name ++ codes ":latest"))
    ∷ []

unfoldable pub names_of : List Text → List Text
names_of [] = []
names_of (name ∷ names) = image_names name ++ names_of names

-- `commonImageNames`
unfoldable pub common_image_names : List Text
unfolding names_of
common_image_names = names_of (
    codes "alpine"
    ∷ codes "busybox"
    ∷ codes "centos"
    ∷ codes "debian"
    ∷ codes "golang"
    ∷ codes "ubuntu"
    ∷ codes "fedora"
    ∷ [])
