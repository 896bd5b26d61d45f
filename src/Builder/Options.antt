-- ===== src/Builder/Options.antt =====
-- builder/build.go, builder/caps.go: the functions that read the options of a build. The CSV reader, IP
-- addresses, limits, platforms and the tar reader are parameters.
pub mod Caps
use dockerfile.Base.{
  ℕ, ◌==◌, ◌+◌, ◌^◌, List, [], ◌∷◌, ◌++◌, Bool, true, false, ◌&&◌, ◌||◌, not, Option, none, some,
  ltb, if◌then◌else◌,
}
use dockerfile.Base.Text.{Text, codes, text_eq, cut, has_prefix, trim_prefix, to_lower, contains}
use dockerfile.Shell.Env.{Env, set_env}
use dockerfile.Instructions.Numbers.{ℤ, parse_bool}
use dockerfile.Convert.States.{atoi}
use dockerfile.Convert.Platform.{Platform}
use dockerfile.Convert.Dispatch.State.{Ulimit, NetMode, net_sandbox, net_none, net_host}
use dockerfile.Paths.{split}

pub data OptionError : Type 0 where
  unsupported_cap invalid_resolve_mode invalid_pair invalid_ip invalid_size invalid_net_mode :
      Text → OptionError
  invalid_csv invalid_limit invalid_platform : Text → OptionError

pub data Result {ℓ} (A : Type ℓ) : Type ℓ where
  ok : A → Result A
  err : OptionError → Result A

infixl 5 ◌>>=◌
abbrev pub ◌>>=◌ {ℓ κ} : {A : Type ℓ} {B : Type κ} → Result A → (A → Result B) → Result B
err e >>= next = err e
ok x >>= next = next x

-- caps.go: `enabledCaps`
abbrev pub enabled_caps : List Text
enabled_caps =
    codes "moby.buildkit.frontend.inputs"
    ∷ codes "moby.buildkit.frontend.subrequests"
    ∷ codes "moby.buildkit.frontend.contexts"
    ∷ []

unfoldable pub is_enabled : Text → List Text → Bool
unfolding text_eq
is_enabled name [] = false
is_enabled name (c ∷ cs) = text_eq name c || is_enabled name cs

-- `strings.Contains(c, "+forward")`
unfoldable pub has_text : Text → Text → Bool
unfolding has_prefix
has_text [] t = has_prefix [] t
has_text (c ∷ s) t = has_prefix (c ∷ s) t || has_text s t

-- `parts[0]` of a capability
abbrev pub cap_name : Text → Text
cap_name c = (cut c b'+').0

-- The results of `validateCaps`: whether the request may be forwarded, and the error
abbrev pub Validity : Type 0
Validity = Bool × Option OptionError

unfoldable pub validate_each : List Text → Bool → Option OptionError → Validity
unfolding is_enabled has_text cut
validate_each [] forward error = (forward, error)
validate_each (c ∷ cs) forward error =
    let refused = some (unsupported_cap (cap_name c)) in
    let forwarded = validate_each cs true refused in
    let accepted = validate_each cs forward error in
    if is_enabled (cap_name c) enabled_caps
    then accepted
    else if has_text c (codes "+forward")
    then forwarded
    else (false, refused)

-- `validateCaps`
unfoldable pub validate_caps : Text → Validity
unfolding validate_each split
validate_caps [] = (false, none)
validate_caps (c ∷ req) = validate_each (split (c ∷ req) b',') false none

-- `filter`
unfoldable pub filter : Env → Text → Env
unfolding has_prefix trim_prefix set_env
filter [] key = []
filter ((k, v) ∷ opt) key =
    if has_prefix k key then set_env (filter opt key) (trim_prefix k key) v else filter opt key

-- `llb.ResolveMode`
pub data ResolveMode : Type 0 where
  resolve_default force_pull prefer_local : ResolveMode

-- `parseResolveMode`, with the names of package pb
unfoldable pub parse_resolve_mode : Text → Result ResolveMode
unfolding text_eq
parse_resolve_mode v =
    if text_eq v (codes "default") || text_eq v []
    then ok resolve_default
    else if text_eq v (codes "pull")
    then ok force_pull
    else if text_eq v (codes "local")
    then ok prefer_local
    else err (invalid_resolve_mode v)

-- `parseNetMode`
unfoldable pub parse_net_mode : Text → Result NetMode
unfolding text_eq
parse_net_mode v =
    if text_eq v []
    then ok net_sandbox
    else if text_eq v (codes "none")
    then ok net_none
    else if text_eq v (codes "host")
    then ok net_host
    else if text_eq v (codes "sandbox")
    then ok net_sandbox
    else err (invalid_net_mode v)

-- `parseShmSize`
abbrev or_invalid : Text → Option ℤ → Result ℤ
or_invalid v none = err (invalid_size v)
or_invalid v (some n) = ok n

unfoldable pub parse_shm_size : Text → Result ℤ
unfolding atoi
parse_shm_size [] = ok (ℤ.pos 0)
parse_shm_size (c ∷ v) = or_invalid (c ∷ v) (atoi (c ∷ v))

-- `isArchive`: the heads of bzip2, gzip and xz, or a header that the tar reader reads
unfoldable pub is_archive : (Text → Bool) → Text → Bool
unfolding has_prefix
is_archive is_tar header =
    has_prefix header (0x42 ∷ 0x5a ∷ 0x68 ∷ [])
    || has_prefix header (0x1f ∷ 0x8b ∷ 0x08 ∷ [])
    || has_prefix header (0xfd ∷ 0x37 ∷ 0x7a ∷ 0x58 ∷ 0x5a ∷ 0x00 ∷ [])
    || is_tar header

module _ {IP : Type 0} (read_csv : Text → Option (List Text)) (parse_ip : Text → Option IP) where
  abbrev or_no_ip : Text → Text → Option IP → Result (Text × IP)
  or_no_ip key val none = err (invalid_ip val)
  or_no_ip key val (some ip) = ok (key, ip)

  abbrev parse_host : Text → Text × Option Text → Result (Text × IP)
  parse_host field (key, none) = err (invalid_pair field)
  parse_host field (key, some val) =
      or_no_ip (to_lower key) (to_lower val) (parse_ip (to_lower val))

  unfoldable pub parse_hosts : List Text → Result (List (Text × IP))
  unfolding cut to_lower
  parse_hosts [] = ok []
  parse_hosts (field ∷ fields) =
      parse_host field (cut field b'=') >>= λ h. parse_hosts fields >>= λ hs. ok (h ∷ hs)

  abbrev csv_fields : Text → Option (List Text) → Result (List Text)
  csv_fields v none = err (invalid_csv v)
  csv_fields v (some fields) = ok fields

  -- `parseExtraHosts`
  unfoldable pub parse_extra_hosts : Text → Result (List (Text × IP))
  unfolding parse_hosts
  parse_extra_hosts [] = ok []
  parse_extra_hosts (c ∷ v) = csv_fields (c ∷ v) (read_csv (c ∷ v)) >>= λ fields. parse_hosts fields

module _ (read_csv : Text → Option (List Text)) (parse_limit : Text → Option Ulimit) where
  abbrev or_no_limit : Text → Option Ulimit → Result Ulimit
  or_no_limit field none = err (invalid_limit field)
  or_no_limit field (some u) = ok u

  unfoldable pub parse_limits : List Text → Result (List Ulimit)
  parse_limits [] = ok []
  parse_limits (field ∷ fields) =
      or_no_limit field (parse_limit field) >>= λ u. parse_limits fields >>= λ us. ok (u ∷ us)

  abbrev or_no_csv : Text → Option (List Text) → Result (List Text)
  or_no_csv v none = err (invalid_csv v)
  or_no_csv v (some fields) = ok fields

  -- `parseUlimits`
  unfoldable pub parse_ulimits : Text → Result (List Ulimit)
  unfolding parse_limits
  parse_ulimits [] = ok []
  parse_ulimits (c ∷ v) = or_no_csv (c ∷ v) (read_csv (c ∷ v)) >>= λ fields. parse_limits fields

module _ (parse_platform : Text → Option Platform) (normalize : Platform → Platform) where
  abbrev or_no_platform : Text → Option Platform → Result Platform
  or_no_platform v none = err (invalid_platform v)
  or_no_platform v (some p) = ok (normalize p)

  unfoldable pub parse_each : List Text → Result (List Platform)
  parse_each [] = ok []
  parse_each (v ∷ vs) =
      or_no_platform v (parse_platform v) >>= λ p. parse_each vs >>= λ ps. ok (p ∷ ps)

  -- `parsePlatforms`
  unfoldable pub parse_platforms : Text → Result (List Platform)
  unfolding parse_each split
  parse_platforms v = parse_each (split v b',')
