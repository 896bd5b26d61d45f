-- ===== src/Convert/Platform.antt =====
-- dockerfile2llb/platform.go and `autoDetectPlatform` of convert.go. Of a platform the code uses
-- three fields; how the package platforms writes one is a parameter.
use dockerfile.Base.{Bool, true, false, ◌&&◌, List, [], ◌∷◌, Option, none, some, if◌then◌else◌}
use dockerfile.Base.Text.{Text, codes, text_eq}
use dockerfile.Instructions.Commands.{KeyValuePairOptional}

-- `ocispecs.Platform`
pub record Platform : Type 0 where
  pub os : Text
  pub architecture : Text
  pub variant : Text

-- `platformOpt`. A list of build platforms that is not empty is its first element and the others.
pub record PlatformOpt : Type 0 where
  pub target_platform : Platform
  pub build_platform : Platform
  pub build_platforms : List Platform
  pub implicit_target : Bool

-- `buildPlatforms` behind the first two conditions: `opt.BuildPlatforms` is `none` for nil, and
-- `default` is `platforms.DefaultSpec()`.
abbrev pub chosen_platforms :
    Platform → Option Platform → Option (List Platform) → Platform × List Platform
chosen_platforms default target (some (p ∷ ps)) = (p, ps)
chosen_platforms default target (some []) = (default, [])
chosen_platforms default (some p) none = (p, [])
chosen_platforms default none none = (default, [])

abbrev with_target : Option Platform → Platform × List Platform → PlatformOpt
with_target none (p, ps) = record {
  target_platform = p;
  build_platform = p;
  build_platforms = ps;
  implicit_target = true;
}
with_target (some t) (p, ps) = record {
  target_platform = t;
  build_platform = p;
  build_platforms = ps;
  implicit_target = false;
}

-- `buildPlatformOpt`
unfoldable pub build_platform_opt :
    Platform → Option Platform → Option (List Platform) → PlatformOpt
build_platform_opt default target builds =
    with_target target (chosen_platforms default target builds)

abbrev set_arg : Text → Text → KeyValuePairOptional
set_arg k v = record { key = k; value = some v; comment = [] }

-- `getPlatformArgs`, in the order of its literal; `range` over the map gives another one, but the keys
-- are different.
unfoldable pub get_platform_args : (Platform → Text) → PlatformOpt → List KeyValuePairOptional
get_platform_args format po =
    let bp = po.build_platform in
    let tp = po.target_platform in
    set_arg (codes "BUILDPLATFORM") (format bp)
    ∷ set_arg (codes "BUILDOS") bp.os
    ∷ set_arg (codes "BUILDARCH") bp.architecture
    ∷ set_arg (codes "BUILDVARIANT") bp.variant
    ∷ set_arg (codes "TARGETPLATFORM") (format tp)
    ∷ set_arg (codes "TARGETOS") tp.os
    ∷ set_arg (codes "TARGETARCH") tp.architecture
    ∷ set_arg (codes "TARGETVARIANT") tp.variant
    ∷ []

-- An image's system and architecture are those of the platform.
unfoldable pub runs_on : Text → Text → Platform → Bool
unfolding text_eq
runs_on os arch p = text_eq p.os os && text_eq p.architecture arch

unfoldable pub first_running : Text → Text → List Platform → Option Platform
first_running os arch [] = none
first_running os arch (p ∷ ps) = if runs_on os arch p then some p else first_running os arch ps

abbrev or_target : Platform → Option Platform → Platform
or_target target none = target
or_target target (some p) = p

-- `autoDetectPlatform`, on the system and the architecture of the image
unfoldable pub auto_detect_platform : Text → Text → Platform → List Platform → Platform
unfolding first_running runs_on
auto_detect_platform os arch target supported =
    if runs_on os arch target then target else or_target target (first_running os arch supported)
