-- ===== src/Convert/Target.antt =====
-- dockerfile2llb/convert.go: what `Dockerfile2LLB` does with the image that a stage is built on once it is
-- read, and with the image of the target at the end.
mod Labels
mod Tests
use dockerfile.Base.{
  List, [], ◌∷◌, ◌++◌, Bool, true, false, ◌&&◌, not, Option, none, some, if◌then◌else◌,
}
use dockerfile.Base.Text.{Text, codes}
use dockerfile.Shell.Env.{Env, set_env}
use dockerfile.Convert.Image.{Image, History}
use dockerfile.Convert.Platform.{Platform, PlatformOpt, auto_detect_platform}

-- `allStageNames`
unfoldable pub all_stage_names : List Text → List Text
all_stage_names [] = []
all_stage_names ([] ∷ names) = all_stage_names names
all_stage_names ((c ∷ name) ∷ names) = (c ∷ name) ∷ all_stage_names names

-- The platform that the image is looked up for
abbrev pub wanted : Platform → Option Platform → Platform
wanted target none = target
wanted target (some p) = p

abbrev pub shown_prefix : (Platform → Text) → Bool → Platform → Text
shown_prefix format prefix_platform p = if prefix_platform then format p ++ codes " " else []

-- `LogName`
unfoldable pub log_name : (Platform → Text) → Bool → Platform → Text → Text
log_name format prefix_platform p base_name =
    codes "["
    ++ (shown_prefix format prefix_platform p
        ++ (codes "internal]" ++ (codes " load metadata for " ++ base_name)))

-- The platform behind the image: if no target is given, one that the image runs on
unfoldable pub found_platform : PlatformOpt → Option Platform → Image → Platform
unfolding auto_detect_platform
found_platform po (some p) img = p
found_platform po none img =
    if po.implicit_target
    then auto_detect_platform img.os img.architecture po.target_platform
        (po.build_platform ∷ po.build_platforms)
    else po.target_platform

unfoldable pub all_empty : List History → Bool
all_empty [] = true
all_empty (h ∷ hs) = h.empty_layer && all_empty hs

-- `isScratch`, on whether there are diff IDs and on the history
unfoldable pub is_scratch : Bool → List History → Bool
unfolding all_empty
is_scratch has_diff_ids history = if has_diff_ids then false else all_empty history

-- The loop over `opt.Labels`
unfoldable pub add_labels : List (Text × Text) → Env → List (Text × Text)
unfolding set_env
add_labels labels [] = labels
add_labels labels ((k, v) ∷ more) = add_labels (set_env labels k v) more

-- The platform of the image, unless the target is implicit
abbrev pub with_platform : PlatformOpt → Image → Image
with_platform po img = if po.implicit_target then img else record img {
  os = po.target_platform.os;
  architecture = po.target_platform.architecture;
  variant = po.target_platform.variant;
}

-- The image of the target, with the labels of the options
unfoldable pub finish_image : PlatformOpt → Env → Image → Image
unfolding add_labels
finish_image po labels img =
    with_platform po
      (record img { config = record img.config { labels = add_labels img.config.labels labels } })
