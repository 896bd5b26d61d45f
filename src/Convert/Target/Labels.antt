-- ===== src/Convert/Target/Labels.antt =====
-- The labels of the target's image
use dockerfile.Base.{
  [], ◌∷◌, Bool, true, false, none, some, if◌then◌else◌, ◌≡◌, refl, ◌∙◌, Bool-cases, inl, inr,
}
use dockerfile.Base.Text.{Text, text_eq, text_eq_iff}
use dockerfile.Shell.Env.{Env, or_else, set_env, get_env, get_env-set_env}
use dockerfile.Convert.Image.{Image}
use dockerfile.Convert.Platform.{PlatformOpt}
use dockerfile.Convert.Target.{add_labels, finish_image}

-- Every key stands once, as in a map.
abbrev pub IsMap : Env → Type 0
IsMap [] = Unit
IsMap ((k, v) ∷ m) = (get_env m k ≡ none) × IsMap m

step :
    (more labels : Env) (k v name : Text)
    → get_env more k ≡ none
    → or_else (get_env more name) (if text_eq name k then some v else get_env labels name)
      ≡ or_else (if text_eq name k then some v else get_env more name) (get_env labels name)
step more labels k v name h = elim (Bool-cases (text_eq name k)) [
  | inl e ↦ rw (e, (text_eq_iff name k).0 e, h) refl
  | inr e ↦ rw e refl
]

get_env-add_labels :
    (labels more : Env) (name : Text)
    → IsMap more
    → get_env (add_labels labels more) name ≡ or_else (get_env more name) (get_env labels name)
unfolding add_labels get_env
get_env-add_labels labels [] name h = refl
get_env-add_labels labels ((k, v) ∷ more) name h =
    get_env-add_labels (set_env labels k v) more name h.1
    ∙ (rw (get_env-set_env labels k v name) (step more labels k v name h.0))

-- The image of the target has the labels of the options, which are a map, and the labels that it had under
-- other names; its system is that of the target platform, where one is given.
pub finish_image-labels :
    (po : PlatformOpt) (labels : Env) (img : Image) (name : Text)
    → IsMap labels
    → (get_env (finish_image po labels img).config.labels name
        ≡ or_else (get_env labels name) (get_env img.config.labels name))
      × ((finish_image po labels img).os
          ≡ (if po.implicit_target then img.os else po.target_platform.os))
unfolding finish_image
finish_image-labels po labels img name h = by_target po.implicit_target
  where
    base : Image
    base = record img {
      config = record img.config { labels = add_labels img.config.labels labels };
    }

    target : Image
    target = record base {
      os = po.target_platform.os;
      architecture = po.target_platform.architecture;
      variant = po.target_platform.variant;
    }

    by_target :
        (b : Bool)
        → (get_env (if b then base else target).config.labels name
            ≡ or_else (get_env labels name) (get_env img.config.labels name))
          × ((if b then base else target).os ≡ (if b then img.os else po.target_platform.os))
    by_target true = (get_env-add_labels img.config.labels labels name h, refl)
    by_target false = (get_env-add_labels img.config.labels labels name h, refl)
