-- ===== src/Convert/Target/Tests.antt =====
-- The images of bases and targets at concrete inputs
use dockerfile.Base.{[], ◌∷◌, true, false, if◌then◌else◌, ◌≡◌, refl}
use dockerfile.Base.Text.{codes, text_eq}
use dockerfile.Shell.Env.{Env, get_env, or_else}
use dockerfile.Convert.Image.{Image, empty_image}
use dockerfile.Convert.Platform.{Platform, PlatformOpt}
use dockerfile.Convert.Target.{log_name, all_stage_names, is_scratch, finish_image}
use dockerfile.Convert.Target.Labels.{finish_image-labels}

run_log_name :
    log_name
      (λ p. p.os)
      true
      (record { os = codes "linux"; architecture = []; variant = [] })
      (codes "b")
    ≡ codes "[linux internal] load metadata for b"
unfolding log_name
run_log_name = refl

run_is_scratch :
    (is_scratch false (record { created_by = []; comment = []; empty_layer = true } ∷ []) ≡ true)
    × (is_scratch false (record { created_by = []; comment = []; empty_layer = false } ∷ [])
        ≡ false)
unfolding is_scratch
run_is_scratch = (refl, refl)

run_stage_names : all_stage_names (codes "a" ∷ [] ∷ codes "b" ∷ []) ≡ codes "a" ∷ codes "b" ∷ []
unfolding all_stage_names
run_stage_names = refl

abbrev linux : Platform
linux = record { os = codes "linux"; architecture = codes "arm64"; variant = codes "v8" }

abbrev platforms : PlatformOpt
platforms = record {
  target_platform = linux;
  build_platform = linux;
  build_platforms = [];
  implicit_target = false;
}

abbrev image : Image
image =
    empty_image (λ os. codes "/bin")
      (record { os = codes "plan9"; architecture = []; variant = [] })

abbrev new_labels : Env
new_labels = (codes "a", codes "1") ∷ (codes "b", codes "2") ∷ []

finish_image-labels_example :
    (get_env (finish_image platforms new_labels image).config.labels (codes "b")
      ≡ or_else (get_env new_labels (codes "b")) (get_env image.config.labels (codes "b")))
    × ((finish_image platforms new_labels image).os
        ≡ (if platforms.implicit_target then image.os else platforms.target_platform.os))
unfolding get_env text_eq
finish_image-labels_example =
    finish_image-labels platforms new_labels image (codes "b") (refl, (refl, tt))
