-- ===== src/Builder/Tests.antt =====
-- The options of a build at concrete inputs.
use dockerfile.Base.{[], true, false, none, some, ◌≡◌, refl}
use dockerfile.Base.Text.{codes, text_eq}
use dockerfile.Builder.Options.{validate_caps, unsupported_cap}
use dockerfile.Builder.Options.Caps.{validate_caps-verdict, verdict, first_refused, last_unknown}
use dockerfile.Paths.{split}

run_validate_caps :
    (validate_caps (codes "a+forward,moby.buildkit.frontend.inputs")
      ≡ (true, some (unsupported_cap (codes "a"))))
    × (validate_caps (codes "a+forward,b,c") ≡ (false, some (unsupported_cap (codes "b"))))
    × (validate_caps (codes "moby.buildkit.frontend.contexts+x") ≡ (false, none))
unfolding validate_caps text_eq
run_validate_caps = (refl, refl, refl)

validate_caps-verdict_example :
    (validate_caps (codes "a+forward,b")
      ≡ verdict
          (first_refused (split (codes "a+forward,b") b','))
          (last_unknown (split (codes "a+forward,b") b','))
          (false, none))
    × (validate_caps [] ≡ (false, none))
validate_caps-verdict_example = validate_caps-verdict b'a' (codes "+forward,b")
