-- ===== src/Instructions/Parsing/Health.antt =====
-- HEALTHCHECK: `parseOptInterval` and `parseHealthcheck` of parser/instructions/parse.go.
use dockerfile.Base.{ℕ, List, [], ◌∷◌, Bool, Option, none, some, if◌then◌else◌}
use dockerfile.Base.Text.{Text, codes, text_eq, to_upper}
use dockerfile.Parser.Error.{Result, ok, err, ◌>>=◌, instruction}
use dockerfile.Instructions.Error.{
  at_least_one, none_with_arguments, missing_health_command, unknown_health_type, bad_duration,
  short_interval, bad_retries, few_retries,
}
use dockerfile.Instructions.Numbers.{ℤ, pos, below, parse_int}
use dockerfile.Instructions.Flags.{Flags, add_string, value_of}
use dockerfile.Instructions.Flags
use dockerfile.Instructions.Commands.{HealthConfig, Command, health_check}
use dockerfile.Instructions.Request.{Request, new_code, is_json, handle_json_args}

abbrev pub made_health : Request → HealthConfig → Command
made_health req health = record { base = new_code req; body = health_check health }

module _ (parse_duration : Text → Option ℤ) (minimum : ℕ) where
  abbrev long_enough : Text → Option ℤ → Result ℤ
  long_enough name none = err (instruction (bad_duration name))
  long_enough name (some d) =
      if below d minimum then err (instruction (short_interval name)) else ok d

  -- `parseOptInterval`, on the flag of this name
  unfoldable pub parse_opt_interval : Text → Text → Result ℤ
  parse_opt_interval name [] = ok (pos 0)
  parse_opt_interval name (c ∷ s) = long_enough name (parse_duration (c ∷ s))

  abbrev enough_retries : Text → Option ℤ → Result ℤ
  enough_retries v none = err (instruction (bad_retries v))
  enough_retries v (some n) = if below n 1 then err (instruction (few_retries v)) else ok n

  -- `--retries`
  unfoldable pub parse_retries : Text → Result ℤ
  parse_retries [] = ok (pos 0)
  parse_retries (c ∷ s) = enough_retries (c ∷ s) (parse_int (c ∷ s))

  -- the flags of HEALTHCHECK
  abbrev pub health_flags : Flags → Flags
  health_flags fs =
      add_string
        (add_string (add_string (add_string fs (codes "interval") []) (codes "timeout") [])
          (codes "start-period") [])
        (codes "retries") []

  -- `healthcheck.Test`
  abbrev pub health_test : Bool → List Text → Result (List Text)
  health_test json [] = err (instruction missing_health_command)
  health_test json (a ∷ args) = ok ((if json then codes "CMD" else codes "CMD-SHELL") ∷ a ∷ args)

  -- behind the flags
  unfoldable pub health_of : Request → Text → List Text → Flags → Result HealthConfig
  health_of req typ args fs =
      (if text_eq typ (codes "CMD")
        then health_test (is_json req) (handle_json_args args (is_json req))
        else err (instruction (unknown_health_type typ)))
      >>= λ test.
          parse_opt_interval (codes "interval") (value_of fs (codes "interval")) >>= λ interval.
          parse_opt_interval (codes "timeout") (value_of fs (codes "timeout")) >>= λ timeout.
          parse_opt_interval (codes "start-period") (value_of fs (codes "start-period"))
          >>= λ start_period. parse_retries (value_of fs (codes "retries")) >>= λ retries.
              ok (record {
                test = test;
                interval = interval;
                timeout = timeout;
                start_period = start_period;
                retries = retries;
              })

  abbrev pub no_health : List Text → Result HealthConfig
  no_health [] = ok (record {
    test = codes "NONE" ∷ [];
    interval = pos 0;
    timeout = pos 0;
    start_period = pos 0;
    retries = pos 0;
  })
  no_health (a ∷ args) = err (instruction none_with_arguments)

  abbrev health_args : Request → List Text → Result HealthConfig
  health_args req [] = err (instruction (at_least_one (codes "HEALTHCHECK")))
  health_args req (a ∷ args) =
      let typ = to_upper a in
      if text_eq typ (codes "NONE")
      then no_health args
      else Flags.parse (health_flags req.flags) >>= health_of req typ args

  -- `parseHealthcheck`
  unfoldable pub parse_healthcheck : Request → Result Command
  parse_healthcheck req = health_args req req.args >>= λ h. ok (made_health req h)
