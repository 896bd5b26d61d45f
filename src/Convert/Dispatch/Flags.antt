-- ===== src/Convert/Dispatch/Flags.antt =====
-- dockerfile2llb/convert_secrets.go, convert_ssh.go, convert_runnetwork.go and convert_runsecurity.go: what
-- the secrets, the SSH sockets, the network and the security of RUN become.
use dockerfile.Base.{
  ℕ, List, [], ◌∷◌, ◌++◌, Bool, true, false, ◌||◌, Option, none, some, if◌then◌else◌, snoc,
}
use dockerfile.Base.Text.{Text, codes, text_eq}
use dockerfile.Instructions.Mount.{Mount}
use dockerfile.Convert.Error.{
  Result, ok, err, ◌>>=◌, no_secret_source, ssh_source, unsupported_network, unsupported_security,
}
use dockerfile.Convert.Dispatch.State.{
  Owner, secret_id, secret_optional, secret_file, SshOption, ssh_id, ssh_target, ssh_optional,
  ssh_socket, RunOption, net_none, net_host, sandbox, insecure,
}
use dockerfile.Paths.{base}

abbrev pub or_zero : Option ℕ → ℕ
or_zero none = 0
or_zero (some n) = n

abbrev pub is_some {ℓ} : {A : Type ℓ} → Option A → Bool
is_some none = false
is_some (some a) = true

-- Whether a uid, a gid or a mode is given
abbrev pub has_owner : Mount → Bool
has_owner m = is_some m.uid || is_some m.gid || is_some m.mode

abbrev pub mode_or : ℕ → Option ℕ → ℕ
mode_or d none = d
mode_or d (some n) = n

-- The owner, with the mode that is the default
abbrev pub owner : ℕ → Mount → Owner
owner d m = record { uid = or_zero m.uid; gid = or_zero m.gid; mode = mode_or d m.mode }

abbrev pub required_or {ℓ} : {A : Type ℓ} → A → Mount → List A → List A
required_or optional m opts = if m.required then opts else snoc opts optional

abbrev pub with_owner {ℓ} : {A : Type ℓ} → A → Mount → List A → List A
with_owner owned m opts = if has_owner m then snoc opts owned else opts

-- The variable `id` of `dispatchSecret` behind its conditions
abbrev pub given_id : Mount → Text
given_id m = if text_eq m.source [] then m.cache_id else m.source

abbrev pub secret_id_of : Text → Text → Result Text
secret_id_of [] [] = err no_secret_source
secret_id_of [] (c ∷ target) = ok (base (c ∷ target))
secret_id_of (c ∷ id) target = ok (c ∷ id)

abbrev pub secret_target : Text → Text → Text
secret_target id [] = codes "/run/secrets/" ++ base id
secret_target id (c ∷ target) = c ∷ target

-- `dispatchSecret`: 0400 is 256.
unfoldable pub dispatch_secret : {S : Type 0} → Mount → Result (RunOption S)
unfolding base text_eq
dispatch_secret m = secret_id_of (given_id m) m.target >>= λ id. ok (
    RunOption.secret (secret_target id m.target) (
      with_owner (secret_file (owner 256 m)) m (required_or secret_optional m (secret_id id ∷ []))))

abbrev pub with_target : Text → List SshOption → List SshOption
with_target [] opts = opts
with_target (c ∷ target) opts = snoc opts (ssh_target (c ∷ target))

-- `dispatchSSH`: 0600 is 384.
unfoldable pub dispatch_ssh : {S : Type 0} → Mount → Result (RunOption S)
unfolding text_eq
dispatch_ssh m =
    if text_eq m.source []
    then ok (
        RunOption.ssh (
          with_owner (ssh_socket m.target (owner 384 m)) m
            (required_or ssh_optional m (with_target m.target (ssh_id m.cache_id ∷ [])))))
    else err ssh_source

-- `dispatchRunNetwork`; `none` is nil.
unfoldable pub dispatch_run_network : {S : Type 0} → Text → Result (Option (RunOption S))
unfolding text_eq
dispatch_run_network network =
    if text_eq network (codes "default")
    then ok none
    else if text_eq network (codes "none")
    then ok (some (RunOption.network net_none))
    else if text_eq network (codes "host")
    then ok (some (RunOption.network net_host))
    else err (unsupported_network network)

-- `dispatchRunSecurity`, of the build with the tag dfrunsecurity where there is a mode, and of the other
-- build where there is none
unfoldable pub dispatch_run_security : {S : Type 0} → Option Text → Result (Option (RunOption S))
unfolding text_eq
dispatch_run_security none = ok none
dispatch_run_security (some mode) =
    if text_eq mode (codes "insecure")
    then ok (some (RunOption.security insecure))
    else if text_eq mode (codes "sandbox")
    then ok (some (RunOption.security sandbox))
    else err (unsupported_security mode)
