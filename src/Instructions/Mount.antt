-- ===== src/Instructions/Mount.antt =====
-- parser/instructions/commands_runmount.go: the value of a --mount flag. Secret and SSH mounts are
-- supported (commands_secrets.go, commands_ssh.go). The CSV reader and the sizes of the package
-- docker/opts are parameters.
pub mod Valid
use dockerfile.Base.{
  ℕ, List, [], ◌∷◌, Bool, true, false, not, ◌&&◌, ◌||◌, ◌==◌, Option, none, some, snoc,
  if◌then◌else◌,
}
use dockerfile.Base.Text.{Text, codes, text_eq, cut, to_lower}
use dockerfile.Parser.Error.{Result, ok, err, ◌>>=◌, run}
use dockerfile.Instructions.Error.{
  bad_csv, not_pair, no_expansion, unsupported_sharing, unexpected_for_type, invalid_value,
  not_allowed_for, unsupported_type, unexpected_key, sharing_not_cache, secret_with_from,
  secret_with_sharing, secret_without_source, secret_source_and_id,
}
use dockerfile.Instructions.Numbers.{one_of, parse_bool, parse_uint}

-- `SingleWordExpander`; `none` is nil.
abbrev pub Expander : Type 0
Expander = Option (Text → Result Text)

pub record Mount : Type 0 where
  pub mount_type : Text
  pub from : Text
  pub source : Text
  pub target : Text
  pub read_only : Bool
  pub size_limit : ℕ
  pub cache_id : Text
  pub cache_sharing : Text
  pub required : Bool
  pub mode : Option ℕ
  pub uid : Option ℕ
  pub gid : Option ℕ

abbrev pub bind : Text
bind = codes "bind"

abbrev pub cache : Text
cache = codes "cache"

abbrev pub tmpfs : Text
tmpfs = codes "tmpfs"

abbrev pub secret : Text
secret = codes "secret"

abbrev pub ssh : Text
ssh = codes "ssh"

abbrev pub allowed_mount_types : List Text
allowed_mount_types = bind ∷ cache ∷ tmpfs ∷ secret ∷ ssh ∷ []

-- `isValidMountType`
unfoldable pub is_valid_mount_type : Text → Bool
unfolding one_of
is_valid_mount_type s = one_of allowed_mount_types s

-- `allMountTypes`
abbrev pub all_mount_types : List Text
all_mount_types = snoc (snoc allowed_mount_types secret) ssh

abbrev pub sharing_types : List Text
sharing_types = codes "shared" ∷ codes "private" ∷ codes "locked" ∷ []

abbrev pub all_keys : List Text
all_keys =
    codes "type"
    ∷ codes "from"
    ∷ codes "source"
    ∷ codes "target"
    ∷ codes "readonly"
    ∷ codes "id"
    ∷ codes "sharing"
    ∷ codes "required"
    ∷ codes "mode"
    ∷ codes "uid"
    ∷ codes "gid"
    ∷ codes "src"
    ∷ codes "dst"
    ∷ codes "ro"
    ∷ codes "rw"
    ∷ codes "readwrite"
    ∷ []

-- The variables `m` and `roAuto`
pub record Reading : Type 0 where
  pub mount : Mount
  pub ro_auto : Bool

abbrev pub begun : Reading
begun = record {
  mount = record {
    mount_type = bind;
    from = [];
    source = [];
    target = [];
    read_only = false;
    size_limit = 0;
    cache_id = [];
    cache_sharing = [];
    required = false;
    mode = none;
    uid = none;
    gid = none;
  };
  ro_auto = true;
}

abbrev pub set_mount : Reading → Mount → Result Reading
set_mount r m = ok (record r { mount = m })

abbrev pub set_read_only : Reading → Bool → Result Reading
set_read_only r b = ok (record { mount = record r.mount { read_only = b }; ro_auto = false })

-- `require` on a value that was read, or the error
abbrev pub or_invalid {ℓ} :
    {A : Type ℓ} → Text → Text → Option A → (A → Result Reading) → Result Reading
or_invalid key v none k = err (run (invalid_value key v))
or_invalid key v (some x) k = k x

abbrev pub is_secret_or_ssh : Mount → Bool
is_secret_or_ssh m = text_eq m.mount_type secret || text_eq m.mount_type ssh

-- `\$.` somewhere in the text
unfoldable pub has_variable : Text → Bool
has_variable [] = false
has_variable (c ∷ []) = false
has_variable (c ∷ d ∷ s) = c == b'$' && not (d == b'\n') || has_variable (d ∷ s)

module _ (read_csv : Text → Option (List Text)) (mem_bytes : Text → Option ℕ) where
  -- the `switch key` with a value, its second half
  unfoldable pub set_option : Reading → Text → Text → Text → Result Reading
  set_option r field key v =
      let m = r.mount in
      if text_eq key (codes "required")
      then (if is_secret_or_ssh m
          then or_invalid key v (parse_bool v) (λ b. set_mount r (record m { required = b }))
          else err (run (unexpected_for_type key m.mount_type)))
      else if text_eq key (codes "size")
      then (if text_eq m.mount_type tmpfs
          then or_invalid key v (mem_bytes v) (λ n. set_mount r (record m { size_limit = n }))
          else err (run (unexpected_for_type key m.mount_type)))
      else if text_eq key (codes "id")
      then set_mount r (record m { cache_id = v })
      else if text_eq key (codes "sharing")
      then (if one_of sharing_types (to_lower v)
          then set_mount r (record m { cache_sharing = to_lower v })
          else err (run (unsupported_sharing v)))
      else if text_eq key (codes "mode")
      then or_invalid key v (parse_uint 8 32 v) (λ n. set_mount r (record m { mode = some n }))
      else if text_eq key (codes "uid")
      then or_invalid key v (parse_uint 10 32 v) (λ n. set_mount r (record m { uid = some n }))
      else if text_eq key (codes "gid")
      then or_invalid key v (parse_uint 10 32 v) (λ n. set_mount r (record m { gid = some n }))
      else err (run (unexpected_key key field all_keys))

  -- the `switch key` with a value
  unfoldable pub set_key : Reading → Text → Text → Text → Result Reading
  set_key r field key v =
      let m = r.mount in
      if text_eq key (codes "type")
      then (if is_valid_mount_type (to_lower v)
          then set_mount r (record m { mount_type = to_lower v })
          else err (run (unsupported_type v all_mount_types)))
      else if text_eq key (codes "from")
      then set_mount r (record m { from = v })
      else if text_eq key (codes "source") || text_eq key (codes "src")
      then set_mount r (record m { source = v })
      else if text_eq key (codes "target")
          || text_eq key (codes "dst")
          || text_eq key (codes "destination")
      then set_mount r (record m { target = v })
      else if text_eq key (codes "readonly") || text_eq key (codes "ro")
      then or_invalid key v (parse_bool v) (set_read_only r)
      else if text_eq key (codes "readwrite") || text_eq key (codes "rw")
      then or_invalid key v (parse_bool v) (λ b. set_read_only r (not b))
      else set_option r field key v

  -- `len(parts) == 1`
  abbrev pub set_bare : Reading → Text → Text → Result Reading
  set_bare r field key =
      if text_eq key (codes "readonly") || text_eq key (codes "ro")
      then set_read_only r true
      else if text_eq key (codes "readwrite") || text_eq key (codes "rw")
      then set_read_only r false
      else if text_eq key (codes "required")
      then (if is_secret_or_ssh r.mount
          then set_mount r (record r.mount { required = true })
          else err (run (unexpected_for_type key r.mount.mount_type)))
      else err (run (not_pair field))

  -- A round of the loop over the fields, at the parts of the field
  unfoldable pub read_field : Expander → Reading → Text → Text → Option Text → Result Reading
  read_field none r field key none = ok r
  read_field (some expand) r field key none = set_bare r field key
  read_field (some expand) r field key (some v) = expand v >>= set_key r field key
  read_field none r field key (some v) =
      if text_eq key (codes "from")
      then (if has_variable v then err (run (no_expansion key)) else set_key r field key v)
      else ok r

  abbrev pub read_parts : Expander → Reading → Text → Text × Option Text → Result Reading
  read_parts expander r field (k, v) = read_field expander r field (to_lower k) v

  unfoldable pub read_fields : Expander → Reading → List Text → Result Reading
  read_fields expander r [] = ok r
  read_fields expander r (field ∷ fields) =
      read_parts expander r field (cut field b'=') >>= λ r'. read_fields expander r' fields

  abbrev pub is_set : Option ℕ → Bool
  is_set none = false
  is_set (some _) = true

  -- `fileInfoAllowed`
  unfoldable pub file_info_allowed : Mount → Bool
  file_info_allowed m =
      text_eq m.mount_type secret || text_eq m.mount_type ssh || text_eq m.mount_type cache

  -- the checks on a secret mount
  abbrev pub check_secret : Mount → Result Mount
  check_secret m =
      if not (text_eq m.from [])
      then err (run secret_with_from)
      else if not (text_eq m.cache_sharing [])
      then err (run secret_with_sharing)
      else if text_eq m.source [] && text_eq m.target [] && text_eq m.cache_id []
      then err (run secret_without_source)
      else if not (text_eq m.source []) && not (text_eq m.cache_id [])
      then err (run secret_source_and_id)
      else ok m

  -- `if roAuto`
  abbrev pub default_read_only : Reading → Mount
  default_read_only r =
      if r.ro_auto
      then record r.mount {
        read_only = not (text_eq r.mount.mount_type cache || text_eq r.mount.mount_type tmpfs);
      }
      else r.mount

  abbrev pub check_sharing : Mount → Result Mount
  check_sharing m =
      if not (text_eq m.cache_sharing []) && not (text_eq m.mount_type cache)
      then err (run (sharing_not_cache m.mount_type))
      else if text_eq m.mount_type secret
      then check_secret m
      else ok m

  -- behind the loop
  unfoldable pub check_mount : Reading → Result Mount
  check_mount r =
      let m = r.mount in
      if is_set m.mode && not (file_info_allowed m)
      then err (run (not_allowed_for (codes "mode") m.mount_type))
      else if is_set m.uid && not (file_info_allowed m)
      then err (run (not_allowed_for (codes "uid") m.mount_type))
      else if is_set m.gid && not (file_info_allowed m)
      then err (run (not_allowed_for (codes "gid") m.mount_type))
      else check_sharing (default_read_only r)

  abbrev pub parse_fields : Expander → Text → Option (List Text) → Result Mount
  parse_fields expander v none = err (run (bad_csv v))
  parse_fields expander v (some fields) = read_fields expander begun fields >>= check_mount

  -- `parseMount`
  unfoldable pub parse_mount : Text → Expander → Result Mount
  unfolding read_fields read_field set_key set_option check_mount file_info_allowed has_variable
      is_valid_mount_type one_of parse_bool parse_uint to_lower text_eq cut
  parse_mount v expander = parse_fields expander v (read_csv v)

  abbrev pub mounts_onto : List Mount → Expander → List Text → Result (List Mount)
  mounts_onto mounts expander [] = ok mounts
  mounts_onto mounts expander (v ∷ vs) =
      parse_mount v expander >>= λ m. mounts_onto (snoc mounts m) expander vs

  -- `setMountState`, on the values of the flag
  unfoldable pub parse_mounts : Expander → List Text → Result (List Mount)
  unfolding parse_mount
  parse_mounts expander vs = mounts_onto [] expander vs
