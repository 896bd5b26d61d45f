-- ===== src/Convert/Dispatch/Mounts.antt =====
-- dockerfile2llb/convert_runmount.go: what the mounts of RUN become.
use dockerfile.Base.{
  ℕ, zero, suc, ◌/◌, ◌%◌, ◌+◌, List, [], ◌∷◌, ◌++◌, Bool, true, false, ◌&&◌, not, Option, none,
  some, if◌then◌else◌, snoc, ltb,
}
use dockerfile.Base.Text.{Text, codes, text_eq}
use dockerfile.Instructions.Mount.{Mount, bind, cache, tmpfs}
use dockerfile.Instructions.Mount
use dockerfile.Convert.Error.{Result, ok, err, ◌>>=◌, invalid_target, nil_capabilities, no_state}
use dockerfile.Convert.Image.{insert_key}
use dockerfile.Convert.Messages.{decimal}
use dockerfile.Convert.States.{empty_image_name}
use dockerfile.Convert.Dispatch.State.{
  Llb, Dispatched, DispatchOpt, use_file_op, Caps, Sharing, shared, private, locked, MountOption,
  tmpfs_size, read_only, force_no_output, persistent_cache, source_path, RunOption,
}
use dockerfile.Paths.{clean, join_paths, is_abs}
use dockerfile.Convert.Dispatch.Flags.{has_owner, owner, dispatch_secret, dispatch_ssh}

-- `strconv.FormatUint(mode, 8)`, with fuel above the number
unfoldable pub octal_of : ℕ → ℕ → Text → Text
octal_of zero n done = done
octal_of (suc f) n done =
    let rest = octal_of f (n / 8) ((b'0' + n % 8) ∷ done) in
    if ltb n 8 then (b'0' + n) ∷ done else rest

abbrev pub part : (ℕ → Text) → Option ℕ → Text
part show none = []
part show (some n) = show n

-- The script of `setCacheUIDGID`
unfoldable pub cache_script_of : Mount → Text
unfolding decimal octal_of
cache_script_of m =
    part (λ n. codes "chown " ++ (decimal n ++ codes " /mnt/cache;")) m.uid
    ++ (part (λ n. codes "chown :" ++ (decimal n ++ codes " /mnt/cache;")) m.gid
        ++ part (λ n. codes "chmod " ++ (octal_of (suc n) n [] ++ codes " /mnt/cache;")) m.mode)

-- The fields From and CacheID as the loop of `dispatchRunMounts` sets them
abbrev pub is_type : Mount → Text → Bool
is_type m t = text_eq m.mount_type t

unfoldable pub from_of : Mount → Text
unfolding text_eq
from_of m = if text_eq m.from [] && is_type m cache then empty_image_name else m.from

unfoldable pub sharing_of : Mount → Sharing
unfolding text_eq
sharing_of m =
    if text_eq m.cache_sharing (codes "locked")
    then locked
    else if text_eq m.cache_sharing (codes "private")
    then private
    else shared

unfoldable pub cache_id_of : Mount → Text
unfolding clean text_eq
cache_id_of m = if text_eq m.cache_id [] then clean m.target else m.cache_id

-- The options up to the sharing of a cache
unfoldable pub access_options : Option Caps → Mount → List MountOption → Result (List MountOption)
unfolding text_eq
access_options caps m opts =
    if m.read_only
    then ok (snoc opts read_only)
    else if is_type m bind
    then elim caps [
      | none ↦ err nil_capabilities
      | some c ↦ ok (if c.bind_read_write_no_output then snoc opts force_no_output else opts)
    ]
    else ok opts

unfoldable pub cache_options : Text → Mount → List MountOption → List MountOption
unfolding sharing_of cache_id_of text_eq
cache_options namespace m opts =
    if is_type m cache
    then snoc opts (persistent_cache (namespace ++ b'/' ∷ cache_id_of m) (sharing_of m))
    else opts

abbrev pub checked_target : Text → Result Text
checked_target target =
    if text_eq target (codes "/") then err (invalid_target target) else ok target

module _ (llb : Llb) where
  -- `setCacheUIDGID`: 0755 is 493.
  unfoldable pub set_cache_uidgid : Mount → llb.State → Bool → llb.State
  unfolding cache_script_of
  set_cache_uidgid m st file_op =
      if file_op then llb.cache_dir st (owner 493 m) else llb.cache_script st (cache_script_of m)

  -- The variable `target`
  unfoldable pub mount_target : Dispatched llb → Mount → Result Text
  unfolding clean join_paths text_eq
  mount_target d m =
      if is_abs (clean m.target)
      then checked_target m.target
      else (llb.get_dir d.state >>= λ dir.
          checked_target (join_paths (codes "/" ∷ dir ∷ m.target ∷ [])))

  abbrev pub source_state : DispatchOpt llb → Text → Option ℕ → Result llb.State
  source_state opt [] source = ok opt.build_context
  source_state opt (c ∷ from) none = err no_state
  source_state opt (c ∷ from) (some p) = ok (opt.state_of p)

  -- `llb.AddMount(target, st, mountOpts...)`, with the source
  unfoldable pub source_mount :
      DispatchOpt llb → Mount → Text → llb.State → List MountOption → RunOption llb.State
  unfolding join_paths text_eq set_cache_uidgid use_file_op
  source_mount opt m target st opts =
      let src = join_paths (codes "/" ∷ m.source ∷ []) in
      if not (text_eq src (codes "/"))
      then RunOption.mount target st (snoc opts (source_path src))
      else if has_owner m
      then RunOption.mount target
          (set_cache_uidgid m st (use_file_op opt.build_arg_values opt.caps))
          (snoc opts (source_path (codes "/cache")))
      else RunOption.mount target st opts

  -- Where the mount is taken from the build context, its source is noted.
  unfoldable pub note_path : Dispatched llb → Mount → Dispatched llb
  unfolding insert_key join_paths from_of text_eq
  note_path d m =
      if text_eq (from_of m) []
      then record d { ctx_paths = insert_key d.ctx_paths (join_paths (codes "/" ∷ m.source ∷ [])) }
      else d

  -- A round of the loop for a mount that is neither a secret nor an SSH socket
  unfoldable pub dispatch_mount :
      Dispatched llb
      → DispatchOpt llb
      → Mount
      → Option ℕ
      → Result (RunOption llb.State × Dispatched llb)
  unfolding access_options cache_options mount_target source_mount note_path from_of text_eq
  dispatch_mount d opt m source = source_state opt (from_of m) source >>= λ st.
      access_options opt.caps m (if is_type m tmpfs then tmpfs_size m.size_limit ∷ [] else [])
      >>= λ opts. mount_target d m >>= λ target. ok (
        source_mount opt m target (if is_type m tmpfs then llb.scratch else st)
            (cache_options opt.cache_id_namespace m opts),
        note_path d m,
      )

  abbrev pub same_state :
      Dispatched llb → Result (RunOption llb.State) → Result (RunOption llb.State × Dispatched llb)
  same_state d (ok o) = ok (o, d)
  same_state d (err e) = err e

  abbrev pub has_source : Text → Option ℕ → Bool
  has_source [] source = true
  has_source (c ∷ from) none = false
  has_source (c ∷ from) (some p) = true

  -- A round of the loop
  unfoldable pub dispatch_any_mount :
      Dispatched llb
      → DispatchOpt llb
      → Mount
      → Option ℕ
      → Result (RunOption llb.State × Dispatched llb)
  unfolding dispatch_secret dispatch_ssh dispatch_mount from_of text_eq
  dispatch_any_mount d opt m source =
      if not (has_source (from_of m) source)
      then err no_state
      else if is_type m Mount.secret
      then same_state d (dispatch_secret m)
      else if is_type m Mount.ssh
      then same_state d (dispatch_ssh m)
      else dispatch_mount d opt m source

  abbrev pub first_source : List ℕ → Option ℕ
  first_source [] = none
  first_source (p ∷ ps) = some p

  abbrev pub other_sources : List ℕ → List ℕ
  other_sources [] = []
  other_sources (p ∷ ps) = ps

  -- `dispatchRunMounts`
  unfoldable pub dispatch_run_mounts :
      Dispatched llb
      → DispatchOpt llb
      → List Mount
      → List ℕ
      → Result (List (RunOption llb.State) × Dispatched llb)
  unfolding dispatch_any_mount
  dispatch_run_mounts d opt [] sources = ok ([], d)
  dispatch_run_mounts d opt (m ∷ ms) sources =
      dispatch_any_mount d opt m (first_source sources) >>= λ (o, d').
      dispatch_run_mounts d' opt ms (other_sources sources) >>= λ (os, d''). ok (o ∷ os, d'')
