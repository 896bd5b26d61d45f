-- ===== src/Instructions/Mount/Valid.antt =====
-- What a mount that `parseMount` accepts looks like.
use dockerfile.Base.{
  sym, subst, ℕ, List, [], ◌∷◌, Bool, true, false, not, ◌&&◌, Option, none, some, if◌then◌else◌,
  ◌≡◌, ◌≢◌, ◌⊎◌, refl, arith,
}
use dockerfile.Base.Text.{Text, codes, text_eq_iff, to_lower, cut}
use dockerfile.Parser.Error.{Result, ok, err, run}
use dockerfile.Parser.Error.Ends.{Holds, Holds-bind, Holds-if_known, Holds-map, Holds-ok}
use dockerfile.Instructions.Error.{not_allowed_for}
use dockerfile.Instructions.Mount.{
  is_set, Expander, Mount, cache, secret, is_valid_mount_type, Reading, begun, set_key, set_option,
  set_bare, read_field, read_parts, read_fields, file_info_allowed, default_read_only, check_secret,
  check_sharing, check_mount, parse_mount, is_set, parse_fields,
}

abbrev HasType : Reading → Type 0
HasType r = is_valid_mount_type r.mount.mount_type ≡ true

module _ (read_csv : Text → Option (List Text)) (mem_bytes : Text → Option ℕ) where
  set_option-HasType :
      (r : Reading) (field key v : Text)
      → HasType r
      → Holds HasType (set_option read_csv mem_bytes r field key v)
  unfolding set_option
  set_option-HasType r field key v h = ground arith

  set_key-HasType :
      (r : Reading) (field key v : Text)
      → HasType r
      → Holds HasType (set_key read_csv mem_bytes r field key v)
  unfolding set_key
  set_key-HasType r field key v h = ground (arith, set_option-HasType r field key v h)

  set_bare-HasType :
      (r : Reading) (field key : Text)
      → HasType r
      → Holds HasType (set_bare read_csv mem_bytes r field key)
  set_bare-HasType r field key h = ground arith

  read_field-HasType :
      (expander : Expander) (r : Reading) (field key : Text) (v : Option Text)
      → HasType r
      → Holds HasType (read_field read_csv mem_bytes expander r field key v)
  unfolding read_field
  read_field-HasType none r field key none h = h
  read_field-HasType (some expand) r field key none h = set_bare-HasType r field key h
  read_field-HasType (some expand) r field key (some v) h =
      Holds-bind (λ w. Unit) HasType (expand v) (set_key read_csv mem_bytes r field key)
        (anything (expand v)) (λ w _. set_key-HasType r field key w h)
    where
      anything : (w : Result Text) → Holds (λ w. Unit) w
      anything (ok x) = tt
      anything (err e) = tt
  read_field-HasType none r field key (some v) h = ground (arith, set_key-HasType r field key v h)

  read_fields-HasType :
      (expander : Expander) (r : Reading) (fields : List Text)
      → HasType r
      → Holds HasType (read_fields read_csv mem_bytes expander r fields)
  unfolding read_fields
  read_fields-HasType expander r [] h = h
  read_fields-HasType expander r (field ∷ fields) h =
      let part = cut field b'=' in
      Holds-bind HasType HasType (read_parts read_csv mem_bytes expander r field part)
        (λ r'. read_fields read_csv mem_bytes expander r' fields)
        (read_field-HasType expander r field (to_lower part.0) part.1 h)
        (λ r' h'. read_fields-HasType expander r' fields h')

  -- A mount type that is known; a mode and owners only on a secret, an SSH or a cache mount; a
  -- sharing mode only on a cache mount; for a secret no stage that it is from, some path or an
  -- identifier, and not both a source and an identifier
  abbrev pub Valid : Mount → Type 0
  Valid m =
      (is_valid_mount_type m.mount_type ≡ true)
      × ((file_info_allowed read_csv mem_bytes m ≡ true)
          ⊎ ((m.mode ≡ none) × (m.uid ≡ none) × (m.gid ≡ none)))
      × ((m.cache_sharing ≡ []) ⊎ (m.mount_type ≡ cache))
      × ((m.mount_type ≢ secret)
          ⊎ ((m.from ≡ [])
              × ((m.source ≢ []) ⊎ ((m.target ≢ []) ⊎ (m.cache_id ≢ [])))
              × ((m.source ≡ []) ⊎ (m.cache_id ≡ []))))

  check_secret-Holds :
      (m : Mount)
      → Holds
          (λ n.
            (n ≡ m)
            × (m.from ≡ [])
            × ((m.source ≢ []) ⊎ ((m.target ≢ []) ⊎ (m.cache_id ≢ [])))
            × ((m.source ≡ []) ⊎ (m.cache_id ≡ [])))
          (check_secret read_csv mem_bytes m)
  check_secret-Holds m = ground (
    arith,
    text_eq_iff m.from [],
    text_eq_iff m.source [],
    text_eq_iff m.target [],
    text_eq_iff m.cache_id [],
  )

  check_sharing-Holds :
      (m : Mount)
      → Holds
          (λ n.
            (n ≡ m)
            × ((m.cache_sharing ≡ []) ⊎ (m.mount_type ≡ cache))
            × ((m.mount_type ≢ secret)
                ⊎ ((m.from ≡ [])
                    × ((m.source ≢ []) ⊎ ((m.target ≢ []) ⊎ (m.cache_id ≢ [])))
                    × ((m.source ≡ []) ⊎ (m.cache_id ≡ [])))))
          (check_sharing read_csv mem_bytes m)
  check_sharing-Holds m = ground (
    arith,
    text_eq_iff m.cache_sharing [],
    text_eq_iff m.mount_type cache,
    text_eq_iff m.mount_type secret,
    check_secret-Holds m,
  )

  -- What the checks before the read-only default find out
  abbrev Typed : Mount → Type 0
  Typed m =
      (is_valid_mount_type m.mount_type ≡ true)
      × ((file_info_allowed read_csv mem_bytes m ≡ true)
          ⊎ ((m.mode ≡ none) × (m.uid ≡ none) × (m.gid ≡ none)))

  default_read_only-Typed :
      (r : Reading) → Typed r.mount → Typed (default_read_only read_csv mem_bytes r)
  unfolding file_info_allowed
  default_read_only-Typed r h = by_flag r.ro_auto h
    where
      by_flag :
          (b : Bool)
          → Typed r.mount
          → Typed (default_read_only read_csv mem_bytes (record r { ro_auto = b }))
      by_flag true h = h
      by_flag false h = h

  info-cases :
      (m : Mount)
      → ((is_set read_csv mem_bytes m.mode && not (file_info_allowed read_csv mem_bytes m)) ≡ false)
      → ((is_set read_csv mem_bytes m.uid && not (file_info_allowed read_csv mem_bytes m)) ≡ false)
      → ((is_set read_csv mem_bytes m.gid && not (file_info_allowed read_csv mem_bytes m)) ≡ false)
      → (file_info_allowed read_csv mem_bytes m ≡ true)
        ⊎ ((m.mode ≡ none) × (m.uid ≡ none) × (m.gid ≡ none))
  info-cases m a b c = ground arith

  checked-Valid :
      (r : Reading)
      → Typed r.mount
      → Holds Valid (check_sharing read_csv mem_bytes (default_read_only read_csv mem_bytes r))
  checked-Valid r h =
      let m = default_read_only read_csv mem_bytes r in
      let t = default_read_only-Typed r h in
      Holds-map Valid (check_sharing read_csv mem_bytes m) (check_sharing-Holds m)
        (λ n p. subst Valid (sym p.0) (t.0, t.1, p.1, p.2))

  check_mount-Valid : (r : Reading) → HasType r → Holds Valid (check_mount read_csv mem_bytes r)
  unfolding check_mount
  check_mount-Valid r h =
      let m = r.mount in
      let bad = not (file_info_allowed read_csv mem_bytes m) in
      let e : Text → Result Mount = λ s. err (run (not_allowed_for s m.mount_type)) in
      let last = check_sharing read_csv mem_bytes (default_read_only read_csv mem_bytes r) in
      let mode = is_set read_csv mem_bytes m.mode && bad in
      let uid = is_set read_csv mem_bytes m.uid && bad in
      let gid = is_set read_csv mem_bytes m.gid && bad in
      Holds-if_known Valid mode (e (codes "mode"))
        (if uid then e (codes "uid") else if gid then e (codes "gid") else last) (λ _. tt)
        (λ a.
          Holds-if_known Valid uid (e (codes "uid")) (if gid then e (codes "gid") else last)
            (λ _. tt)
            (λ b.
              Holds-if_known Valid gid (e (codes "gid")) last (λ _. tt)
                (λ c. checked-Valid r (h, info-cases m a b c))))

  -- A mount that `parseMount` accepts is valid, whatever the expander is: the type is known, a mode
  -- and owners stand only on a secret, an SSH or a cache mount, a sharing mode only on a cache
  -- mount, and a secret has no stage that it is from, some path or an identifier, and not both a
  -- source and an identifier.
  pub parse_mount-Valid :
      (v : Text) (expander : Expander) {m : Mount}
      → parse_mount read_csv mem_bytes v expander ≡ ok m
      → Valid m
  unfolding parse_mount
  parse_mount-Valid v expander {m} h =
      Holds-ok Valid (parse_mount read_csv mem_bytes v expander) (by_fields (read_csv v)) h
    where
      by_fields :
          (o : Option (List Text)) → Holds Valid (parse_fields read_csv mem_bytes expander v o)
      by_fields none = tt
      by_fields (some fields) =
          Holds-bind HasType Valid (read_fields read_csv mem_bytes expander begun fields)
            (check_mount read_csv mem_bytes) (read_fields-HasType expander begun fields refl)
            (λ r h'. check_mount-Valid r h')
