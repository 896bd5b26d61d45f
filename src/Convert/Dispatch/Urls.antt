-- ===== src/Convert/Dispatch/Urls.antt =====
-- dockerfile2llb/convert.go: COPY takes no URL, whichever way the files are copied.
use dockerfile.Base.{
  ℕ, suc, List, [], ◌∷◌, Bool, true, false, not, ◌||◌, Option, none, some, ◌≡◌, if◌then◌else◌,
}
use dockerfile.Base.Text.{Text, codes, text_eq}
use dockerfile.Instructions.Commands.{SourcesAndDest}
use dockerfile.Convert.Error.{
  Result, ok, err, ◌>>=◌, no_inline_content, no_chmod, url_for_copy, wildcard_panic,
}
use dockerfile.Convert.Wildcards.{split_wildcards}
use dockerfile.Convert.States.Filled.{Ok}
use dockerfile.Convert.Dispatch.State.{Llb, Dispatched, DispatchOpt, Copied, use_file_op}
use dockerfile.Convert.Dispatch.Copy.{
  Origin, is_url, copy_paths, target_paths, dispatch_copy, dispatch_copy_file_op,
  dispatch_copy_image,
}
use dockerfile.Convert.Dispatch.Copy
use dockerfile.Convert.Dispatch.Effects.{Ok-any}
use dockerfile.Paths.{join_paths}

abbrev pub has_url : List Text → Bool
has_url [] = false
has_url (src ∷ srcs) = is_url src || has_url srcs

-- The result is an error.
abbrev pub Refused {ℓ} : {A : Type ℓ} → Result A → Type 0
Refused = Ok (λ x. ⊥)

Refused-bind {ℓ κ} :
    {A : Type ℓ} {B : Type κ} (m : Result A) (f : A → Result B) → Refused m → Refused (m >>= f)
Refused-bind (err e) f h = tt
Refused-bind (ok a) f h = absurd h

module _ (llb : Llb) where
  copy_paths-Refused :
      (st : llb.State) (mode : Option ℕ) (chown dest : Text) (srcs : List Text)
      → has_url srcs ≡ true
      → Refused (copy_paths llb st false mode chown dest srcs)
  unfolding copy_paths
  copy_paths-Refused st mode chown dest [] h = absurd (cc)
  copy_paths-Refused st mode chown dest (src ∷ srcs) h =
      by_url (is_url src) h (copy_paths-Refused st mode chown dest srcs)
    where
      first : Copied llb.State
      first =
          Copy.copied llb st (join_paths (codes "/" ∷ src ∷ [])) dest
            (Copy.local_info false mode chown)

      by_url :
          (b : Bool)
          → (b || has_url srcs) ≡ true
          → (has_url srcs ≡ true → Refused (copy_paths llb st false mode chown dest srcs))
          → Refused (
              if b
              then err url_for_copy
              else (copy_paths llb st false mode chown dest srcs >>= λ cs. ok (first ∷ cs)))
      by_url true h' rest = tt
      by_url false h' rest = Refused-bind (copy_paths llb st false mode chown dest srcs) _ (rest h')

  target_paths-Refused :
      (st : llb.State) (i : ℕ) (srcs : List Text)
      → has_url srcs ≡ true
      → Refused (target_paths llb st false i srcs)
  unfolding target_paths
  target_paths-Refused st i [] h = absurd (cc)
  target_paths-Refused st i (src ∷ srcs) h =
      by_url (is_url src) (split_wildcards src) h (target_paths-Refused st (suc i) srcs)
    where
      by_url :
          (b : Bool) (o : Option (Text × Text))
          → (b || has_url srcs) ≡ true
          → (has_url srcs ≡ true → Refused (target_paths llb st false (suc i) srcs))
          → Refused (
              if b then err url_for_copy else elim o [
                | none ↦ err wildcard_panic
                | some p ↦ target_paths llb st false (suc i) srcs >>= λ t.
                    Copy.add_local llb i src st t (some p)
              ])
      by_url true o h' rest = tt
      by_url false none h' rest = tt
      by_url false (some p) h' rest =
          Refused-bind (target_paths llb st false (suc i) srcs) _ (rest h')

  -- COPY of a source that is a URL fails, with file operations or without.
  pub dispatch_copy-Refused :
      (d : Dispatched llb) (opt : DispatchOpt llb) (c : SourcesAndDest) (st : llb.State)
      (origin : Origin) (chown chmod : Text)
      → has_url c.source_paths ≡ true
      → Refused (dispatch_copy llb d opt c st false origin chown chmod)
  unfolding dispatch_copy dispatch_copy_file_op dispatch_copy_image
  dispatch_copy-Refused d opt c st origin chown chmod h =
      pick (use_file_op opt.build_arg_values opt.caps) (not (Copy.is_nil llb c.source_contents))
        (not (text_eq chmod []))
    where
      pick :
          (file_op contents mode : Bool)
          → Refused (
              if file_op
              then dispatch_copy_file_op llb d opt c st false origin chown chmod
              else if contents
              then err no_inline_content
              else if mode
              then err no_chmod
              else dispatch_copy_image llb d opt c st false origin chown)
      pick true contents mode =
          Ok-any llb _ (Copy.path_relative_to_working_dir llb d.state c.dest_path) _ (λ pp.
            Refused-bind (copy_paths llb st false _ chown _ c.source_paths) _
              (copy_paths-Refused st _ chown _ c.source_paths h))
      pick false true mode = tt
      pick false false true = tt
      pick false false false =
          Ok-any llb _ (Copy.path_relative_to_working_dir llb d.state c.dest_path) _ (λ pp.
            Refused-bind (target_paths llb st false 0 c.source_paths) _
              (target_paths-Refused st 0 c.source_paths h))
