-- ===== src/Instructions/Expand.antt =====
-- The Expand methods of parser/instructions/commands.go, with the expander as a function: what a
-- method leaves in the command where it succeeds. Where it fails, the build ends.
use dockerfile.Base.{List, [], ◌∷◌, Bool, true, false, Option, none, some, if◌then◌else◌, ◌++◌, ℕ}
use dockerfile.Base.Text.{Text, codes}
use dockerfile.Parser.Error.{Result, ok, ◌>>=◌}
use dockerfile.Instructions.Mount.{parse_mounts}
use dockerfile.Instructions.Commands.{
  KeyValuePair, KeyValuePairOptional, SourceContent, SourcesAndDest, Body, Command, env, label,
  maintainer, workdir, user, stop_signal, onbuild, add, copy, run, cmd, entrypoint, health_check,
  expose, volume, shell, arg,
}

-- `NewLabelCommand`
unfoldable pub new_label_command : Text → Text → Bool → Command
new_label_command k v no_expand = record {
  base = record {
    code = codes "LABEL " ++ (k ++ codes "=" ++ v);
    name = codes "label";
    location = [];
  };
  body = label (record { key = k; value = v } ∷ []) no_expand;
}

module _ (read_csv : Text → Option (List Text)) (mem_bytes : Text → Option ℕ)
    (expander : Text → Result Text) where
  -- `expandKvp`
  unfoldable pub expand_kvp : KeyValuePair → Result KeyValuePair
  expand_kvp kvp =
      expander kvp.key >>= λ k. expander kvp.value >>= λ v. ok (record { key = k; value = v })

  -- `expandKvpsInPlace`
  unfoldable pub expand_kvps : List KeyValuePair → Result (List KeyValuePair)
  expand_kvps [] = ok []
  expand_kvps (kvp ∷ kvps) = expand_kvp kvp >>= λ p. expand_kvps kvps >>= λ ps. ok (p ∷ ps)

  -- `expandSliceInPlace`
  unfoldable pub expand_slice : List Text → Result (List Text)
  expand_slice [] = ok []
  expand_slice (v ∷ vs) = expander v >>= λ w. expand_slice vs >>= λ ws. ok (w ∷ ws)

  abbrev pub expand_content : SourceContent → Result SourceContent
  expand_content c =
      if c.expand then (expander c.data_text >>= λ d. ok (record c { data_text = d })) else ok c

  unfoldable pub expand_contents : List SourceContent → Result (List SourceContent)
  expand_contents [] = ok []
  expand_contents (c ∷ cs) = expand_content c >>= λ d. expand_contents cs >>= λ ds. ok (d ∷ ds)

  -- `(*SourcesAndDest).Expand`
  unfoldable pub expand_sources : SourcesAndDest → Result SourcesAndDest
  expand_sources s = expand_contents s.source_contents >>= λ cs.
      expand_slice s.source_paths >>= λ ps. expander s.dest_path >>= λ d.
      ok (record { dest_path = d; source_paths = ps; source_contents = cs })

  abbrev pub expand_optional : Option Text → Result (Option Text)
  expand_optional none = ok none
  expand_optional (some v) = expander v >>= λ w. ok (some w)

  -- `(*ArgCommand).Expand`
  unfoldable pub expand_args : List KeyValuePairOptional → Result (List KeyValuePairOptional)
  expand_args [] = ok []
  expand_args (a ∷ as_after) = expander a.key >>= λ k. expand_optional a.value >>= λ v.
      expand_args as_after >>= λ rest. ok (record a { key = k; value = v } ∷ rest)

  -- `Expand`, on the commands that have it; `dispatch` leaves the others as they are.
  unfoldable pub expand_body : Body → Result Body
  expand_body (env kvps) = expand_kvps kvps >>= λ ps. ok (env ps)
  expand_body (label kvps true) = ok (label kvps true)
  expand_body (label kvps false) = expand_kvps kvps >>= λ ps. ok (label ps false)
  expand_body (add s chown chmod) =
      expander chown >>= λ o. expand_sources s >>= λ t. ok (add t o chmod)
  expand_body (copy s from chown chmod) =
      expander chown >>= λ o. expand_sources s >>= λ t. ok (copy t from o chmod)
  expand_body (workdir p) = expander p >>= λ q. ok (workdir q)
  expand_body (user p) = expander p >>= λ q. ok (user q)
  expand_body (stop_signal p) = expander p >>= λ q. ok (stop_signal q)
  expand_body (volume vs) = expand_slice vs >>= λ ws. ok (volume ws)
  expand_body (arg kvps) = expand_args kvps >>= λ ps. ok (arg ps)
  expand_body (run c) = parse_mounts read_csv mem_bytes (some expander) c.mount_flags >>= λ ms.
      ok (run (record c { mounts = ms }))
  expand_body (maintainer m) = ok (maintainer m)
  expand_body (onbuild e) = ok (onbuild e)
  expand_body (cmd c) = ok (cmd c)
  expand_body (entrypoint c) = ok (entrypoint c)
  expand_body (health_check h) = ok (health_check h)
  expand_body (expose ps) = ok (expose ps)
  expand_body (shell s) = ok (shell s)

  -- `Expand` keeps the name and the code of a command.
  unfoldable pub expand : Command → Result Command
  unfolding expand_body expand_kvp expand_kvps expand_slice expand_contents expand_sources
      expand_args
  expand c = expand_body c.body >>= λ b. ok (record c { body = b })
