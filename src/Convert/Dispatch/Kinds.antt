-- ===== src/Convert/Dispatch/Kinds.antt =====
-- The kinds of commands, which Expand keeps: the entries in the history and the steps that each counts for
use dockerfile.Base.{
  ℕ, ◌+◌, List, [], ◌∷◌, Bool, true, false, ◌||◌, Option, some, ◌≡◌, refl, if◌then◌else◌,
}
use dockerfile.Base.Text.{Text}
use dockerfile.Parser.Error.{Result as SourceResult, ◌>>=◌}
use dockerfile.Instructions.Mount.{parse_mounts}
use dockerfile.Instructions.Commands.{
  Command, Body, env, label, maintainer, workdir, user, stop_signal, onbuild, add, copy, run, cmd,
  entrypoint, health_check, expose, volume, shell, arg,
}
use dockerfile.Instructions.Expand.{expand, expand_body}
use dockerfile.Instructions.Expand
use dockerfile.Convert.Error.{of_source}
use dockerfile.Convert.States.Filled.{Ok}
use dockerfile.Convert.Stages.{steps_of}

pub data Kind : Type 0 where
  is_onbuild is_cmd is_entrypoint is_layer is_workdir is_other : Kind

abbrev pub kind : Body → Kind
kind (onbuild e) = is_onbuild
kind (cmd c) = is_cmd
kind (entrypoint c) = is_entrypoint
kind (add c chown chmod) = is_layer
kind (copy c from chown chmod) = is_layer
kind (run r) = is_layer
kind (workdir path) = is_workdir
kind _ = is_other

abbrev pub OkSource {ℓ κ} : {A : Type ℓ} → (A → Type κ) → SourceResult A → Type κ
OkSource P (SourceResult.ok a) = P a
OkSource P (SourceResult.err e) = Unit

pub source-any {ℓ κ μ} :
    {A : Type ℓ} {B : Type κ} (Q : B → Type μ) (m : SourceResult A) (f : A → SourceResult B)
    → ((a : A) → OkSource Q (f a))
    → OkSource Q (m >>= f)
source-any Q (SourceResult.ok a) f k = k a
source-any Q (SourceResult.err e) f k = tt

module _ (read_csv : Text → Option (List Text)) (mem_bytes : Text → Option ℕ)
    (expander : Text → SourceResult Text) where
  expand_body-kind :
      (b : Body) → OkSource (λ b'. kind b' ≡ kind b) (expand_body read_csv mem_bytes expander b)
  unfolding expand_body
  expand_body-kind (env kvps) =
      source-any _ (Expand.expand_kvps read_csv mem_bytes expander kvps) _ (λ x. refl)
  expand_body-kind (label kvps true) = refl
  expand_body-kind (label kvps false) =
      source-any _ (Expand.expand_kvps read_csv mem_bytes expander kvps) _ (λ x. refl)
  expand_body-kind (add s chown chmod) =
      source-any _ (expander chown) _
        (λ x. source-any _ (Expand.expand_sources read_csv mem_bytes expander s) _ (λ y. refl))
  expand_body-kind (copy s from chown chmod) =
      source-any _ (expander chown) _
        (λ x. source-any _ (Expand.expand_sources read_csv mem_bytes expander s) _ (λ y. refl))
  expand_body-kind (workdir p) = source-any _ (expander p) _ (λ x. refl)
  expand_body-kind (user p) = source-any _ (expander p) _ (λ x. refl)
  expand_body-kind (stop_signal p) = source-any _ (expander p) _ (λ x. refl)
  expand_body-kind (volume vs) =
      source-any _ (Expand.expand_slice read_csv mem_bytes expander vs) _ (λ x. refl)
  expand_body-kind (arg kvps) =
      source-any _ (Expand.expand_args read_csv mem_bytes expander kvps) _ (λ x. refl)
  expand_body-kind (run c) =
      source-any _ (parse_mounts read_csv mem_bytes (some expander) c.mount_flags) _ (λ x. refl)
  expand_body-kind (maintainer m) = refl
  expand_body-kind (onbuild e) = refl
  expand_body-kind (cmd c) = refl
  expand_body-kind (entrypoint c) = refl
  expand_body-kind (health_check h) = refl
  expand_body-kind (expose ps) = refl
  expand_body-kind (shell s) = refl

  pub expand-kind :
      (c : Command)
      → OkSource (λ c'. kind c'.body ≡ kind c.body) (expand read_csv mem_bytes expander c)
  unfolding expand
  expand-kind c = by_body (expand_body read_csv mem_bytes expander c.body) (expand_body-kind c.body)
    where
      by_body :
          (r : SourceResult Body)
          → OkSource (λ b'. kind b' ≡ kind c.body) r
          → OkSource
              (λ c'. kind c'.body ≡ kind c.body)
              (r >>= λ b. SourceResult.ok (record c { body = b }))
      by_body (SourceResult.ok b) h = h
      by_body (SourceResult.err e) h = tt

pub of_source-Ok {ℓ} :
    (P : Command → Type ℓ) (r : SourceResult Command) → OkSource P r → Ok P (of_source r)
of_source-Ok P (SourceResult.ok c) h = h
of_source-Ok P (SourceResult.err e) h = tt

-- The entries that a command of this kind makes, and what it does to a default command that is not of this
-- stage
abbrev pub entries : Kind → ℕ
entries is_onbuild = 0
entries _ = 1

abbrev pub clears : Kind → Bool
clears is_entrypoint = true
clears _ = false

pub cleared :
    (first rest set : Bool) (x y : List Text)
    → set ≡ false
    → y ≡ (if first then (if set then x else []) else x)
    → (if rest then [] else y) ≡ (if first || rest then [] else x)
cleared true true set x y h e = refl
cleared true false set x y h e = rw (e, h) refl
cleared false true set x y h e = refl
cleared false false set x y h e = e

-- The steps that a command of this kind counts for, with file operations or without
abbrev pub most : Bool → Kind → ℕ
most file_op is_layer = 1
most file_op is_workdir = if file_op then 1 else 0
most file_op _ = 0

pub steps_of-kind : (file_op : Bool) (b : Body) → steps_of file_op b ≡ most file_op (kind b)
steps_of-kind file_op (env es) = refl
steps_of-kind file_op (workdir path) = refl
steps_of-kind file_op _ = refl

-- A command, with its sources
abbrev pub kind_of : Command × List ℕ → Kind
kind_of (c, sources) = kind c.body

abbrev pub count_entries : List (Command × List ℕ) → ℕ
count_entries [] = 0
count_entries (c ∷ cs) = entries (kind_of c) + count_entries cs

abbrev pub has_entrypoint : List (Command × List ℕ) → Bool
has_entrypoint [] = false
has_entrypoint (c ∷ cs) = clears (kind_of c) || has_entrypoint cs

abbrev pub IsNoCmd : Command × List ℕ → Type 0
IsNoCmd c = ¬ (kind_of c ≡ is_cmd)
