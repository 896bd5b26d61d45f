-- ===== src/Convert/Dispatch/Stage.antt =====
-- What the commands of a stage leave together.
use dockerfile.Base.{
  ℕ, ◌+◌, ◌≤◌, ◌&&◌, not, map, List, [], ◌∷◌, ◌++◌, Bool, true, false, Option, none, some, ◌≡◌,
  refl, ap, sym, ◌∙◌, subst, length, length-append, append_assoc, append-nil, if◌then◌else◌, All,
  arith,
}
use dockerfile.Base.Text.{Text, codes, text_eq}
use dockerfile.Parser.Error.{Error as SourceError, Result as SourceResult}
use dockerfile.Shell.Lex.{Lex}
use dockerfile.Instructions.Commands.{Command, Body, env, workdir, onbuild, cmd, entrypoint}
use dockerfile.Instructions.Expand.{expand}
use dockerfile.Convert.Error.{Error, Result, ok, err, at, of_source}
use dockerfile.Convert.Image.{History}
use dockerfile.Convert.States.Filled.{Ok, Ok-bind}
use dockerfile.Convert.Dispatch.State.{Llb, Dispatched, DispatchOpt, use_file_op}
use dockerfile.Convert.Dispatch.Step.{
  dispatch, dispatch_all, dispatch_body, expand_command, without_env, origin_of, word_in,
}
use dockerfile.Convert.Stages.{count_steps}
use dockerfile.Convert.Dispatch.Config.{working_dir}
use dockerfile.Convert.Dispatch.Effects.{one}
use dockerfile.Convert.Dispatch.Plain.{Grows, Ok-map}
use dockerfile.Convert.Dispatch.Rules.{Follows, step_of, layer_of, cmd_of, dispatch_body-Follows}
use dockerfile.Convert.Dispatch.Kinds.{
  Kind, kind, OkSource, expand-kind, of_source-Ok, entries, clears, cleared, most, steps_of-kind,
  kind_of, count_entries, has_entrypoint, IsNoCmd, is_cmd,
}

module _ (llb : Llb) where
  pub record Steps (file_op : Bool) (k : Kind) (d d' : Dispatched llb) : Type 0 where
    pub index : d'.cmd_index ≤ d.cmd_index + most file_op k
    pub added : List History
    pub history : d'.image.history ≡ d.image.history ++ added
    pub count : length added ≡ entries k
    pub cmd_set : ¬ (k ≡ is_cmd) → d'.cmd_set ≡ d.cmd_set
    pub default :
        ¬ (k ≡ is_cmd)
        → d'.image.config.cmd ≡ (
            if clears k then (if d.cmd_set then d.image.config.cmd else []) else d.image.config.cmd)

  abbrev size : Option Bool → ℕ
  size none = 0
  size (some layer) = 1

  Grows-added :
      (o : Option Bool) (before after : List History)
      → Grows o before after
      → (added : List History) × (after ≡ before ++ added) × (length added ≡ size o)
  Grows-added none before after h = ([], h ∙ sym (append-nil before), refl)
  Grows-added (some layer) before after h = (_, h.1, refl)

  size-layer_of :
      (d : Dispatched llb) (opt : DispatchOpt llb) (b : Body)
      → size (layer_of llb d opt b) ≡ entries (kind b)
  size-layer_of d opt (onbuild e) = refl
  size-layer_of d opt (cmd c) = refl
  size-layer_of d opt (entrypoint c) = refl
  size-layer_of d opt (env es) = refl
  size-layer_of d opt _ = refl

  cmd_of-kind :
      (d : Dispatched llb) (b : Body)
      → ¬ (kind b ≡ is_cmd)
      → ((cmd_of llb d b).0 ≡ d.cmd_set)
        × ((cmd_of llb d b).1 ≡ (
            if clears (kind b)
            then (if d.cmd_set then d.image.config.cmd else [])
            else d.image.config.cmd))
  cmd_of-kind d (cmd c) h = absurd (h refl)
  cmd_of-kind d (entrypoint c) h = (refl, refl)
  cmd_of-kind d (onbuild e) h = (refl, refl)
  cmd_of-kind d (env es) h = (refl, refl)
  cmd_of-kind d _ h = (refl, refl)

  by_root : (root file_op : Bool) → one (not root && file_op) ≤ (if file_op then 1 else 0)
  by_root true true = omega arith
  by_root true false = omega arith
  by_root false true = omega arith
  by_root false false = omega arith

  step_of-most :
      (d : Dispatched llb) (opt : DispatchOpt llb) (b : Body)
      → step_of llb (layer_of llb d opt b)
        ≤ most (use_file_op opt.build_arg_values opt.caps) (kind b)
  step_of-most d opt (workdir path) =
      by_root (text_eq (working_dir d.image.config.working_dir path) (codes "/"))
        (use_file_op opt.build_arg_values opt.caps)
  step_of-most d opt (env es) = omega arith
  step_of-most d opt _ = omega arith

  Follows-Steps :
      (d : Dispatched llb) (opt : DispatchOpt llb) (b : Body) (d' : Dispatched llb)
      → Follows llb d opt b d'
      → Steps (use_file_op opt.build_arg_values opt.caps) (kind b) d d'
  Follows-Steps d opt b d' f =
      let (added, grown, sized) =
        Grows-added (layer_of llb d opt b) d.image.history d'.image.history f.history in
      record {
        index = omega (arith, f.index, step_of-most d opt b);
        added = added;
        history = grown;
        count = sized ∙ size-layer_of d opt b;
        cmd_set = λ h. f.cmd_set ∙ (cmd_of-kind d b h).0;
        default = λ h. f.default ∙ (cmd_of-kind d b h).1;
      }

  without_env-Ok {ℓ} :
      (P : Command → Type ℓ) (e : Error) (r : SourceResult Command)
      → OkSource P r
      → Ok P (without_env llb e r)
  without_env-Ok P e (SourceResult.ok c) h = h
  without_env-Ok P e (SourceResult.err SourceError.out_of_fuel) h = tt
  without_env-Ok P e (SourceResult.err other) h = tt

  module _ (read_csv : Text → Option (List Text)) (mem_bytes : Text → Option ℕ) where
    expand_command-kind :
        (d : Dispatched llb) (lex : Lex) (c : Command)
        → Ok (λ c'. kind c'.body ≡ kind c.body) (expand_command llb read_csv mem_bytes d lex c)
    unfolding expand_command
    expand_command-kind d lex c = by_env (llb.env d.state)
      where
        by_env :
            (r : Result (List Text))
            → Ok
                (λ c'. kind c'.body ≡ kind c.body)
                (elim r [
                  | ok es ↦ of_source (expand read_csv mem_bytes (word_in llb lex es) c)
                  | err e ↦
                      without_env llb e (
                        expand read_csv mem_bytes (λ _. SourceResult.err SourceError.out_of_fuel) c)
                ])
        by_env (ok es) =
            of_source-Ok (λ c'. kind c'.body ≡ kind c.body)
              (expand read_csv mem_bytes (word_in llb lex es) c)
              (expand-kind read_csv mem_bytes (word_in llb lex es) c)
        by_env (err e) =
            without_env-Ok (λ c'. kind c'.body ≡ kind c.body) e
              (expand read_csv mem_bytes (λ _. SourceResult.err SourceError.out_of_fuel) c)
              (expand-kind read_csv mem_bytes (λ _. SourceResult.err SourceError.out_of_fuel) c)

    dispatch-Steps :
        (d : Dispatched llb) (opt : DispatchOpt llb) (c : Command) (sources : List ℕ)
        → Ok
            (Steps (use_file_op opt.build_arg_values opt.caps) (kind c.body) d)
            (dispatch llb read_csv mem_bytes d opt c sources)
    unfolding dispatch
    dispatch-Steps d opt c sources =
        Ok-bind (λ c'. kind c'.body ≡ kind c.body) _
          (expand_command llb read_csv mem_bytes d opt.shlex c) _
          (expand_command-kind d opt.shlex c)
          (λ c' same.
            Ok-map llb
              (dispatch_body llb d opt sources (origin_of llb read_csv mem_bytes c') c'.body)
              (λ d' f.
                subst (λ k. Steps (use_file_op opt.build_arg_values opt.caps) k d d') same
                  (Follows-Steps d opt c'.body d' f))
              (dispatch_body-Follows llb d opt sources (origin_of llb read_csv mem_bytes c')
                c'.body))

    -- What the commands of a stage do together
    pub record Together (cs : List (Command × List ℕ)) (d d' : Dispatched llb) : Type 0 where
      pub added : List History
      pub history : d'.image.history ≡ d.image.history ++ added
      pub count : length added ≡ count_entries cs
      pub default :
          All IsNoCmd cs
          → d.cmd_set ≡ false
          → (d'.cmd_set ≡ false)
            × (d'.image.config.cmd ≡ (if has_entrypoint cs then [] else d.image.config.cmd))

    Together-cons :
        {file_op : Bool} (c : Command × List ℕ) (cs : List (Command × List ℕ))
        (d d₁ d₂ : Dispatched llb)
        → Steps file_op (kind_of c) d d₁
        → Together cs d₁ d₂
        → Together (c ∷ cs) d d₂
    Together-cons c cs d d₁ d₂ s t = record {
      added = s.added ++ t.added;
      history =
          t.history
          ∙ ap (λ hs. hs ++ t.added) s.history
          ∙ append_assoc d.image.history s.added t.added;
      count = omega (arith, length-append {0} s.added t.added, s.count, t.count);
      default = λ none_here fresh.
          let (unset, same) = t.default none_here.1 (s.cmd_set none_here.0 ∙ fresh) in
          (
            unset,
            same
                ∙ cleared (clears (kind_of c)) (has_entrypoint cs) d.cmd_set _ _ fresh
                    (s.default none_here.0),
          );
    }

    at-Ok {ℓ} :
        (P : Dispatched llb → Type ℓ) (location : _) (r : Result (Dispatched llb))
        → Ok P r
        → Ok P (at location r)
    at-Ok P location (ok d) h = h
    at-Ok P location (err e) h = tt

    -- The commands of a stage that succeed make one entry each in the history, behind those of the base,
    -- but ONBUILD, which makes none. Where none is a CMD and none of this stage came before, the default
    -- command is that of the base, or nothing behind an ENTRYPOINT.
    pub dispatch_all-Together :
        (d : Dispatched llb) (opt : DispatchOpt llb) (cs : List (Command × List ℕ))
        → Ok (Together cs d) (dispatch_all llb read_csv mem_bytes d opt cs)
    unfolding dispatch_all
    dispatch_all-Together d opt [] = record {
      added = [];
      history = sym (append-nil d.image.history);
      count = refl;
      default = λ h fresh. (fresh, refl);
    }
    dispatch_all-Together d opt ((c, sources) ∷ cs) =
        Ok-bind (Steps (use_file_op opt.build_arg_values opt.caps) (kind c.body) d) _
          (at c.base.location (dispatch llb read_csv mem_bytes d opt c sources)) _
          (at-Ok (Steps (use_file_op opt.build_arg_values opt.caps) (kind c.body) d) c.base.location
            (dispatch llb read_csv mem_bytes d opt c sources) (dispatch-Steps d opt c sources))
          (λ d₁ s.
            Ok-map llb (dispatch_all llb read_csv mem_bytes d₁ opt cs)
              (λ d₂ t. Together-cons (c, sources) cs d d₁ d₂ s t) (dispatch_all-Together d₁ opt cs))

    -- The commands of a stage that succeed count no more steps than the preparation of the stage counted
    -- for them.
    pub dispatch_all-index :
        (d : Dispatched llb) (opt : DispatchOpt llb) (cs : List (Command × List ℕ))
        → Ok
            (λ (d' : Dispatched llb).
              d'.cmd_index
              ≤ d.cmd_index
                + count_steps (use_file_op opt.build_arg_values opt.caps) (map (λ c. c.0) cs))
            (dispatch_all llb read_csv mem_bytes d opt cs)
    unfolding dispatch_all count_steps
    dispatch_all-index d opt [] = omega arith
    dispatch_all-index d opt ((c, sources) ∷ cs) =
        let file_op = use_file_op opt.build_arg_values opt.caps in
        Ok-bind (Steps file_op (kind c.body) d) _
          (at c.base.location (dispatch llb read_csv mem_bytes d opt c sources)) _
          (at-Ok (Steps file_op (kind c.body) d) c.base.location
            (dispatch llb read_csv mem_bytes d opt c sources) (dispatch-Steps d opt c sources))
          (λ d₁ s.
            Ok-map llb (dispatch_all llb read_csv mem_bytes d₁ opt cs)
              (λ d₂ le. omega (arith, s.index, le, steps_of-kind file_op c.body))
              (dispatch_all-index d₁ opt cs))
