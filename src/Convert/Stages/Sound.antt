-- ===== src/Convert/Stages/Sound.antt =====
-- The stages that come out of the preparation have no cycle among their dependencies.
use mathlib.Core.Path.{fun_ext}
use dockerfile.Base.{
  ℕ, zero, suc, List, [], ◌∷◌, Bool, true, false, Option, none, length, length-append, ◌≡◌, refl,
  sym, subst, arith, All,
}
use dockerfile.Base.Text.{Text}
use dockerfile.Instructions.Commands.{Stage}
use dockerfile.Shell.Quote.{process_word_with_map}
use dockerfile.Convert.Environment.{meta_args_to_map}
use dockerfile.Convert.Error.{Result, ok, err, ◌>>=◌, at}
use dockerfile.Convert.Platform.{Platform}
use dockerfile.Convert.Graph.Ways.{Ends}
use dockerfile.Convert.States.{
  DispatchState, DispatchStates, new_dispatch_states, allocate, next, modify, get_elem?, base_at,
  deps_at, deps_of, check_stages,
}
use dockerfile.Convert.States.Valid.{
  IsValid, Linked, All-modify, length-modify, add_state-IsValid, allocate-IsValid,
}
use dockerfile.Convert.States.Filled.{Ok, Ok-bind}
use dockerfile.Convert.States.Checked.{Checked, passed, no_source, refused, check_stages-Checked}
use dockerfile.Convert.Stages.{
  Setting, register_stage, register_stages, prepare, add_new, new_state, by_context, count_state,
  found_context, not_blank, of_word, target_of, unname, unname_single, clear_name, platform_of,
}

Ok-each {ℓ κ μ} :
    {A : Type ℓ} {B : Type κ} (Q : B → Type μ) (m : Result A) (f : A → Result B)
    → ((a : A) → Ok Q (f a))
    → Ok Q (m >>= f)
Ok-each Q (ok a) f k = k a
Ok-each Q (err e) f k = tt

-- A change of an object that leaves its links as they are
modify-IsValid :
    (dss : DispatchStates) (p : ℕ) (f : DispatchState → DispatchState)
    → ((n : ℕ) (ds : DispatchState) → Linked n ds → Linked n (f ds))
    → IsValid dss
    → IsValid (record dss { heap = modify dss.heap p f })
modify-IsValid dss p f k v =
    let same = length-modify dss.heap p f in
    record {
      states = rw same v.states;
      names = rw same v.names;
      linked =
          rw same
            (All-modify (Linked (length dss.heap)) f (k (length dss.heap)) dss.heap p v.linked);
    }

add_new-IsValid :
    (dss : DispatchStates) (st : Stage) (name : Text) (platform : Option Platform) (noinit : Bool)
    → IsValid dss
    → IsValid (add_new dss (new_state st name platform noinit))
add_new-IsValid dss st name platform noinit v =
    let ds = new_state st name platform noinit in
    add_state-IsValid (allocate dss ds) (next dss) ds (allocate-IsValid dss ds v (tt, tt))
      (omega (arith, length-append {0} dss.heap (ds ∷ [])))

by_context-IsValid :
    (s : Setting) (i : ℕ) (st : Stage) (dss : DispatchStates) (found : Bool)
    → IsValid dss
    → Ok IsValid (by_context s i st dss found)
by_context-IsValid s i st dss true v = add_new-IsValid dss _ st.name none true v
by_context-IsValid s i st dss false v =
    Ok-each IsValid (at st.location (platform_of s st.platform)) _ (λ platform.
      let added = add_new dss (new_state st _ platform false) in
      modify-IsValid added (next dss) (count_state s st (base_at added (next dss))) (λ n ds h. h)
        (add_new-IsValid dss st _ platform false v))

register_stage-IsValid :
    (s : Setting) (i : ℕ) (st : Stage) (dss : DispatchStates)
    → IsValid dss
    → Ok IsValid (register_stage s i st dss)
unfolding register_stage
register_stage-IsValid s i st dss v =
    Ok-each IsValid
      (at st.location
        (of_word (process_word_with_map s.lex st.base_name (meta_args_to_map s.meta_args))))
      _
      (λ word. Ok-each IsValid (at st.location (not_blank st.base_name word)) _ (λ name.
        Ok-each IsValid (found_context s st.name) _
          (λ found. by_context-IsValid s i (record st { base_name = name }) dss found v)))

register_stages-IsValid :
    (s : Setting) (i : ℕ) (sts : List Stage) (dss : DispatchStates)
    → IsValid dss
    → Ok IsValid (register_stages s i sts dss)
unfolding register_stages
register_stages-IsValid s i [] dss v = v
register_stages-IsValid s i (st ∷ sts) dss v =
    Ok-bind IsValid IsValid (register_stage s i st dss) _ (register_stage-IsValid s i st dss v)
      (λ dss' v'. register_stages-IsValid s (suc i) sts dss' v')

deps_of-modify :
    (heap : List DispatchState) (p q : ℕ)
    → deps_of (get_elem? (modify heap p clear_name) q) ≡ deps_of (get_elem? heap q)
unfolding get_elem? modify
deps_of-modify [] p q = refl
deps_of-modify (ds ∷ heap) zero zero = refl
deps_of-modify (ds ∷ heap) zero (suc q) = refl
deps_of-modify (ds ∷ heap) (suc p) zero = refl
deps_of-modify (ds ∷ heap) (suc p) (suc q) = deps_of-modify heap p q

abbrev pub AllEnd : DispatchStates → Type 0
AllEnd dss = All (Ends (deps_at dss)) dss.states

unname-AllEnd :
    (dss : DispatchStates)
    → IsValid dss
    → AllEnd dss
    → IsValid (unname_single dss) × AllEnd (unname_single dss)
unfolding deps_at
unname-AllEnd dss v h = by_states dss.states
  where
    renamed :
        (p : ℕ)
        → IsValid (record dss { heap = modify dss.heap p clear_name })
          × AllEnd (record dss { heap = modify dss.heap p clear_name })
    renamed p = (
      modify-IsValid dss p clear_name (λ n ds k. k) v,
      subst (λ (f : ℕ → List ℕ). All (Ends f) dss.states)
          (sym (fun_ext (deps_of-modify dss.heap p))) h,
    )

    by_states : (ps : List ℕ) → IsValid (unname dss ps) × AllEnd (unname dss ps)
    by_states [] = (v, h)
    by_states (p ∷ []) = renamed p
    by_states (p ∷ q ∷ ps) = (v, h)

check_stages-AllEnd :
    (dss : DispatchStates) → IsValid dss → Ok (λ x. IsValid x.1 × AllEnd x.1) (check_stages dss)
check_stages-AllEnd dss v = by_check (check_stages dss) (check_stages-Checked dss v)
  where
    by_check :
        (r : Result (List (List (List ℕ)) × DispatchStates))
        → Checked dss r
        → Ok (λ x. IsValid x.1 × AllEnd x.1) r
    by_check _ (passed valid all) = (valid, all)
    by_check _ (no_source e) = tt
    by_check _ (refused sources dss' p f m c e) = tt

-- Where the preparation succeeds, no pointer is dangling, and no stage leads to a cycle of dependencies:
-- all ways along them end.
pub prepare-AllEnd :
    (s : Setting) (target : Text) (stages : List Stage)
    → Ok (λ r. IsValid r.states × AllEnd r.states) (prepare s target stages)
unfolding prepare
prepare-AllEnd s target stages =
    Ok-bind IsValid _ (register_stages s 0 stages new_dispatch_states) _
      (register_stages-IsValid s 0 stages new_dispatch_states
        (record { states = tt; names = tt; linked = tt }))
      (λ dss v. Ok-each _ (target_of dss target) _ (λ t.
        Ok-bind (λ x. IsValid x.1 × AllEnd x.1) (λ r. IsValid r.states × AllEnd r.states)
          (check_stages dss) _ (check_stages-AllEnd dss v) (λ x h. unname-AllEnd x.1 h.0 h.1)))
