-- ===== src/Convert/States/Checked.antt =====
-- dockerfile2llb/convert.go: the pointers of the stages behind the check of the stages, and the ways along
-- their dependencies
use dockerfile.Base.{
  ℕ, suc, ◌<◌, List, [], ◌∷◌, true, Option, none, some, length, ◌≡◌, refl, arith, All, inl, inr,
  subst,
}
use dockerfile.Convert.Error.{Error, Result, ok, err, ◌>>=◌, circular_dependency}
use dockerfile.Convert.Graph.{member, Edge, has_circular_dependency}
use dockerfile.Convert.Graph.Cycles.{Verdict, circular, acyclic, has_circular_dependency-decides}
use dockerfile.Convert.Graph.Members.{not-member-nil, member-cons}
use dockerfile.Convert.Graph.Ways.{Cycle, Ends}
use dockerfile.Convert.States.{
  DispatchState, DispatchStates, get_elem?, deps_at, deps_of, name_at, check_stages, check_cycles,
  or_circular, fill_dependencies,
}
use dockerfile.Convert.States.Valid.{IsValid, Below, Linked, get_elem?-All}
use dockerfile.Convert.States.Filled.{Grown, Ok, fill_dependencies-Grown}

member-Below : (n : ℕ) (xs : List ℕ) (v : ℕ) → All (Below n) xs → member xs v ≡ true → v < n
member-Below n [] v h m = absurd (not-member-nil v m)
member-Below n (x ∷ xs) v h m = elim (member-cons x xs v m) [
  | inl e ↦ subst (Below n) e h.0
  | inr k ↦ member-Below n xs v h.1 k
]

pub deps_at-Below :
    (dss : DispatchStates) → IsValid dss → (s d : ℕ) → Edge (deps_at dss) s d → d < length dss.heap
unfolding deps_at
deps_at-Below dss v s d e = by_elem (get_elem? dss.heap s) refl e
  where
    by_elem :
        (o : Option DispatchState)
        → get_elem? dss.heap s ≡ o
        → member (deps_of o) d ≡ true
        → d < length dss.heap
    by_elem none k m = absurd (not-member-nil d m)
    by_elem (some ds) k m =
        member-Below (length dss.heap) ds.deps d
          (get_elem?-All (Linked (length dss.heap)) dss.heap s v.linked k).0 m

-- How the check comes out
pub data Checked (dss : DispatchStates)
    : Result (List (List (List ℕ)) × DispatchStates) → Type 0 where
  -- No pointer is dangling, and all ways along the dependencies of the stages end.
  passed :
      {sources : List (List (List ℕ))} {dss' : DispatchStates}
      → IsValid dss'
      → All (Ends (deps_at dss')) dss'.states
      → Checked dss (ok (sources, dss'))
  -- The sources of a command are not there.
  no_source : {e : Error} → fill_dependencies dss dss.states ≡ err e → Checked dss (err e)
  -- A stage, named in the error, leads to a cycle.
  refused :
      (sources : List (List (List ℕ))) (dss' : DispatchStates) (p : ℕ) {e : Error}
      → fill_dependencies dss dss.states ≡ ok (sources, dss')
      → member dss'.states p ≡ true
      → Cycle (deps_at dss') p
      → e ≡ circular_dependency (name_at dss' p)
      → Checked dss (err e)

-- The check of the stages ends: it passes, and then there is no cycle of dependencies, or it fails where
-- a source is missing, or where a stage leads to a cycle.
pub check_stages-Checked : (dss : DispatchStates) → IsValid dss → Checked dss (check_stages dss)
unfolding check_stages
check_stages-Checked dss v =
    by_fill (fill_dependencies dss dss.states) refl (fill_dependencies-Grown dss dss.states v)
  where
    by_fill :
        (r : Result (List (List (List ℕ)) × DispatchStates))
        → fill_dependencies dss dss.states ≡ r
        → Ok (λ x. Grown dss x.1) r
        → Checked dss (r >>= check_cycles)
    by_fill (err e) f g = no_source f
    by_fill (ok (sources, dss')) f g =
        by_verdict (has_circular_dependency (deps_at dss') (suc (length dss'.heap)) dss'.states) (
          has_circular_dependency-decides (deps_at dss') (length dss'.heap)
            (deps_at-Below dss' g.valid) (suc (length dss'.heap)) dss'.states g.valid.states
            (omega arith))
      where
        by_verdict :
            (o : Option (Option ℕ))
            → Verdict (deps_at dss') dss'.states o
            → Checked dss (or_circular sources dss' o)
        by_verdict _ (circular m c) = refused sources dss' _ f m c refl
        by_verdict _ (acyclic all) = passed g.valid all
