-- ===== src/Convert/States/Outcome.antt =====
-- dockerfile2llb/convert.go: how the check of the stages comes out, with the sources of every command
-- where it passes and with the reason where it fails.
use dockerfile.Base.{ℕ, suc, List, true, Option, length, ◌≡◌, refl, All, arith}
use dockerfile.Convert.Error.{Error, Result, ok, err, ◌>>=◌, circular_dependency}
use dockerfile.Convert.Graph.{member, has_circular_dependency}
use dockerfile.Convert.Graph.Cycles.{Verdict, circular, acyclic, has_circular_dependency-decides}
use dockerfile.Convert.Graph.Ways.{Cycle, Ends}
use dockerfile.Convert.States.{
  DispatchStates, fill_dependencies, deps_at, name_at, check_stages, check_cycles, or_circular,
}
use dockerfile.Convert.States.Valid.{IsValid}
use dockerfile.Convert.States.Filled.{Ok}
use dockerfile.Convert.States.Checked.{deps_at-Below}
use dockerfile.Convert.States.Missing.{Fails, IsMissing, fill_dependencies-Fails}
use dockerfile.Convert.States.Sourced.{StagesSourced, Filled, fill_dependencies-Filled}
use dockerfile.Convert.States.Later.{IsUnnamed}

-- How the check of the stages comes out
pub data Outcome (dss : DispatchStates)
    : Result (List (List (List ℕ)) × DispatchStates) → Type 0 where
  -- No pointer is dangling, every command has its sources, which its stage depends on, and all ways along
  -- the dependencies of the stages end.
  passed :
      (sources : List (List (List ℕ))) (last : DispatchStates)
      → IsValid last
      → StagesSourced dss last dss.states sources
      → All (Ends (deps_at last)) last.states
      → Outcome dss (ok (sources, last))
  -- A command copies from a number that no stage has.
  missing : (e : Error) → IsMissing dss dss.states e → Outcome dss (err e)
  -- A stage, named in the error, leads to a cycle of dependencies on the sources of the commands.
  circle :
      (sources : List (List (List ℕ))) (last : DispatchStates) (p : ℕ) (e : Error)
      → StagesSourced dss last dss.states sources
      → member last.states p ≡ true
      → Cycle (deps_at last) p
      → e ≡ circular_dependency (name_at last p)
      → Outcome dss (err e)

-- The check of the stages ends, if no pointer is dangling and the states that are made for images have
-- no name. Where it passes, every command of the stages has its sources, in order, each the stage that
-- the command names, in any case, or a state made for the image with that name where no stage has it
-- (COPY also the state that stands at the number), a stage depends on all the sources of its commands,
-- no pointer is dangling, and all ways along the dependencies of the stages end. It fails only where a
-- COPY is from a number that no stage has, or, with these sources and dependencies, where a stage,
-- named in the error, leads to a cycle.
pub check_stages-Outcome :
    (dss : DispatchStates) → IsValid dss → All IsUnnamed dss.heap → Outcome dss (check_stages dss)
unfolding check_stages
check_stages-Outcome dss v u =
    by_fill (fill_dependencies dss dss.states)
      (fill_dependencies-Filled dss dss.states v u v.states)
      (fill_dependencies-Fails dss dss.states v u v.states)
  where
    by_fill :
        (r : Result (List (List (List ℕ)) × DispatchStates))
        → Ok (Filled dss dss.states) r
        → Fails (IsMissing dss dss.states) r
        → Outcome dss (r >>= check_cycles)
    by_fill (err e) f m = missing e m
    by_fill (ok (sources, last)) (l, (g, s)) m =
        by_verdict (has_circular_dependency (deps_at last) (suc (length last.heap)) last.states) (
          has_circular_dependency-decides (deps_at last) (length last.heap)
            (deps_at-Below last g.valid) (suc (length last.heap)) last.states g.valid.states
            (omega arith))
      where
        by_verdict :
            (o : Option (Option ℕ))
            → Verdict (deps_at last) last.states o
            → Outcome dss (or_circular sources last o)
        by_verdict _ (circular c k) = circle sources last _ _ s c k refl
        by_verdict _ (acyclic all) = passed sources last g.valid s all
