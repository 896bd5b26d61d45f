-- ===== src/Convert/Graph/Ways.antt =====
-- The ways along the dependencies of the stages
use dockerfile.Base.{ℕ, List, true, ◌≡◌, refl, sym, subst, ◌⊎◌, inl, inr}
use dockerfile.Convert.Graph.{member, Edge}

module _ (deps : ℕ → List ℕ) where
  -- One step or more along `deps`
  pub data Leads : ℕ → ℕ → Type 0 where
    edge : {s d : ℕ} → Edge deps s d → Leads s d
    more : {s d e : ℕ} → Leads s d → Edge deps d e → Leads s e

  -- Every way along `deps` from the stage comes to an end, so no cycle can be reached from it.
  pub data Ends : ℕ → Type 0 where
    ends : (s : ℕ) → ((d : ℕ) → Edge deps s d → Ends d) → Ends s

  pub Ends-Edge : {s d : ℕ} → Ends s → Edge deps s d → Ends d
  Ends-Edge (ends s h) e = h _ e

  pub Ends-Leads : {s d : ℕ} → Ends s → Leads s d → Ends d
  Ends-Leads h (edge e) = Ends-Edge h e
  Ends-Leads h (more l e) = Ends-Edge (Ends-Leads h l) e

  pub Leads-trans : {s d e : ℕ} → Leads s d → Leads d e → Leads s e
  Leads-trans l (edge e) = more l e
  Leads-trans l (more k e) = more (Leads-trans l k) e

  pub first-Edge : {s e : ℕ} → Leads s e → (d : ℕ) × Edge deps s d × ((d ≡ e) ⊎ Leads d e)
  first-Edge {e} (edge h) = (e, h, inl refl)
  first-Edge (more {d} {e} l h) =
      let (c, k, rest) = first-Edge l in
      (
        c,
        k,
        inr (elim rest [
          | inl same ↦ edge (subst (λ x. Edge deps x e) (sym same) h)
          | inr l' ↦ more l' h
        ]),
      )

  pub turn : {s d : ℕ} → Edge deps s d → (d ≡ s) ⊎ Leads d s → Leads d d
  turn {s} {d} e (inl same) = edge (subst (λ x. Edge deps x d) (sym same) e)
  turn e (inr l) = more l e

  -- A stage from which every way ends is on no cycle.
  pub Ends-acyclic : {s : ℕ} → Ends s → ¬ Leads s s
  Ends-acyclic (ends s h) l = let (d, e, rest) = first-Edge l in Ends-acyclic (h d e) (turn e rest)

  abbrev pub LeadsTo : List ℕ → ℕ → Type 0
  LeadsTo path s = (p : ℕ) → member path p ≡ true → Leads p s

  -- What a call answers: a cycle that the stage leads to, or the state that it leaves
  pub data Cycle (s : ℕ) : Type 0 where
    cycle : (u : ℕ) → (s ≡ u) ⊎ Leads s u → Leads u u → Cycle s
