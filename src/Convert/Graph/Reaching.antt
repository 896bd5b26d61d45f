-- ===== src/Convert/Graph/Reaching.antt =====
-- `isReachable` walks the stages that a stage is built from and copies from.
use dockerfile.Base.{
  ℕ, zero, suc, ◌<◌, List, [], ◌∷◌, Bool, true, false, ◌==◌, Option, none, some, ◌≡◌, ◌≢◌, ◌↔◌,
  refl, subst, ◌⊎◌, inl, inr, arith, Bool-cases, ==_iff,
}
use dockerfile.Convert.Graph.{member, Edge, any_reaches, base_reaches, is_reachable}
use dockerfile.Convert.Graph.Members.{
  member-head, member-cons, not-member-nil, unvisited, unvisited-cons, unvisited-le, Includes-cons,
}
use dockerfile.Convert.Graph.Ways.{
  Leads, edge, more, Ends, ends, Ends-Edge, Ends-Leads, Ends-acyclic, Leads-trans, first-Edge,
  LeadsTo,
}

module _ (deps : ℕ → List ℕ) (base : ℕ → Option ℕ) (to : ℕ) where
  abbrev with_base : Option ℕ → List ℕ → List ℕ
  with_base none ds = ds
  with_base (some b) ds = b ∷ ds

  -- What a stage is built from, and what it copies from
  abbrev pub links : ℕ → List ℕ
  links s = with_base (base s) (deps s)

  abbrev pub Reaches : ℕ → Type 0
  Reaches from = (from ≡ to) ⊎ Leads links from to

  -- The answer is right. Where it is no, all ways from the stage end.
  pub data Answer (from : ℕ) : Option Bool → Type 0 where
    reached : Reaches from → Answer from (some true)
    apart : ¬ Reaches from → Ends links from → Answer from (some false)
    running : Answer from none

  abbrev Apart : ℕ → Type 0
  Apart d = (¬ Reaches d) × Ends links d

  -- The same over the stages of a list
  data Some (ds : List ℕ) : Option Bool → Type 0 where
    hit : (d : ℕ) → member ds d ≡ true → Reaches d → Some ds (some true)
    miss : ((d : ℕ) → member ds d ≡ true → Apart d) → Some ds (some false)
    waiting : Some ds none

  via : {from d : ℕ} → Edge links from d → Reaches d → Reaches from
  via {from} e (inl same) = inr (edge (subst (Edge links from) same e))
  via e (inr l) = inr (Leads-trans links (edge e) l)

  Apart-cons :
      (d : ℕ) (ds : List ℕ)
      → Apart d
      → ((e : ℕ) → member ds e ≡ true → Apart e)
      → (e : ℕ) → member (d ∷ ds) e ≡ true
      → Apart e
  Apart-cons d ds first others e h = elim (member-cons d ds e h) [
    | inl same ↦ subst Apart same first
    | inr k ↦ others e k
  ]

  Some-cons : (d : ℕ) (ds : List ℕ) {r : Option Bool} → Apart d → Some ds r → Some (d ∷ ds) r
  Some-cons d ds first (hit e h k) = hit e (Includes-cons d ds e h) k
  Some-cons d ds first (miss others) = miss (Apart-cons d ds first others)
  Some-cons d ds first waiting = waiting

  any_reaches-Some :
      (reaches : ℕ → Option Bool)
      → ((d : ℕ) → Answer d (reaches d))
      → (ds : List ℕ) → Some ds (any_reaches reaches ds)
  unfolding any_reaches
  any_reaches-Some reaches spec [] = miss (λ d h. absurd (not-member-nil d h))
  any_reaches-Some reaches spec (d ∷ ds) = by_answer (any_reaches-Some reaches spec ds) _ (spec d)
    where
      by_answer :
          Some ds (any_reaches reaches ds)
          → (r : Option Bool) → Answer d r
          → Some
              (d ∷ ds)
              (elim r [ none ↦ none | some true ↦ some true | some false ↦ any_reaches reaches ds ])
      by_answer rest _ (reached k) = hit d (member-head d ds d refl) k
      by_answer rest _ (apart h e) = Some-cons d ds (h, e) rest
      by_answer rest _ running = waiting

  loops :
      (reaches : ℕ → Option Bool) (b : Option ℕ) (ds : List ℕ)
      → (elim (base_reaches reaches b) [
        | none ↦ none
        | some true ↦ some true
        | some false ↦ any_reaches reaches ds
      ])
        ≡ any_reaches reaches (with_base b ds)
  unfolding any_reaches
  loops reaches none ds = refl
  loops reaches (some b) ds = refl

  unfold_reachable :
      (f from : ℕ)
      → from == to ≡ false
      → is_reachable deps base (suc f) to from
        ≡ any_reaches (is_reachable deps base f to) (links from)
  unfolding is_reachable
  unfold_reachable f from h =
      rw (h, is_reachable) (loops (is_reachable deps base f to) (base from) (deps from))

  is_reachable_self :
      (f from : ℕ) → from == to ≡ true → is_reachable deps base (suc f) to from ≡ some true
  unfolding is_reachable
  is_reachable_self f from h = rw (h, is_reachable) refl

  -- Whatever the fuel, an answer is right, and no is only answered where all ways from the stage end.
  pub is_reachable-Answer : (f from : ℕ) → Answer from (is_reachable deps base f to from)
  is_reachable-Answer zero from = unfold is_reachable in running
  is_reachable-Answer (suc f) from = elim (Bool-cases (from == to)) [
    | inl same ↦ rw (is_reachable_self f from same) (reached (inl ((==_iff from to).0 same)))
    | inr other ↦ rw (unfold_reachable f from other) (
        onward other _
          (any_reaches-Some (is_reachable deps base f to) (is_reachable-Answer f) (links from)))
  ]
    where
      no_way :
          from == to ≡ false → ((d : ℕ) → member (links from) d ≡ true → Apart d) → ¬ Reaches from
      no_way other all (inl same) = ground (arith, ==_iff from to)
      no_way other all (inr l) = let (d, e, rest) = first-Edge links l in (all d e).0 rest

      onward : from == to ≡ false → (r : Option Bool) → Some (links from) r → Answer from r
      onward other _ (hit d e k) = reached (via e k)
      onward other _ (miss all) = apart (no_way other all) (ends from (λ d e. (all d e).1))
      onward other _ waiting = running

  module _ (n : ℕ) (bounded : (s d : ℕ) → Edge links s d → d < n) where
    any_reaches-returns :
        (reaches : ℕ → Option Bool) (ds : List ℕ)
        → ((d : ℕ) → member ds d ≡ true → reaches d ≢ none)
        → any_reaches reaches ds ≢ none
    unfolding any_reaches
    any_reaches-returns reaches [] h = λ e. cc
    any_reaches-returns reaches (d ∷ ds) h =
        by_answer (reaches d) (h d (member-head d ds d refl))
          (any_reaches-returns reaches ds (λ x k. h x (Includes-cons d ds x k)))
      where
        by_answer :
            (r : Option Bool)
            → r ≢ none
            → any_reaches reaches ds ≢ none
            → (elim r [ none ↦ none | some true ↦ some true | some false ↦ any_reaches reaches ds ])
              ≢ none
        by_answer none h rest = λ e. h refl
        by_answer (some true) h rest = λ e. cc
        by_answer (some false) h rest = rest

    -- On the way to the stage stand the stages of `path`, which all lead to it.
    is_reachable-returns :
        (f from : ℕ) (path : List ℕ)
        → from < n
        → Ends links from
        → LeadsTo links path from
        → unvisited n path < f
        → is_reachable deps base f to from ≢ none
    is_reachable-returns zero from path lt e leads fuel = absurd (omega arith)
    is_reachable-returns (suc f) from path lt e leads fuel = elim (Bool-cases (from == to)) [
      | inl same ↦ rw (is_reachable_self f from same) (λ k. cc)
      | inr other ↦ rw (unfold_reachable f from other) (
          any_reaches-returns (is_reachable deps base f to) (links from) (λ d k.
            is_reachable-returns f d (from ∷ path) (bounded from d k) (Ends-Edge links e k)
              (longer d k) (less)))
    ]
      where
        fresh : member path from ≡ false
        fresh = elim (Bool-cases (member path from)) [
          | inl on ↦ absurd (Ends-acyclic links e (leads from on))
          | inr off ↦ off
        ]

        less : unvisited n (from ∷ path) < f
        less = omega (arith, unvisited-cons n from path fresh lt)

        longer : (d : ℕ) → Edge links from d → LeadsTo links (from ∷ path) d
        longer d k p h = elim (member-cons from path p h) [
          | inl same ↦ edge (subst (λ x. Edge links x d) same k)
          | inr on ↦ more (leads p on) k
        ]

    -- Where all ways from the stage end, the walk ends, and answers yes exactly where `to` is on one.
    pub is_reachable-decides :
        (f from : ℕ)
        → n < f
        → from < n
        → Ends links from
        → (b : Bool) × (is_reachable deps base f to from ≡ some b) × ((b ≡ true) ↔ Reaches from)
    is_reachable-decides f from fuel lt e = by_answer _ (is_reachable-Answer f from) (
        is_reachable-returns f from [] lt e (λ p h. absurd (not-member-nil p h))
          (omega (arith, unvisited-le n [])))
      where
        by_answer :
            (r : Option Bool)
            → Answer from r
            → r ≢ none
            → (b : Bool) × (r ≡ some b) × ((b ≡ true) ↔ Reaches from)
        by_answer _ (reached k) h = (true, refl, (λ _. k, λ _. refl))
        by_answer _ (apart k _) h = (false, refl, (λ q. cc, λ r. absurd (k r)))
        by_answer _ running h = absurd (h refl)

  -- Where a cycle can be reached and `to` cannot, the walk never ends.
  pub is_reachable-never :
      (f from u : ℕ)
      → (from ≡ u) ⊎ Leads links from u
      → Leads links u u
      → ¬ Reaches from
      → is_reachable deps base f to from ≡ none
  is_reachable-never f from u l c h = by_answer _ (is_reachable-Answer f from)
    where
      at_cycle : Ends links from → (from ≡ u) ⊎ Leads links from u → Ends links u
      at_cycle e (inl same) = subst (Ends links) same e
      at_cycle e (inr l') = Ends-Leads links e l'

      by_answer : (r : Option Bool) → Answer from r → r ≡ none
      by_answer _ (reached k) = absurd (h k)
      by_answer _ (apart _ e) = absurd (Ends-acyclic links (at_cycle e l) c)
      by_answer _ running = refl
