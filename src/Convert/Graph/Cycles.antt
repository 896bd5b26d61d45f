-- ===== src/Convert/Graph/Cycles.antt =====
-- `hasCircularDependency` finds a cycle of `deps` exactly where there is one.
use dockerfile.Base.{
  ℕ, zero, suc, ◌<◌, List, [], ◌∷◌, Bool, true, false, ◌==◌, Option, none, some, ◌≡◌, refl, ap, sym,
  subst, ◌∙◌, ◌⊎◌, inl, inr, arith, Bool-cases, All, ==_iff,
}
use dockerfile.Convert.Graph.{
  member, delete, Walk, Edge, mark, finish, visit_deps, visit, visit_states,
  has_circular_dependency,
}
use dockerfile.Convert.Graph.Members.{
  unvisited, Includes, unvisited-Includes, Includes-cons, unvisited-cons, member-nil,
  not-member-nil, unvisited-le, delete-head, member-head, member-cons,
}
use dockerfile.Convert.Graph.Ways.{
  Leads, edge, more, Ends, ends, Leads-trans, turn, LeadsTo, Cycle, cycle,
}

module _ (deps : ℕ → List ℕ) where
  -- A state of the search: the stages on the path are visited, each leads to the stage that is
  -- looked at, and from every other visited stage all ways end.
  record Inv (w : Walk) : Type 0 where
    on_path : (v : ℕ) → member w.path v ≡ true → member w.visited v ≡ true
    finished : (v : ℕ) → member w.visited v ≡ true → (member w.path v ≡ true) ⊎ Ends deps v

  record Left (w w' : Walk) : Type 0 where
    inv : Inv w'
    same_path : w'.path ≡ w.path
    kept : Includes w.visited w'.visited

  Inv-mark : (s : ℕ) (w : Walk) → Inv w → Inv (mark deps w s)
  Inv-mark s w inv = record {
    on_path = λ v h. elim (member-cons s w.path v h) [
      | inl e ↦ member-head s w.visited v e
      | inr on ↦ Includes-cons s w.visited v (inv.on_path v on)
    ];
    finished = λ v h. elim (member-cons s w.visited v h) [
      | inl e ↦ inl (member-head s w.path v e)
      | inr old ↦ still v (inv.finished v old)
    ];
  }
    where
      still :
          (v : ℕ)
          → (member w.path v ≡ true) ⊎ Ends deps v
          → (member (s ∷ w.path) v ≡ true) ⊎ Ends deps v
      still v (inl on) = inl (Includes-cons s w.path v on)
      still v (inr e) = inr e

  data Answers (P : Type 0) (Q : Type 0) (w : Walk) : Option (Bool × Walk) → Type 0 where
    found : {w' : Walk} → P → Answers P Q w (some (true, w'))
    clear : {w' : Walk} → Q → Left w w' → Answers P Q w (some (false, w'))

  further : {s d : ℕ} → Edge deps s d → Cycle deps d → Cycle deps s
  further {s} e (cycle u (inl same) c) = cycle u (inr (edge (subst (Edge deps s) same e))) c
  further e (cycle u (inr l) c) = cycle u (inr (Leads-trans deps (edge e) l)) c

  Left-trans : {a b c : Walk} → Left a b → Left b c → Left a c
  Left-trans l r = record {
    inv = r.inv;
    same_path = r.same_path ∙ l.same_path;
    kept = λ v h. r.kept v (l.kept v h);
  }

  Answers-after :
      {P Q : Type 0} {a b : Walk} {r : Option (Bool × Walk)}
      → Left a b
      → Answers P Q b r
      → Answers P Q a r
  Answers-after l (found p) = found p
  Answers-after l (clear q k) = clear q (Left-trans l k)

  Answers-map :
      {P Q R : Type 0} {a : Walk} {r : Option (Bool × Walk)}
      → (Q → R)
      → Answers P Q a r
      → Answers P R a r
  Answers-map f (found p) = found p
  Answers-map f (clear q k) = clear (f q) k

  -- The states that are looked at, with the answer
  pub data Verdict (states : List ℕ) : Option (Option ℕ) → Type 0 where
    circular : {s : ℕ} → member states s ≡ true → Cycle deps s → Verdict states (some (some s))
    acyclic : All (Ends deps) states → Verdict states (some none)

  module _ (n : ℕ) (bounded : (s d : ℕ) → Edge deps s d → d < n) where
    abbrev VisitSpec : ℕ → Type 0
    VisitSpec f =
        (s : ℕ) (w : Walk)
        → s < n
        → Inv w
        → LeadsTo deps w.path s
        → member w.path s ≡ false
        → unvisited n w.visited < f
        → Answers (Cycle deps s) (Ends deps s) w (visit deps f s w)

    abbrev PathTo : List ℕ → ℕ → Type 0
    PathTo path s = (p : ℕ) → member path p ≡ true → (p ≡ s) ⊎ Leads deps p s

    abbrev DepsSpec : (ℕ → Walk → Option (Bool × Walk)) → ℕ → Type 0
    DepsSpec run f =
        (s : ℕ) (ds : List ℕ) (w : Walk)
        → ((d : ℕ) → member ds d ≡ true → Edge deps s d)
        → Inv w
        → PathTo w.path s
        → unvisited n w.visited < f
        → Answers (Cycle deps s) ((d : ℕ) → member ds d ≡ true → Ends deps d) w
            (visit_deps deps run ds w)

    visit_deps-answers :
        (run : ℕ → Walk → Option (Bool × Walk)) (f : ℕ)
        → ((s : ℕ) (w : Walk)
            → s < n
            → Inv w
            → LeadsTo deps w.path s
            → member w.path s ≡ false
            → unvisited n w.visited < f
            → Answers (Cycle deps s) (Ends deps s) w (run s w))
        → DepsSpec run f
    unfolding visit_deps member
    visit_deps-answers run f spec s [] w edges inv path fuel =
        clear (λ d h. cc) (record { inv = inv; same_path = refl; kept = λ v h. h })
    visit_deps-answers run f spec s (d ∷ ds) w edges inv path fuel =
        elim (Bool-cases (member w.path d)) [
          | inl on ↦ rw (on, visit_deps) (found (closing (path d on)))
          | inr off ↦
              rw (off, visit_deps)
                (after
                  (λ w' l.
                    visit_deps-answers run f spec s ds w' others l.inv
                      (λ p h. path p (rw (← l.same_path) h))
                      (omega (arith, unvisited-Includes n w.visited w'.visited l.kept)))
                  (run d w) (spec d w (bounded s d (here)) inv leads off fuel))
        ]
      where
        here : Edge deps s d
        here = edges d (ground (arith, ==_iff d d))

        others : (d' : ℕ) → member ds d' ≡ true → Edge deps s d'
        others d' h = edges d' (ground arith)

        leads : LeadsTo deps w.path d
        leads p h = elim (path p h) [
          | inl same ↦ edge (subst (λ x. Edge deps x d) (sym same) here)
          | inr l ↦ more l here
        ]

        closing : (d ≡ s) ⊎ Leads deps d s → Cycle deps s
        closing back = cycle d (inr (edge here)) (turn deps here back)

        either :
            Ends deps d
            → ((d' : ℕ) → member ds d' ≡ true → Ends deps d')
            → (d' : ℕ) → member (d ∷ ds) d' ≡ true
            → Ends deps d'
        either q k d' h = elim (Bool-cases (d == d')) [
          | inl e ↦ subst (Ends deps) ((==_iff d d').0 e) q
          | inr e ↦ k d' (ground arith)
        ]

        after :
            ((w' : Walk)
              → Left w w'
              → Answers
                  (Cycle deps s)
                  ((d' : ℕ) → member ds d' ≡ true → Ends deps d')
                  w'
                  (visit_deps deps run ds w'))
            → (r : Option (Bool × Walk)) → Answers (Cycle deps d) (Ends deps d) w r
            → Answers
                (Cycle deps s)
                ((d' : ℕ) → member (d ∷ ds) d' ≡ true → Ends deps d')
                w
                (elim r [
                  | none ↦ none
                  | some (true, w') ↦ some (true, w')
                  | some (false, w') ↦ visit_deps deps run ds w'
                ])
        after rest _ (found c) = found (further here c)
        after rest _ (clear {w'} q l) = Answers-after l (Answers-map (either q) (rest w' l))

    Left-finish :
        (s : ℕ) (w w' : Walk)
        → Inv w
        → member w.path s ≡ false
        → member w.visited s ≡ false
        → Ends deps s
        → Left (mark deps w s) w'
        → Left w (record w' { path = delete w'.path s })
    Left-finish s w w' inv off new q l = record {
      inv = record {
        on_path = λ v h.
            l.kept v (
              Includes-cons s w.visited v
                (inv.on_path v (subst (λ ps. member ps v ≡ true) same h)));
        finished = λ v h. elim (l.inv.finished v h) [
          | inl on ↦ placed v (subst (λ ps. member ps v ≡ true) l.same_path on)
          | inr e ↦ inr e
        ];
      };
      same_path = same;
      kept = λ v h. l.kept v (Includes-cons s w.visited v h);
    }
      where
        same : delete w'.path s ≡ w.path
        same = ap (λ ps. delete ps s) l.same_path ∙ delete-head w.path s off

        placed :
            (v : ℕ)
            → member (s ∷ w.path) v ≡ true
            → (member (delete w'.path s) v ≡ true) ⊎ Ends deps v
        placed v on = elim (member-cons s w.path v on) [
          | inl e ↦ inr (subst (Ends deps) e q)
          | inr h ↦ inl (subst (λ ps. member ps v ≡ true) (sym same) h)
        ]

    visit-answers : (f : ℕ) → VisitSpec f
    unfolding visit
    visit-answers zero s w lt inv leads off fuel = absurd (omega arith)
    visit-answers (suc f) s w lt inv leads off fuel = elim (Bool-cases (member w.visited s)) [
      | inl old ↦
          rw (old, visit)
            (clear (known (inv.finished s old))
              (record { inv = inv; same_path = refl; kept = λ v h. h }))
      | inr new ↦
          rw (new, visit)
            (closed new _ (
              visit_deps-answers (visit deps f) f (visit-answers f) s (deps s) (mark deps w s)
                (λ d e. e) (Inv-mark s w inv) (path)
                (omega (arith, unvisited-cons n s w.visited new lt))))
    ]
      where
        known : (member w.path s ≡ true) ⊎ Ends deps s → Ends deps s
        known (inl on) = cc
        known (inr e) = e

        path : PathTo (s ∷ w.path) s
        path p h = elim (member-cons s w.path p h) [
          | inl e ↦ inl (sym e)
          | inr on ↦ inr (leads p on)
        ]

        closed :
            member w.visited s ≡ false
            → (r : Option (Bool × Walk))
            → Answers (Cycle deps s) ((d : ℕ) → Edge deps s d → Ends deps d) (mark deps w s) r
            → Answers (Cycle deps s) (Ends deps s) w (finish deps s r)
        closed new _ (found c) = found c
        closed new _ (clear {w'} q l) =
            clear (ends s q) (Left-finish s w w' inv off new (ends s q) l)

    visit_states-Verdict :
        (f : ℕ) (states : List ℕ) (w : Walk)
        → All (λ s. s < n) states
        → Inv w
        → w.path ≡ []
        → unvisited n w.visited < f
        → Verdict states (visit_states deps f states w)
    unfolding visit_states
    visit_states-Verdict f [] w lt inv empty fuel = acyclic tt
    visit_states-Verdict f (s ∷ states) w lt inv empty fuel =
        after
          (λ w' l.
            visit_states-Verdict f states w' lt.1 l.inv (l.same_path ∙ empty)
              (omega (arith, unvisited-Includes n w.visited w'.visited l.kept)))
          _ (visit-answers f s w lt.0 inv (λ p h. absurd (none_on p h)) (rw empty refl_off) fuel)
      where
        none_on : (p : ℕ) → ¬ (member w.path p ≡ true)
        none_on p h = not-member-nil p (subst (λ ps. member ps p ≡ true) empty h)

        refl_off : member [] s ≡ false
        refl_off = member-nil s

        wider : {r : Option (Option ℕ)} → Ends deps s → Verdict states r → Verdict (s ∷ states) r
        wider e (circular {s = u} h c) = circular (Includes-cons s states u h) c
        wider e (acyclic all) = acyclic (e, all)

        after :
            ((w' : Walk) → Left w w' → Verdict states (visit_states deps f states w'))
            → (r : Option (Bool × Walk)) → Answers (Cycle deps s) (Ends deps s) w r
            → Verdict (s ∷ states) (elim r [
              | none ↦ none
              | some (true, w') ↦ some (some s)
              | some (false, w') ↦ visit_states deps f states w'
            ])
        after rest _ (found c) = circular (member-head s states s refl) c
        after rest _ (clear {w'} q l) = wider q (rest w' l)

    -- The search ends, with a stage and a cycle that it leads to, or with none, and then all ways along
    -- the dependencies of the stages end.
    pub has_circular_dependency-decides :
        (f : ℕ) (states : List ℕ)
        → All (λ s. s < n) states
        → n < f
        → Verdict states (has_circular_dependency deps f states)
    unfolding has_circular_dependency
    has_circular_dependency-decides f states lt fuel =
        visit_states-Verdict f states (record { visited = []; path = [] }) lt
          (record { on_path = λ v h. h; finished = λ v h. absurd (not-member-nil v h) }) refl
          (omega (arith, unvisited-le n []))
