-- ===== src/Convert/States/Sourced.antt =====
-- dockerfile2llb/convert.go: what the loop over the commands of the stages leaves, with the sources of
-- every command and the dependencies of every stage, and how the check of the stages comes out.
use dockerfile.Base.{ℕ, List, [], ◌∷◌, length, ◌<◌, subst, All, arith}
use dockerfile.Instructions.Commands.{Command}
use dockerfile.Convert.Error.{Result, ok, err}
use dockerfile.Convert.States.{
  DispatchStates, to_command, add_sources, add_commands, fill_dependencies,
}
use dockerfile.Convert.States.Valid.{IsValid, Below, All-impl}
use dockerfile.Convert.States.Filled.{
  Grown, Ok, Ok-bind, Found, to_command-Found, add_sources-Grown,
}
use dockerfile.Convert.States.Deps.{HasDep, add_sources-HasDep}
use dockerfile.Convert.States.Later.{
  IsUnnamed, Later, Later-refl, Later-trans, add_sources-Later, commands_at, commands_at-Later,
}
use dockerfile.Convert.States.Sources.{AreSources, AreSources-Later, to_command-Looked}

-- The pointers are the sources of the command, and the stage `d` depends on all of them.
abbrev pub IsSourced : DispatchStates → ℕ → Command → List ℕ → Type 0
IsSourced dss d c ps = AreSources dss c.body ps × All (HasDep dss d) ps

abbrev pub AreSourced : DispatchStates → ℕ → List Command → List (List ℕ) → Type 0
AreSourced dss d [] [] = Unit
AreSourced dss d (c ∷ cs) (ps ∷ pss) = IsSourced dss d c ps × AreSourced dss d cs pss
AreSourced dss d _ _ = ⊥

-- So for the commands that the stages have in `first`, with what they find in `last`
abbrev pub StagesSourced : DispatchStates → DispatchStates → List ℕ → List (List (List ℕ)) → Type 0
StagesSourced first last [] [] = Unit
StagesSourced first last (d ∷ ds) (s ∷ ss) =
    AreSourced last d (commands_at first d) s × StagesSourced first last ds ss
StagesSourced first last _ _ = ⊥

Ok-both {ℓ κ μ} :
    {A : Type ℓ} (P : A → Type κ) (Q : A → Type μ) (r : Result A)
    → Ok P r
    → Ok Q r
    → Ok (λ x. P x × Q x) r
Ok-both P Q (ok a) h k = (h, k)
Ok-both P Q (err e) h k = tt

IsSourced-Later :
    {a b : DispatchStates}
    → Later a b
    → (d : ℕ) (c : Command) (ps : List ℕ) → IsSourced a d c ps
    → IsSourced b d c ps
IsSourced-Later {a} {b} l d c ps (s, h) =
    (AreSources-Later l c.body ps s, All-impl (HasDep a d) (HasDep b d) (l.deps d) ps h)

AreSourced-Later :
    {a b : DispatchStates}
    → Later a b
    → (d : ℕ) (cs : List Command) (pss : List (List ℕ)) → AreSourced a d cs pss
    → AreSourced b d cs pss
AreSourced-Later l d [] [] h = tt
AreSourced-Later l d [] (ps ∷ pss) h = elim h [ ]
AreSourced-Later l d (c ∷ cs) [] h = elim h [ ]
AreSourced-Later l d (c ∷ cs) (ps ∷ pss) h =
    (IsSourced-Later l d c ps h.0, AreSourced-Later l d cs pss h.1)

StagesSourced-Later :
    {a b : DispatchStates}
    → Later a b
    → (last : DispatchStates) (ds : List ℕ) (sss : List (List (List ℕ)))
    → All (Below (length a.heap)) ds
    → StagesSourced b last ds sss
    → StagesSourced a last ds sss
StagesSourced-Later l last [] [] h k = tt
StagesSourced-Later l last [] (s ∷ ss) h k = elim k [ ]
StagesSourced-Later l last (d ∷ ds) [] h k = elim k [ ]
StagesSourced-Later l last (d ∷ ds) (s ∷ ss) h k = (
  subst (λ cs. AreSourced last d cs s) (commands_at-Later l d h.0) k.0,
  StagesSourced-Later l last ds ss h.1 k.1,
)

-- The loop over the commands of a stage
abbrev pub After : DispatchStates → ℕ → List Command → List (List ℕ) × DispatchStates → Type 0
After dss d cs r = Later dss r.1 × (Grown dss r.1 × AreSourced r.1 d cs r.0)

abbrev pub Step : DispatchStates → Command → List ℕ × DispatchStates → Type 0
Step dss c r = Found dss r × (Later dss r.1 × AreSources r.1 c.body r.0)

pub to_command-Step :
    (dss : DispatchStates) (c : Command)
    → IsValid dss
    → All IsUnnamed dss.heap
    → Ok (Step dss c) (to_command dss c)
to_command-Step dss c v u =
    Ok-both (Found dss) _ (to_command dss c) (to_command-Found dss c v) (to_command-Looked dss c u)

pub add_sources-Sourced :
    (dss : DispatchStates) (d : ℕ) (c : Command) (ps : List ℕ)
    → All IsUnnamed dss.heap
    → d < length dss.heap
    → AreSources dss c.body ps
    → IsSourced (add_sources dss d ps) d c ps
add_sources-Sourced dss d c ps u lt h =
    (AreSources-Later (add_sources-Later dss d ps u) c.body ps h, add_sources-HasDep dss d ps lt)

pub add_commands-After :
    (dss : DispatchStates) (d : ℕ) (cs : List Command)
    → IsValid dss
    → All IsUnnamed dss.heap
    → d < length dss.heap
    → Ok (After dss d cs) (add_commands dss d cs)
unfolding add_commands
add_commands-After dss d [] v u lt =
    (Later-refl dss u, (record { valid = v; size = omega arith }, tt))
add_commands-After dss d (c ∷ cs) v u lt =
    Ok-bind (Step dss c) (After dss d (c ∷ cs)) (to_command dss c) _ (to_command-Step dss c v u)
      (λ r (found, (l, s)).
        let next = add_sources r.1 d r.0 in
        let grown = add_sources-Grown r.1 d r.0 found.grown.valid found.below in
        let two = add_sources-Later r.1 d r.0 l.unnamed in
        let in_heap : d < length r.1.heap = omega (arith, found.grown.size) in
        let one = add_sources-Sourced r.1 d c r.0 l.unnamed in_heap s in
        Ok-bind (After next d cs) (After dss d (c ∷ cs)) (add_commands next d cs) _
          (add_commands-After next d cs grown.valid two.unnamed
            (omega (arith, in_heap, grown.size)))
          (λ x (k, (g, rest)). (
            Later-trans (Later-trans l two) k,
            (
              record {
                valid = g.valid;
                size = omega (arith, found.grown.size, grown.size, g.size);
              },
              (IsSourced-Later k d c r.0 one, rest),
            ),
          )))

-- The loop over the stages
abbrev pub Filled : DispatchStates → List ℕ → List (List (List ℕ)) × DispatchStates → Type 0
Filled dss ds r = Later dss r.1 × (Grown dss r.1 × StagesSourced dss r.1 ds r.0)

pub fill_dependencies-Filled :
    (dss : DispatchStates) (ds : List ℕ)
    → IsValid dss
    → All IsUnnamed dss.heap
    → All (Below (length dss.heap)) ds
    → Ok (Filled dss ds) (fill_dependencies dss ds)
unfolding fill_dependencies
fill_dependencies-Filled dss [] v u h =
    (Later-refl dss u, (record { valid = v; size = omega arith }, tt))
fill_dependencies-Filled dss (d ∷ ds) v u h =
    let cs = commands_at dss d in
    Ok-bind (After dss d cs) (Filled dss (d ∷ ds)) (add_commands dss d cs) _
      (add_commands-After dss d cs v u h.0)
      (λ r (l, (g, s)).
        Ok-bind (Filled r.1 ds) (Filled dss (d ∷ ds)) (fill_dependencies r.1 ds) _
          (fill_dependencies-Filled r.1 ds g.valid l.unnamed (
            All-impl (Below (length dss.heap)) (Below (length r.1.heap))
              (λ q k. omega (arith, k, g.size)) ds h.1))
          (λ x (k, (g', rest)). (
            Later-trans l k,
            (
              record { valid = g'.valid; size = omega (arith, g.size, g'.size) },
              (AreSourced-Later k d cs r.0 s, StagesSourced-Later l x.1 ds x.0 h.1 rest),
            ),
          )))
