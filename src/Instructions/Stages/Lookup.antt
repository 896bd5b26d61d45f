-- ===== src/Instructions/Stages/Lookup.antt =====
-- `HasStage` finds the first stage of a name.
use dockerfile.Base.{
  ℕ, suc, List, [], ◌∷◌, ◌++◌, Bool, true, false, Option, none, some, ◌≡◌, refl, ap, length, All,
  if◌then◌else◌,
}
use dockerfile.Base.Text.{Text, equal_fold}
use dockerfile.Instructions.Commands.{Stage}
use dockerfile.Instructions.Stages.{has_stage}

-- No stage has the name, in any case of its letters.
abbrev pub NoneNamed : Text → List Stage → Type 0
NoneNamed name = All (λ s. equal_fold s.name name ≡ false)

-- No stage has the name; or the stage at the index has it, and none before it.
abbrev pub IsFirst : List Stage → Text → Option ℕ → Type 0
IsFirst ss name none = NoneNamed name ss
IsFirst ss name (some n) =
    (before : List Stage) × (s : Stage) × (after : List Stage) × (ss ≡ before ++ s ∷ after)
    × (length before ≡ n)
    × NoneNamed name before
    × (equal_fold s.name name ≡ true)

-- `HasStage` gives the index of the first stage that has the name, in any case of its letters, or
-- none where no stage has it.
pub has_stage-IsFirst : (ss : List Stage) (name : Text) → IsFirst ss name (has_stage ss name)
unfolding has_stage
has_stage-IsFirst [] name = tt
has_stage-IsFirst (s ∷ ss) name =
    by_test (equal_fold s.name name) refl (has_stage ss name) (has_stage-IsFirst ss name)
  where
    by_test :
        (b : Bool)
        → equal_fold s.name name ≡ b
        → (o : Option ℕ) → IsFirst ss name o
        → IsFirst
            (s ∷ ss)
            name
            (if b then some 0 else elim o [ none ↦ none | some n ↦ some (suc n) ])
    by_test true e o h = ([], s, ss, refl, refl, tt, e)
    by_test false e none h = (e, h)
    by_test false e (some n) (before, t, after, split, at, no_one, found) =
        (s ∷ before, t, after, ap (λ us. s ∷ us) split, ap suc at, (e, no_one), found)
