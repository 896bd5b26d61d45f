-- ===== src/Convert/Graph.antt =====
-- dockerfile2llb/convert.go: the stages as a graph. A stage is a number (the pointer to its
-- dispatchState); `deps` lists the keys of its map `deps` in the order in which `range` gives them,
-- whichever that is, and `base` is its field of that name.
pub mod Members
pub mod Ways
pub mod Cycles
pub mod Reaching
use dockerfile.Base.{
  ℕ, zero, suc, List, [], ◌∷◌, Bool, true, false, ◌==◌, ◌||◌, Option, none, some, if◌then◌else◌,
  ◌≡◌,
}

-- Whether a `map[*dispatchState]struct{}` has the key
unfoldable pub member : List ℕ → ℕ → Bool
member [] k = false
member (x ∷ xs) k = x == k || member xs k

-- `delete`
unfoldable pub delete : List ℕ → ℕ → List ℕ
delete [] k = []
delete (x ∷ xs) k = if x == k then delete xs k else x ∷ delete xs k

-- The maps `visited` and `path`
pub record Walk : Type 0 where
  pub visited : List ℕ
  pub path : List ℕ

-- The second loop of `isReachable`, over `deps`
unfoldable pub any_reaches : (ℕ → Option Bool) → List ℕ → Option Bool
any_reaches reaches [] = some false
any_reaches reaches (d ∷ ds) = elim (reaches d) [
  | none ↦ none
  | some true ↦ some true
  | some false ↦ any_reaches reaches ds
]

abbrev pub base_reaches : (ℕ → Option Bool) → Option ℕ → Option Bool
base_reaches reaches none = some false
base_reaches reaches (some b) = reaches b

module _ (deps : ℕ → List ℕ) where
  abbrev pub Edge : ℕ → ℕ → Type 0
  Edge s d = member (deps s) d ≡ true

  abbrev pub mark : Walk → ℕ → Walk
  mark w s = record { visited = s ∷ w.visited; path = s ∷ w.path }

  abbrev pub leave : ℕ → Bool → Walk → Option (Bool × Walk)
  leave s true w = some (true, w)
  leave s false w = some (false, record w { path = delete w.path s })

  -- `for dep := range state.deps`, with `visit` for the calls of the closure
  unfoldable pub visit_deps :
      (ℕ → Walk → Option (Bool × Walk)) → List ℕ → Walk → Option (Bool × Walk)
  visit_deps visit [] w = some (false, w)
  visit_deps visit (d ∷ ds) w = elim (member w.path d) [
    | true ↦ some (true, w)
    | false ↦ elim (visit d w) [
      | none ↦ none
      | some (true, w') ↦ some (true, w')
      | some (false, w') ↦ visit_deps visit ds w'
    ]
  ]

  abbrev pub finish : ℕ → Option (Bool × Walk) → Option (Bool × Walk)
  finish s none = none
  finish s (some (found, w)) = leave s found w

  -- The closure `visit`; `none` means that the fuel ran out.
  unfoldable pub visit : ℕ → ℕ → Walk → Option (Bool × Walk)
  visit zero s w = none
  visit (suc f) s w = elim (member w.visited s) [
    | true ↦ some (false, w)
    | false ↦ finish s (visit_deps (visit f) (deps s) (mark w s))
  ]

  unfoldable pub visit_states : ℕ → List ℕ → Walk → Option (Option ℕ)
  visit_states f [] w = some none
  visit_states f (s ∷ states) w = elim (visit f s w) [
    | none ↦ none
    | some (true, w') ↦ some (some s)
    | some (false, w') ↦ visit_states f states w'
  ]

  -- `hasCircularDependency`: the state that it returns with true, or `none` for false
  unfoldable pub has_circular_dependency : ℕ → List ℕ → Option (Option ℕ)
  unfolding visit_states
  has_circular_dependency f states = visit_states f states (record { visited = []; path = [] })

  module _ (base : ℕ → Option ℕ) where
    -- `isReachable(from, to)`, for a `from` that is not nil
    unfoldable pub is_reachable : ℕ → ℕ → ℕ → Option Bool
    is_reachable zero to from = none
    is_reachable (suc f) to from = elim (from == to) [
      | true ↦ some true
      | false ↦ elim (base_reaches (is_reachable f to) (base from)) [
        | none ↦ none
        | some true ↦ some true
        | some false ↦ any_reaches (is_reachable f to) (deps from)
      ]
    ]
