-- ===== src/Parser/Parse/Ranges/Order.antt =====
-- Ranges of lines that do not overlap, for `Parse` of parser/parser.go.
use dockerfile.Base.{ℕ, ◌≤◌, ◌<◌, List, [], ◌∷◌, Option, none, some, ◌≡◌, refl, arith, snoc}
use dockerfile.Base.Text.{Text}
use dockerfile.Parser.Ast.{Node, node, Root, lines, add_child}
use dockerfile.Parser.Parse.{Parsing}
use dockerfile.Parser.Parse.Reading.{Counted}

-- Ranges of lines after the line `from`, up to the line `last`, each behind the one before it
abbrev pub Ordered : ℕ → List Node → ℕ → Type 0
Ordered from [] last = from ≤ last
Ordered from (node f _ _ ∷ cs) last =
    (from < f.start_line) × (f.start_line ≤ f.end_line) × Ordered f.end_line cs last

-- The root has the first instruction's start, and none without an instruction.
abbrev pub Started : Option ℕ → List Node → Type 0
Started none [] = Unit
Started none (_ ∷ _) = ⊥
Started (some n) [] = ⊥
Started (some n) (node f _ _ ∷ _) = f.start_line ≡ n

pub Ordered-lines :
    (from : ℕ) (cs : List Node) (last s t : ℕ) (c : Node)
    → Ordered from cs last
    → last < s
    → s ≤ t
    → Ordered from (snoc cs (lines c s t)) t
unfolding lines
Ordered-lines from [] last s t (node f l c) h k m = (omega arith, m, omega arith)
Ordered-lines from (node g l c ∷ cs) last s t n h k m =
    (h.0, h.1, Ordered-lines g.end_line cs last s t n h.2 k m)

pub Ordered-le :
    (from : ℕ) (cs : List Node) (last n : ℕ) → Ordered from cs last → last ≤ n → Ordered from cs n
Ordered-le from [] last n h k = omega arith
Ordered-le from (node g l c ∷ cs) last n h k = (h.0, h.1, Ordered-le g.end_line cs last n h.2 k)

pub Started-first :
    (n : ℕ) (cs : List Node) → Started (some n) cs → (c : Node) × (cs' : List Node) × (cs ≡ c ∷ cs')
Started-first n [] s = absurd s
Started-first n (c ∷ cs) s = (c, cs, refl)

-- The state of the loop, with the lines behind it
abbrev pub Inv : ℕ → ℕ → Parsing × List Text → Type 0
Inv from total (st, rest) =
    Ordered 0 st.root.children st.current_line
    × Counted from total st.current_line rest
    × Started st.root.start_line st.root.children

pub Started-add_child :
    (r : Root) (c : Node) (s t : ℕ)
    → Started r.start_line r.children
    → Started ((add_child r c s t).start_line) ((add_child r c s t).children)
unfolding add_child lines
Started-add_child r c s t h = by_start r.start_line r.children c h
  where
    by_start :
        (sl : Option ℕ) (cs : List Node) (c : Node)
        → Started sl cs
        → Started
            ((add_child (record { start_line = sl; end_line = 0; children = cs }) c s t).start_line)
            (snoc cs (lines c s t))
    by_start none [] (node f l c) h = refl
    by_start (some n) (node f l c ∷ cs) _ h = h
    by_start none (_ ∷ _) _ h = absurd h
    by_start (some n) [] _ h = absurd h
