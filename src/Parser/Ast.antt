-- ===== src/Parser/Ast.antt =====
-- The tree of parser/parser.go: `Node`, `Heredoc` and their methods. The only negative line is the
-- -1 that `Parse` gives its root: `none` there. Pointers are values, since a node is not changed
-- once something else points to it.
use dockerfile.Base.{ℕ, List, [], ◌∷◌, Bool, false, Option, none, some, snoc, if◌then◌else◌}
use dockerfile.Base.Text.{Text, text_eq}

pub record Heredoc : Type 0 where
  pub name : Text
  pub file_descriptor : ℕ
  pub expand : Bool
  pub chomp : Bool
  pub content : Text

-- A `map[string]bool`; the nil map is empty.
abbrev pub Attributes : Type 0
Attributes = List (Text × Bool)

-- `attributes[key]`
unfoldable pub attribute : Attributes → Text → Bool
attribute [] key = false
attribute ((k, v) ∷ attrs) key = if text_eq key k then v else attribute attrs key

-- The fields of `Node` but `Next` and `Children`
pub record Fields : Type 0 where
  pub value : Text
  pub heredocs : List Heredoc
  pub attributes : Attributes
  pub original : Text
  pub flags : List Text
  pub start_line : ℕ
  pub end_line : ℕ
  pub prev_comment : List Text

-- `Link` is `*Node`.
mutual
  pub data Node : Type 0 where
    node : Fields → Link → Nodes → Node

  pub data Link : Type 0 where
    nil : Link
    next : Node → Link

  pub data Nodes : Type 0 where
    no_children : Nodes
    child : Node → Nodes → Nodes

-- `Node{Value: value}`
abbrev pub leaf : Text → Fields
leaf value = record {
  value = value;
  heredocs = [];
  attributes = [];
  original = [];
  flags = [];
  start_line = 0;
  end_line = 0;
  prev_comment = [];
}

abbrev pub fields : Node → Fields
fields (node f _ _) = f

abbrev pub next_of : Node → Link
next_of (node _ l _) = l

-- A chain of nodes with these values: what `prevNode.Next = node` builds, round by round
unfoldable pub chain : List Text → Link
chain [] = nil
chain (v ∷ vs) = next (node (leaf v) (chain vs) no_children)

-- `(*Node).lines`
unfoldable pub lines : Node → ℕ → ℕ → Node
lines (node f l c) start end = node (record f { start_line = start; end_line = end }) l c

-- The root that `Parse` builds
pub record Root : Type 0 where
  pub start_line : Option ℕ
  pub end_line : ℕ
  pub children : List Node

abbrev or_start : Option ℕ → ℕ → Option ℕ
or_start none start = some start
or_start (some n) start = some n

-- `(*Node).AddChild`
unfoldable pub add_child : Root → Node → ℕ → ℕ → Root
unfolding lines
add_child root c start end = record {
  start_line = or_start root.start_line start;
  end_line = end;
  children = snoc root.children (lines c start end);
}
