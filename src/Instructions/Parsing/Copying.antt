-- ===== src/Instructions/Parsing/Copying.antt =====
-- ADD and COPY: `parseSourcesAndDest`, `parseAdd` and `parseCopy` of parser/instructions/parse.go.
use dockerfile.Base.{List, [], ◌∷◌, Option, none, some, snoc, if◌then◌else◌}
use dockerfile.Base.Text.{Text, codes, text_eq}
use dockerfile.Parser.Ast.{Heredoc}
use dockerfile.Parser.Error.{Result, ok, err, ◌>>=◌, instruction}
use dockerfile.Parser.Heredoc.{must_parse_heredoc, chomp_heredoc_content}
use dockerfile.Instructions.Error.{no_destination, bad_heredoc}
use dockerfile.Instructions.Flags.{Flags, add_string, value_of}
use dockerfile.Instructions.Flags
use dockerfile.Instructions.Commands.{SourceContent, SourcesAndDest, Body, Command, add, copy}
use dockerfile.Instructions.Request.{Request, new_code}

-- `req.args[len(req.args)-1]` and what comes before it
abbrev pub cons_first : Text → List Text × Text → List Text × Text
cons_first a (as_before, last) = (a ∷ as_before, last)

unfoldable pub split_last : Text → List Text → List Text × Text
split_last a [] = ([], a)
split_last a (b ∷ args) = cons_first a (split_last b args)

-- `heredocLookup[name].Content`: the last one with the name, or nothing
unfoldable pub content_onto : Text → List Heredoc → Text → Text
content_onto content [] name = content
content_onto content (h ∷ hs) name =
    content_onto (if text_eq name h.name then h.content else content) hs name

unfoldable pub heredoc_content : List Heredoc → Text → Text
heredoc_content hs name = content_onto [] hs name

abbrev source_content : List Heredoc → Heredoc → SourceContent
source_content hs h =
    let content = heredoc_content hs h.name in
    record {
      path = h.name;
      data_text = if h.chomp then chomp_heredoc_content content else content;
      expand = h.expand;
    }

abbrev add_source : List Heredoc → SourcesAndDest → Text → Option Heredoc → SourcesAndDest
add_source hs s src none = record s { source_paths = snoc s.source_paths src }
add_source hs s src (some h) = record s {
  source_contents = snoc s.source_contents (source_content hs h);
}

-- `for _, src := range srcs`
unfoldable pub add_sources : List Heredoc → SourcesAndDest → List Text → SourcesAndDest
add_sources hs s [] = s
add_sources hs s (src ∷ srcs) = add_sources hs (add_source hs s src (must_parse_heredoc src)) srcs

abbrev from_dest : List Heredoc → Text → List Text → Text → Option Heredoc → Result SourcesAndDest
from_dest hs cmd srcs dest none =
    ok (add_sources hs (record { dest_path = dest; source_paths = []; source_contents = [] }) srcs)
from_dest hs cmd srcs dest (some h) = err (instruction (bad_heredoc cmd))

-- `parseSourcesAndDest`
unfoldable pub parse_sources_and_dest :
    List Heredoc → Text → List Text × Text → Result SourcesAndDest
parse_sources_and_dest hs cmd (srcs, dest) = from_dest hs cmd srcs dest (must_parse_heredoc dest)

-- `len(req.args) < 2`, the flags, and the sources
abbrev with_sources :
    Text → Flags → Request → List Text → (Flags → SourcesAndDest → Body) → Result Command
with_sources cmd flags req (a ∷ b ∷ args) body = Flags.parse flags >>= λ fs.
    parse_sources_and_dest req.heredocs cmd (split_last a (b ∷ args)) >>= λ s.
    ok (record { base = new_code req; body = body fs s })
with_sources cmd flags req _ body = err (instruction (no_destination cmd))

-- `parseAdd`
unfoldable pub parse_add : Request → Result Command
parse_add req =
    with_sources (codes "ADD")
      (add_string (add_string req.flags (codes "chown") []) (codes "chmod") []) req req.args
      (λ fs s. add s (value_of fs (codes "chown")) (value_of fs (codes "chmod")))

-- `parseCopy`
unfoldable pub parse_copy : Request → Result Command
parse_copy req =
    with_sources (codes "COPY")
      (add_string (add_string (add_string req.flags (codes "chown") []) (codes "from") [])
        (codes "chmod") [])
      req req.args
      (λ fs s.
        copy s (value_of fs (codes "from")) (value_of fs (codes "chown"))
          (value_of fs (codes "chmod")))
