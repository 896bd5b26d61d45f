-- ===== src/Parser.antt =====
-- The package parser: from the text of a Dockerfile to its tree.
pub mod Ast
pub mod Error
pub mod ParseWords
pub mod LineParsers
pub mod Directives
pub mod Lines
pub mod Heredoc
pub mod Parse
mod Tests
