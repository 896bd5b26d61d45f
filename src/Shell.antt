-- ===== src/Shell.antt =====
-- parser/shell: word splitting and variable expansion.
pub mod Env
pub mod Words
pub mod Lex
pub mod Quote
pub mod Fuel
mod Unroll
pub mod Expand
pub mod Modifiers
mod Tests
