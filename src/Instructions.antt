-- ===== src/Instructions.antt =====
-- parser/instructions: typed instructions and build stages from the trees of the parser.
pub mod Error
pub mod Flags
pub mod Numbers
pub mod Mount
pub mod Commands
pub mod Request
pub mod Parsing
pub mod Stages
pub mod Assignments
pub mod Expand
mod Examples
