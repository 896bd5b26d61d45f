-- ===== src/Convert.antt =====
-- dockerfile2llb: the pure parts of the conversion of a Dockerfile into LLB.
pub mod Error
pub mod Platform
pub mod States
pub mod Environment
pub mod Wildcards
pub mod Image
pub mod Messages
pub mod Graph
pub mod Dispatch
pub mod Stages
pub mod Syntax
pub mod Context
pub mod Target
mod Examples
