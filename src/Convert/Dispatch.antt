-- ===== src/Convert/Dispatch.antt =====
-- dockerfile2llb: what each command does to the state of its stage.
pub mod State
pub mod Config
pub mod Flags
pub mod Mounts
pub mod Copy
pub mod Run
pub mod Step
pub mod Effects
pub mod Plain
pub mod Rules
pub mod Kinds
pub mod Stage
pub mod Urls
pub mod Triggers
mod Tests
