-- ===== src/Builder.antt =====
-- builder: the options of a build, as the frontend reads them.
pub mod Options
mod Tests
