-- ===== src/Ctl.antt =====
-- plugin/ctl: the plugin by which control clients ask for the state of the engine.
pub mod Sorting
pub mod Status
pub mod Serve
mod Tests
