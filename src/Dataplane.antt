-- ===== src/Dataplane.antt =====
-- pkg/dataplane: mappings, and what a dataplane and a group of mappings promise.
pub mod Mapping
mod Tests
