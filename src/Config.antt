-- ===== src/Config.antt =====
-- The configuration document of pkg/config: its scalar types, and the document with its checks.
pub mod Protocol
pub mod Ttl
pub mod Namespace
pub mod Document
pub mod Tests
