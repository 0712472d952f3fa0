-- ===== src/Connft.antt =====
-- pkg/dataplane/connft: the dataplane over nftables and conntrack.
pub mod Encode
pub mod Rules
pub mod Nft
pub mod State
pub mod Group
pub mod Stale
