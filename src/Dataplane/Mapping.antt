-- ===== src/Dataplane/Mapping.antt =====
-- pkg/dataplane/mapping.go: which host address forwards to which target address.
pub mod Overlap
use proxygw.Prelude.{
  Bool, Option, bool_eq, false, if◌then◌else◌, is_empty, nat_eq, none, not, some, text_eq, true,
  ◌&&◌, ◌==◌, ◌||◌,
}
use proxygw.Netip.{AddrPort, addr_port_eq, is4, is6, is_addr, is_unspecified, zone}
use proxygw.Config.Protocol.{Protocol, is_valid}
use proxygw.Config.Ttl.{Ttl}

pub record Mapping : Type 0 where
  pub source : AddrPort
  pub destination : AddrPort
  pub timeout : Ttl
  pub protocol : Protocol

-- What is wrong with a mapping; the code's messages also show the mapping.
pub data Invalid : Type 0 where
  invalid_protocol invalid_source invalid_destination source_port destination_port : Invalid
  source_zone destination_zone destination_unspecified mixed_families same_address : Invalid

unfoldable pub validate : Mapping → Option Invalid
validate m =
    if not (is_valid m.protocol)
    then some invalid_protocol
    else if not (is_addr m.source.addr)
    then some invalid_source
    else if not (is_addr m.destination.addr)
    then some invalid_destination
    else if m.source.port == 0
    then some source_port
    else if m.destination.port == 0
    then some destination_port
    else if not (is_empty (zone m.source.addr))
    then some source_zone
    else if not (is_empty (zone m.destination.addr))
    then some destination_zone
    else if is_unspecified m.destination.addr
    then some destination_unspecified
    else if (is6 m.source.addr && is4 m.destination.addr)
        || (is4 m.source.addr && is6 m.destination.addr)
    then some mixed_families
    else if m.source == m.destination
    then some same_address
    else none

unfoldable pub overlaps : Mapping → Mapping → Bool
overlaps m other =
    if not (m.protocol == other.protocol)
    then false
    else if not (is4 m.source.addr == is4 other.source.addr)
    then false
    else if m.source == other.source || m.source == other.destination
    then true
    else if m.destination == other.destination || m.destination == other.source
    then true
    else if not (m.source.port == other.source.port)
    then false
    else if is_unspecified m.source.addr || is_unspecified other.source.addr
    then true
    else false
