-- ===== src/Dataplane/Mapping/Overlap.antt =====
-- What `Overlaps` decides, for the mappings that `Validate` accepts.
use proxygw.Prelude.{
  Bool, [], arith, bool_beq_iff, bool_eq, eq_comm, false, if◌then◌else◌, is_empty_iff, nat_eq, none,
  not, text_eq, true, ◌==◌, ◌||◌, ◌↔◌, ◌≡◌, ◌≢◌, ◌⊎◌,
}
use proxygw.Netip.{addr_port_eq, addr_port_beq_iff, is4, invalid, is_unspecified, zone}
use proxygw.Config.Protocol.{is_valid_iff, tcp, udp}
use proxygw.Dataplane.Mapping.{Mapping, validate, overlaps}

-- The tests of `Overlaps` in its order.
abbrev ladder : Bool → Bool → Bool → Bool → Bool → Bool → Bool → Bool → Bool → Bool
ladder protocol family ss sd dd ds port wild other =
    if not protocol
    then false
    else if not family
    then false
    else if ss || sd
    then true
    else if dd || ds
    then true
    else if not port
    then false
    else if wild || other
    then true
    else false

ladder-swap :
    (p f ss sd dd ds q v w : Bool) → ladder p f ss sd dd ds q v w ≡ ladder p f ss ds dd sd q w v
ladder-swap p f ss sd dd ds q v w = ground arith

-- Overlaps answers the same for two mappings in either order.
pub overlaps_comm : (m n : Mapping) → overlaps m n ≡ overlaps n m
unfolding overlaps
overlaps_comm m n =
    rw
      (
        eq_comm m.protocol n.protocol,
        eq_comm (is4 m.source.addr) (is4 n.source.addr),
        eq_comm m.source n.source,
        eq_comm m.source n.destination,
        eq_comm m.destination n.destination,
        eq_comm m.destination n.source,
        eq_comm m.source.port n.source.port,
      )
      (ladder-swap (n.protocol == m.protocol) (is4 n.source.addr == is4 m.source.addr)
        (n.source == m.source) (n.destination == m.source) (n.destination == m.destination)
        (n.source == m.destination) (n.source.port == m.source.port) (is_unspecified m.source.addr)
        (is_unspecified n.source.addr))

-- What the code means by an overlap of two mappings of one protocol and family.
abbrev pub Clash : Mapping → Mapping → Type 0
Clash m n =
    (m.source ≡ n.source)
    ⊎ (m.source ≡ n.destination)
    ⊎ (m.destination ≡ n.destination)
    ⊎ (m.destination ≡ n.source)
    ⊎ ((m.source.port ≡ n.source.port)
        × ((is_unspecified m.source.addr ≡ true) ⊎ (is_unspecified n.source.addr ≡ true)))

-- Two mappings overlap exactly if they have one protocol and their sources one family, and the
-- source or destination of one is the source or destination of the other, or they share the
-- source's port and one of the sources is unspecified.
pub overlaps_iff :
    (m n : Mapping)
    → (overlaps m n ≡ true)
      ↔ ((m.protocol ≡ n.protocol) × (is4 m.source.addr ≡ is4 n.source.addr) × Clash m n)
unfolding overlaps
overlaps_iff m n = ground (
  arith,
  addr_port_beq_iff m.source n.source,
  addr_port_beq_iff m.source n.destination,
  addr_port_beq_iff m.destination n.destination,
  addr_port_beq_iff m.destination n.source,
  bool_beq_iff (is4 m.source.addr) (is4 n.source.addr),
)

pub record IsValid (m : Mapping) : Type 0 where
  pub protocol_known : (m.protocol ≡ tcp) ⊎ (m.protocol ≡ udp)
  pub source_addressed : m.source.addr ≢ invalid
  pub destination_addressed : m.destination.addr ≢ invalid
  pub source_port : m.source.port ≢ 0
  pub destination_port : m.destination.port ≢ 0
  pub source_zone : zone m.source.addr ≡ []
  pub destination_zone : zone m.destination.addr ≡ []
  pub destination_specified : is_unspecified m.destination.addr ≡ false
  pub one_family : is4 m.source.addr ≡ is4 m.destination.addr
  pub distinct : m.source ≢ m.destination

-- Validate accepts a mapping exactly when it is of TCP or UDP, its two addresses are there, of
-- one family and without a zone, its ports are not 0, its destination is specified, and source
-- and destination differ.
pub mapping_validate_iff : (m : Mapping) → (validate m ≡ none) ↔ IsValid m
unfolding validate
mapping_validate_iff m = ground (
  arith,
  is_valid_iff m.protocol,
  is_empty_iff (zone m.source.addr),
  is_empty_iff (zone m.destination.addr),
  addr_port_beq_iff m.source m.destination,
)
