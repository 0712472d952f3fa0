-- ===== src/Target/Endpoints.antt =====
-- pkg/target/endpoint.go.
use proxygw.Prelude.{
  Bool, Text, arith, bool_beq_iff, bool_eq, false, if◌then◌else◌, is_empty, nat_eq, not,
  text_beq_iff, text_eq, true, ◌&&◌, ◌==◌, ◌↔◌, ◌≡◌, ◌⊎◌,
}
use proxygw.Netip.{AddrPort, addr_eq, addr_beq_iff, is4, is_addr, is_unspecified}
use proxygw.Config.Protocol.{Protocol}

pub record Endpoint : Type 0 where
  pub name : Text
  pub address : AddrPort
  pub protocol : Protocol

unfoldable pub is_valid : Endpoint → Bool
is_valid e =
    not (is_empty e.name)
    && is_addr e.address.addr
    && not (e.address.port == 0)
    && not (is_unspecified e.address.addr)

unfoldable pub overlaps : Endpoint → Endpoint → Bool
overlaps this other =
    if this.name == other.name
    then true
    else if not (this.protocol == other.protocol)
    then false
    else if not (is4 this.address.addr == is4 other.address.addr)
    then false
    else if not (this.address.port == other.address.port)
    then false
    else other.address.addr == this.address.addr

-- Two endpoints overlap exactly when they share their name, or their protocol and whole address. An
-- unspecified address is like any other here.
pub endpoint_overlaps_iff :
    (e f : Endpoint)
    → (overlaps e f ≡ true)
      ↔ ((e.name ≡ f.name) ⊎ ((e.protocol ≡ f.protocol) × (e.address ≡ f.address)))
unfolding overlaps
endpoint_overlaps_iff e f = ground (
  arith,
  text_beq_iff e.name f.name,
  bool_beq_iff (is4 e.address.addr) (is4 f.address.addr),
  addr_beq_iff f.address.addr e.address.addr,
)
