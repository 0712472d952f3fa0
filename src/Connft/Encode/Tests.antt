-- ===== src/Connft/Encode/Tests.antt =====
-- Keys of pkg/dataplane/connft/connft_nft_rules.go for two mappings of one source.
use proxygw.Prelude.{arith, refl, ◌≡◌}
use proxygw.Netip.{IsAddrPort, is_unspecified, addr_beq, addr_port_beq}
use proxygw.Config.Protocol.{is_valid, to_string}
use proxygw.Dataplane.Mapping.{Mapping, validate}
use proxygw.Dataplane.Mapping.Overlap.{IsValid, mapping_validate_iff}
use proxygw.Connft.Encode.{compile_set_element}
use proxygw.Connft.Encode.Keys.{key-injective}
use proxygw.Connft.Group.Tests.{web, host}

abbrev moved : Mapping
moved = record web { destination = host 9 9090 }

web-IsValid : IsValid web
unfolding validate is_valid to_string is_unspecified addr_beq addr_port_beq
web-IsValid = (mapping_validate_iff web).0 refl

moved-IsValid : IsValid moved
unfolding validate is_valid to_string is_unspecified addr_beq addr_port_beq
moved-IsValid = (mapping_validate_iff moved).0 refl

source-IsAddrPort : IsAddrPort web.source
source-IsAddrPort = record { bytes = refl; port_bound = omega arith }

key-injective_example : (web.protocol ≡ moved.protocol) × (web.source ≡ moved.source)
unfolding compile_set_element
key-injective_example =
    key-injective web moved web-IsValid moved-IsValid source-IsAddrPort source-IsAddrPort refl refl
