-- ===== src/Dataplane/Tests.antt =====
-- Mappings of pkg/dataplane/mapping.go that share a wildcard port.
use proxygw.Prelude.{[], true, ◌↔◌, ◌∷◌, ◌≡◌}
use proxygw.Netip.{v4, unspecified4, is4}
use proxygw.Config.Protocol.{tcp}
use proxygw.Dataplane.Mapping.{Mapping, overlaps}
use proxygw.Dataplane.Mapping.Overlap.{Clash, overlaps_iff}

abbrev wild : Mapping
wild = record {
  source = record { addr = unspecified4; port = 80 };
  destination = record { addr = v4 (10 ∷ 0 ∷ 0 ∷ 2 ∷ []); port = 8080 };
  timeout = 60;
  protocol = tcp;
}

abbrev narrow : Mapping
narrow = record wild {
  source = record { addr = v4 (10 ∷ 0 ∷ 0 ∷ 1 ∷ []); port = 80 };
  destination = record { addr = v4 (10 ∷ 0 ∷ 0 ∷ 3 ∷ []); port = 8080 };
}

overlaps_iff_example : (overlaps wild narrow ≡ true) ↔ (
    (wild.protocol ≡ narrow.protocol)
    × (is4 wild.source.addr ≡ is4 narrow.source.addr)
    × Clash wild narrow)
overlaps_iff_example = overlaps_iff wild narrow
