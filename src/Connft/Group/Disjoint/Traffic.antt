-- ===== src/Connft/Group/Disjoint/Traffic.antt =====
-- What the kernel makes of packets when its maps hold mappings of a dataplane of
-- pkg/dataplane/connft, after any calls on it and its groups.
use proxygw.Prelude.{In, List, arith, bool_eq, lookup, nat_eq, some, text_eq, ℕ, ◌≡◌}
use proxygw.Netip.{AddrPort, IsAddr, IsAddrPort, as_slice}
use proxygw.Dataplane.Mapping.{Mapping}
use proxygw.Connft.Encode.{encode_port}
use proxygw.Connft.Nft.{Nft, DnatKey, dnat_key_eq}
use proxygw.Connft.State.{Connft}
use proxygw.Connft.Rules.{dnat_rules}
use proxygw.Connft.Rules.Machine.{Packet, run_rules}
use proxygw.Connft.Rules.Translate.{Heads}
use proxygw.Connft.Rules.Installed.{installed, Table, Covers}
use proxygw.Connft.Rules.Mappings.{mappings_translate}
use proxygw.Connft.Group.Disjoint.{IsLive}
use proxygw.Connft.Group.Disjoint.History.{Reach, connft_coherent}

-- An open group holds the mapping.
abbrev pub Held : {Conn : Type 0} → Connft Conn → Mapping → Type 0
Held d m = (i : ℕ) × (k : DnatKey) × IsLive d i × (lookup k (d.store i).mappings_by_src ≡ some m)

-- The mapping's addresses have as many bytes as Go's, and its ports are of 16 bits.
abbrev pub IsSized : Mapping → Type 0
IsSized m = IsAddrPort m.source × IsAddr m.destination.addr

module _ (nft : Nft) where
  open nft use {Conn}

  Held-Table :
      {d : Connft Conn} (ms : List Mapping)
      → Reach nft d
      → ((m : Mapping) → In m ms → Held d m × IsSized m)
      → Table ms
  Held-Table {d} ms r held = record {
    valid = λ m i.
        let ((g, k, live, at), _) = held m i in
        ((connft_coherent nft r).sync g live.0).valid k m at;
    sources = λ m i. (held m i).1.0;
    destinations = λ m i. (held m i).1.1;
    apart = λ m n i j o.
        let ((g, k, live_g, at_g), _) = held m i in
        let ((h, l, live_h, at_h), _) = held n j in
        let (e, f) = (connft_coherent nft r).apart g h k l m n live_g live_h at_g at_h o in
        ground (arith, e, f, at_g, at_h);
  }

  -- Let the kernel's maps hold the elements of any mappings that open groups of a dataplane hold,
  -- after any calls on it. A packet that one of them covers then gets that mapping's destination.
  pub dataplane_translates :
      {d : Connft Conn} (ms : List Mapping) (m : Mapping) (p : Packet) (a : AddrPort)
      → Reach nft d
      → ((n : Mapping) → In n ms → Held d n × IsSized n)
      → In m ms
      → Heads p a
      → Covers p.l4_proto a m
      → run_rules (installed ms) p dnat_rules
        ≡ some (as_slice m.destination.addr, encode_port m.destination.port)
  dataplane_translates ms m p a r held i h c =
      mappings_translate ms (Held-Table ms r held) m i p a h c
