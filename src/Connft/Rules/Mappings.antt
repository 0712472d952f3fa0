-- ===== src/Connft/Rules/Mappings.antt =====
-- What the rules of addDNATRules of pkg/dataplane/connft/connft_nft_rules.go make of a packet for which
-- there is a mapping.
use proxygw.Prelude.{
  Bool-cases, In, List, ap, arith, false, inl, inr, none, refl, some, subst, sym, true, ℕ, ◌∙◌, ◌≡◌,
  ◌≢◌,
}
use proxygw.Netip.{Addr, AddrPort, invalid, v4, v6, as_slice, is4, is6, is_unspecified}
use proxygw.Dataplane.Mapping.{Mapping}
use proxygw.Dataplane.Mapping.Overlap.{overlaps_iff}
use proxygw.Connft.Encode.{
  compile_set_element, encode_wildcard_key, encode_specific_key, encode_port,
}
use proxygw.Connft.Encode.Keys.{key-injective, wildcard_key-injective}
use proxygw.Connft.Nft.{set_of}
use proxygw.Connft.Rules.{SetName, dnat_rules}
use proxygw.Connft.Rules.Machine.{Packet, run_rules}
use proxygw.Connft.Rules.Translate.{Heads, wildcard_set, specific_set, target_of, dnat_rules_lem}
use proxygw.Connft.Rules.Installed.{
  HasKey, installed, installed-cases, installed-Fits, Table, Covers,
}

set_of-unspecified :
    (a b : Addr)
    → b ≢ invalid
    → is6 b ≡ is6 a
    → is_unspecified b ≡ true
    → set_of b ≡ some (wildcard_set a)
unfolding set_of
set_of-unspecified a invalid n f u = absurd (n refl)
set_of-unspecified a (v4 b) n f u = ground arith
set_of-unspecified a (v6 b z) n f u = ground arith

set_of-specified :
    (b : Addr) → b ≢ invalid → is_unspecified b ≡ false → set_of b ≡ some (specific_set b)
unfolding set_of
set_of-specified invalid n u = absurd (n refl)
set_of-specified (v4 b) n u = ground arith
set_of-specified (v6 b z) n u = ground arith

-- A mapping in the wildcard map has an unspecified source.
wildcard-unspecified :
    (a b : Addr) → set_of b ≡ some (wildcard_set a) → (is_unspecified b ≡ true) × (is6 b ≡ is6 a)
unfolding set_of
wildcard-unspecified a invalid h = absurd (ground arith)
wildcard-unspecified a (v4 b) h = ground arith
wildcard-unspecified a (v6 b z) h = ground arith

is4_of : (a b : Addr) → a ≢ invalid → b ≢ invalid → is6 a ≡ is6 b → is4 a ≡ is4 b
is4_of invalid b n k h = absurd (n refl)
is4_of a invalid n k h = absurd (k refl)
is4_of (v4 a) (v4 b) n k h = refl
is4_of (v4 a) (v6 b z) n k h = absurd (ground arith)
is4_of (v6 a z) (v4 b) n k h = absurd (ground arith)
is4_of (v6 a z) (v6 b w) n k h = refl

module _ (ms : List Mapping) (t : Table ms) (m : Mapping) (i : In m ms) where
  -- The element of the mapping is the one that its map has under its key.
  installed-own :
      (set : SetName) (key : List ℕ) → HasKey set key m → installed ms set key ≡ some m.destination
  installed-own set key (s, k) = elim (installed-cases ms set key) [
    | inl (e, f) ↦ absurd (f m i (s, k))
    | inr (n, j, (s', k'), e) ↦
        let (p, q) =
          key-injective m n (t.valid m i) (t.valid n j) (t.sources m i) (t.sources n j) (s ∙ sym s')
            (k ∙ sym k') in
        let same = t.apart m n i j ((overlaps_iff m n).1 (p, ap (λ x. is4 x.addr) q, inl q)) in
        e ∙ ap (λ x. some x.destination) (sym same)
  ]

  unspecified-HasKey :
      (a : AddrPort)
      → m.source.port ≡ a.port
      → is6 m.source.addr ≡ is6 a.addr
      → is_unspecified m.source.addr ≡ true
      → HasKey (wildcard_set a.addr) (encode_wildcard_key m.protocol a.port) m
  unfolding compile_set_element
  unspecified-HasKey a p f u =
      (set_of-unspecified a.addr m.source.addr (t.valid m i).source_addressed f u, rw (u, p) refl)

  specified-HasKey :
      is_unspecified m.source.addr ≡ false
      → HasKey (specific_set m.source.addr) (encode_specific_key m.protocol m.source) m
  unfolding compile_set_element
  specified-HasKey u = (set_of-specified m.source.addr (t.valid m i).source_addressed u, rw u refl)

  -- No wildcard mapping stands beside a specified one of its port.
  no_wildcard :
      is_unspecified m.source.addr ≡ false
      → installed ms (wildcard_set m.source.addr) (encode_wildcard_key m.protocol m.source.port)
        ≡ none
  unfolding compile_set_element
  no_wildcard u =
      elim (installed-cases ms (wildcard_set m.source.addr)
        (encode_wildcard_key m.protocol m.source.port)) [
          | inl (e, f) ↦ e
          | inr (n, j, (s, k), e) ↦
              let (w, f) = wildcard-unspecified m.source.addr n.source.addr s in
              let (p, q) =
                wildcard_key-injective n.protocol m.protocol n.source.port m.source.port
                  (t.sources n j).port_bound (t.sources m i).port_bound (ground (arith, k, w)) in
              let family =
                is4_of m.source.addr n.source.addr (t.valid m i).source_addressed
                  (t.valid n j).source_addressed (sym f) in
              let same =
                t.apart m n i j
                  ((overlaps_iff m n).1 (sym p, family, inr (inr (inr (inr (sym q, inr w)))))) in
              absurd (ground (arith, u, w, ap (λ x. is_unspecified x.source.addr) same))
        ]

  -- A packet to the source of a specified mapping.
  specified_translates :
      (p : Packet)
      → Heads p m.source
      → m.protocol ≡ p.l4_proto
      → is_unspecified m.source.addr ≡ false
      → run_rules (installed ms) p dnat_rules ≡ target_of (some m.destination)
  specified_translates p h q u =
      let wild = no_wildcard u in
      let own =
        installed-own (specific_set m.source.addr) (encode_specific_key m.protocol m.source)
          (specified-HasKey u) in
      dnat_rules_lem (installed ms) p m.source (installed-Fits ms t) h ∙ rw (sym q, wild, own) refl

  -- With the elements of mappings that stand together in the maps, a packet that a mapping covers
  -- gets the mapping's destination.
  pub mappings_translate :
      (p : Packet) (a : AddrPort)
      → Heads p a
      → Covers p.l4_proto a m
      → run_rules (installed ms) p dnat_rules
        ≡ some (as_slice m.destination.addr, encode_port m.destination.port)
  mappings_translate p a h c = elim (Bool-cases (is_unspecified m.source.addr)) [
    | inl u ↦
        let own =
          installed-own (wildcard_set a.addr) (encode_wildcard_key m.protocol a.port)
            (unspecified-HasKey a c.same_port c.same_family u) in
        dnat_rules_lem (installed ms) p a (installed-Fits ms t) h
        ∙ rw (sym c.same_protocol, own) refl
    | inr u ↦
        let source : m.source ≡ a = ground (arith, c.same_addr, c.same_port, u) in
        specified_translates p (subst (λ x. Heads p x) (sym source) h) c.same_protocol u
  ]
