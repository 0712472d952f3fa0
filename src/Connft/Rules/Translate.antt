-- ===== src/Connft/Rules/Translate.antt =====
-- What addDNATRules of pkg/dataplane/connft/connft_nft_rules.go makes of a packet.
use proxygw.Prelude.{
  List, Option, Option-cases, Text, [], ap, if◌then◌else◌, inl, inr, length, none, refl, some,
  subst, suc, sym, zero, ℕ, ◌∙◌, ◌∷◌, ◌≡◌,
}
use proxygw.Netip.{Addr, AddrPort, v4, v6, as_slice, is6}
use proxygw.Connft.Encode.{
  encode_port, encode_wildcard_key, encode_specific_key, encode_map_value, append_concat_field,
}
use proxygw.Connft.Rules.{
  SetName, dnat_specific4, dnat_specific6, dnat_wildcard4, dnat_wildcard6, dnat_rules, nfproto_ipv4,
  nfproto_ipv6,
}
use proxygw.Connft.Rules.Machine.{
  Packet, Maps, run_rules, run_exprs, bytes_at, store, load, word, prefix,
}

-- The packet goes to the address and the port.
pub data Heads (p : Packet) : AddrPort → Type 0 where
  heads4 :
      (b : List ℕ) (port : ℕ)
      → p.family ≡ nfproto_ipv4
      → bytes_at 4 16 p.network ≡ b
      → bytes_at 2 2 p.transport ≡ encode_port port
      → Heads p (record { addr = v4 b; port = port })
  heads6 :
      (b : List ℕ) (z : Text) (port : ℕ)
      → p.family ≡ nfproto_ipv6
      → bytes_at 16 24 p.network ≡ b
      → bytes_at 2 2 p.transport ≡ encode_port port
      → Heads p (record { addr = v6 b z; port = port })

abbrev pub wildcard_set : Addr → SetName
wildcard_set a = if is6 a then dnat_wildcard6 else dnat_wildcard4

abbrev pub specific_set : Addr → SetName
specific_set a = if is6 a then dnat_specific6 else dnat_specific4

-- The wildcard entry, or else the specific one.
abbrev pub wildcard_first : Option AddrPort → Option AddrPort → Option AddrPort
wildcard_first none s = s
wildcard_first (some d) s = some d

abbrev pub target_of : Option AddrPort → Option (List ℕ × List ℕ)
target_of none = none
target_of (some d) = some (as_slice d.addr, encode_port d.port)

abbrev pub address_bytes : SetName → ℕ
address_bytes dnat_specific4 = 4
address_bytes dnat_wildcard4 = 4
address_bytes dnat_specific6 = 16
address_bytes dnat_wildcard6 = 16

-- Every value has the bytes of its map's type.
abbrev pub Fits : Maps → Type 0
Fits maps =
    (set : SetName) (key : List ℕ) (d : AddrPort)
    → maps set key ≡ some d
    → length (as_slice d.addr) ≡ address_bytes set

-- A list is what a function gives at its places.
bytes_at-suc :
    (n offset : ℕ) (f : ℕ → ℕ) → bytes_at n (suc offset) f ≡ bytes_at n offset (λ i. f (suc i))
unfolding bytes_at
bytes_at-suc zero offset f = refl
bytes_at-suc (suc n) offset f = rw (bytes_at-suc n (suc offset) f) refl

nth : List ℕ → ℕ → ℕ
nth [] i = 0
nth (x ∷ xs) zero = x
nth (x ∷ xs) (suc i) = nth xs i

bytes_at-nth : (xs : List ℕ) → xs ≡ bytes_at (length xs) 0 (nth xs)
unfolding bytes_at nth
bytes_at-nth [] = refl
bytes_at-nth (x ∷ xs) =
    ap (λ r. x ∷ r) (bytes_at-nth xs ∙ sym (bytes_at-suc (length xs) 0 (nth (x ∷ xs))))

bytes_of :
    (n : ℕ) (d : AddrPort)
    → length (as_slice d.addr) ≡ n
    → as_slice d.addr ≡ bytes_at n 0 (nth (as_slice d.addr))
bytes_of n d h =
    subst (λ m. as_slice d.addr ≡ bytes_at m 0 (nth (as_slice d.addr))) h
      (bytes_at-nth (as_slice d.addr))

module _ (maps : Maps) (l4 : ℕ) (network transport : ℕ → ℕ) where
  abbrev packet4 : Packet
  packet4 = record {
    family = nfproto_ipv4;
    l4_proto = l4;
    network = network;
    transport = transport;
  }

  -- The keys that the rules look up.
  abbrev wild4 : Option AddrPort
  wild4 =
      maps dnat_wildcard4
        (append_concat_field (append_concat_field [] (l4 ∷ [])) (bytes_at 2 2 transport))

  abbrev specific4 : Option AddrPort
  specific4 = maps dnat_specific4 (
      append_concat_field
        (append_concat_field (append_concat_field [] (l4 ∷ [])) (bytes_at 4 16 network))
        (bytes_at 2 2 transport))

  run4-wild :
      (d : AddrPort)
      → wild4 ≡ some d
      → length (as_slice d.addr) ≡ 4
      → run_rules maps packet4 dnat_rules ≡ target_of (some d)
  unfolding run_rules run_exprs bytes_at store load word prefix dnat_rules encode_map_value
      append_concat_field encode_port
  run4-wild d h e = rw (h, bytes_of 4 d e) refl

  run4-specific :
      (d : AddrPort)
      → wild4 ≡ none
      → specific4 ≡ some d
      → length (as_slice d.addr) ≡ 4
      → run_rules maps packet4 dnat_rules ≡ target_of (some d)
  unfolding run_rules run_exprs bytes_at store load word prefix dnat_rules encode_map_value
      append_concat_field encode_port
  run4-specific d h k e = rw (h, k, bytes_of 4 d e) refl

  run4-none : wild4 ≡ none → specific4 ≡ none → run_rules maps packet4 dnat_rules ≡ none
  unfolding run_rules run_exprs bytes_at store load word prefix dnat_rules append_concat_field
  run4-none h k = rw (h, k) refl

  abbrev packet6 : Packet
  packet6 = record {
    family = nfproto_ipv6;
    l4_proto = l4;
    network = network;
    transport = transport;
  }

  -- The keys that the rules look up.
  abbrev wild6 : Option AddrPort
  wild6 =
      maps dnat_wildcard6
        (append_concat_field (append_concat_field [] (l4 ∷ [])) (bytes_at 2 2 transport))

  abbrev specific6 : Option AddrPort
  specific6 = maps dnat_specific6 (
      append_concat_field
        (append_concat_field (append_concat_field [] (l4 ∷ [])) (bytes_at 16 24 network))
        (bytes_at 2 2 transport))

  run6-wild :
      (d : AddrPort)
      → wild6 ≡ some d
      → length (as_slice d.addr) ≡ 16
      → run_rules maps packet6 dnat_rules ≡ target_of (some d)
  unfolding run_rules run_exprs bytes_at store load word prefix dnat_rules encode_map_value
      append_concat_field encode_port
  run6-wild d h e = rw (h, bytes_of 16 d e) refl

  run6-specific :
      (d : AddrPort)
      → wild6 ≡ none
      → specific6 ≡ some d
      → length (as_slice d.addr) ≡ 16
      → run_rules maps packet6 dnat_rules ≡ target_of (some d)
  unfolding run_rules run_exprs bytes_at store load word prefix dnat_rules encode_map_value
      append_concat_field encode_port
  run6-specific d h k e = rw (h, k, bytes_of 16 d e) refl

  run6-none : wild6 ≡ none → specific6 ≡ none → run_rules maps packet6 dnat_rules ≡ none
  unfolding run_rules run_exprs bytes_at store load word prefix dnat_rules append_concat_field
  run6-none h k = rw (h, k) refl

  run4 : Fits maps → run_rules maps packet4 dnat_rules ≡ target_of (wildcard_first wild4 specific4)
  run4 fits = elim (Option-cases wild4) [
    | inr (d, h) ↦ rw h (run4-wild d h (fits dnat_wildcard4 _ d h))
    | inl h ↦ elim (Option-cases specific4) [
      | inr (d, k) ↦ rw (h, k) (run4-specific d h k (fits dnat_specific4 _ d k))
      | inl k ↦ rw (h, k) (run4-none h k)
    ]
  ]

  run6 : Fits maps → run_rules maps packet6 dnat_rules ≡ target_of (wildcard_first wild6 specific6)
  run6 fits = elim (Option-cases wild6) [
    | inr (d, h) ↦ rw h (run6-wild d h (fits dnat_wildcard6 _ d h))
    | inl h ↦ elim (Option-cases specific6) [
      | inr (d, k) ↦ rw (h, k) (run6-specific d h k (fits dnat_specific6 _ d k))
      | inl k ↦ rw (h, k) (run6-none h k)
    ]
  ]

-- The rules of addDNATRules, on a packet that goes to an address and a port: it gets the destination
-- that the wildcard map of the address's family holds under encodeWildcardKey of the port, or else the
-- one that the specific map holds under encodeSpecificKey of address and port, each key with the
-- packet's protocol; and it is left as it is where neither map has an entry.
pub dnat_rules_lem :
    (maps : Maps) (p : Packet) (a : AddrPort)
    → Fits maps
    → Heads p a
    → run_rules maps p dnat_rules
      ≡ target_of (
          wildcard_first
            (maps (wildcard_set a.addr) (encode_wildcard_key p.l4_proto a.port))
            (maps (specific_set a.addr) (encode_specific_key p.l4_proto a)))
unfolding encode_wildcard_key encode_specific_key
dnat_rules_lem maps p _ fits (heads4 b port f n t) =
    rw (sym n, sym t, f) (run4 maps p.l4_proto p.network p.transport fits)
dnat_rules_lem maps p _ fits (heads6 b z port f n t) =
    rw (sym n, sym t, f) (run6 maps p.l4_proto p.network p.transport fits)
