-- ===== src/Connft/Rules/Machine.antt =====
-- How the kernel runs the rules of pkg/dataplane/connft/connft_nft_rules.go on a packet: the registers
-- and expressions of nf_tables that they use. It is a description of documented behaviour, against
-- which the rules are read, and models no line of the repository.
use proxygw.Prelude.{
  List, Option, [], bool_eq, if◌then◌else◌, length, ltb, nat_eq, none, some, suc, text_eq, zero, ℕ,
  ◌*◌, ◌++◌, ◌-◌, ◌/◌, ◌==◌, ◌∷◌,
}
use proxygw.Netip.{AddrPort}
use proxygw.Connft.Encode.{encode_map_value}
use proxygw.Connft.Rules.{
  Base, network_header, transport_header, MetaKey, nfproto, l4proto, Expr, meta, cmp, payload,
  lookup, nat, objref, Rule, SetName, dnat_specific4, dnat_specific6, dnat_wildcard4,
  dnat_wildcard6,
}

-- The family, the protocol above it, and the bytes of the two headers by their offset.
pub record Packet : Type 0 where
  pub family : ℕ
  pub l4_proto : ℕ
  pub network : ℕ → ℕ
  pub transport : ℕ → ℕ

-- The registers: words of four bytes. NFT_REG_1 to NFT_REG_4 are four words each.
abbrev pub Registers : Type 0
Registers = ℕ → List ℕ

unfoldable pub word : ℕ → ℕ
word reg = if ltb reg 8 then 4 * (reg - 1) else reg - 8

abbrev set_word : ℕ → List ℕ → Registers → Registers
set_word w bytes r v = if v == w then bytes else r v

-- A write fills whole words, the last one with zeros.
unfoldable pub store : ℕ → List ℕ → Registers → Registers
store w [] r = r
store w (a ∷ []) r = set_word w (a ∷ 0 ∷ 0 ∷ 0 ∷ []) r
store w (a ∷ b ∷ []) r = set_word w (a ∷ b ∷ 0 ∷ 0 ∷ []) r
store w (a ∷ b ∷ c ∷ []) r = set_word w (a ∷ b ∷ c ∷ 0 ∷ []) r
store w (a ∷ b ∷ c ∷ d ∷ bytes) r = store (suc w) bytes (set_word w (a ∷ b ∷ c ∷ d ∷ []) r)

unfoldable pub load : ℕ → ℕ → Registers → List ℕ
load zero w r = []
load (suc n) w r = r w ++ load n (suc w) r

unfoldable pub prefix : ℕ → List ℕ → List ℕ
prefix zero xs = []
prefix (suc n) [] = []
prefix (suc n) (x ∷ xs) = x ∷ prefix n xs

unfoldable pub bytes_at : ℕ → ℕ → (ℕ → ℕ) → List ℕ
bytes_at zero offset header = []
bytes_at (suc n) offset header = header offset ∷ bytes_at n (suc offset) header

abbrev header_of : Base → Packet → ℕ → ℕ
header_of network_header p = p.network
header_of transport_header p = p.transport

abbrev meta_of : MetaKey → Packet → ℕ
meta_of nfproto p = p.family
meta_of l4proto p = p.l4_proto

-- The words of a key of the map.
abbrev key_words : SetName → ℕ
key_words dnat_specific4 = 3
key_words dnat_specific6 = 6
key_words dnat_wildcard4 = 2
key_words dnat_wildcard6 = 2

-- The bytes of an address of the family.
abbrev pub addr_bytes : ℕ → ℕ
addr_bytes family = if family == 2 then 4 else 16

-- The kernel's maps, whose values are destinations.
abbrev pub Maps : Type 0
Maps = SetName → List ℕ → Option AddrPort

-- The address and the port that a rule gives the packet; `none` where an expression breaks it off.
unfoldable pub run_exprs : Maps → Packet → List Expr → Registers → Option (List ℕ × List ℕ)
unfolding word store load prefix bytes_at
run_exprs maps p [] r = none
run_exprs maps p (meta key reg ∷ es) r =
    run_exprs maps p es (store (word reg) (meta_of key p ∷ []) r)
run_exprs maps p (cmp reg bytes ∷ es) r =
    let rest = run_exprs maps p es r in
    let n = length bytes in
    if prefix n (load (suc (n / 4)) (word reg) r) == bytes then rest else none
run_exprs maps p (payload reg base offset len ∷ es) r =
    run_exprs maps p es (store (word reg) (bytes_at len offset (header_of base p)) r)
run_exprs maps p (lookup src set dst ∷ es) r = elim (maps set (load (key_words set) (word src) r)) [
  | none ↦ none
  | some d ↦ run_exprs maps p es (store (word dst) (encode_map_value d) r)
]
run_exprs maps p (nat family addr port ∷ es) r =
    some (prefix (addr_bytes family) (load 4 (word addr) r), prefix 2 (load 1 (word port) r))
run_exprs maps p (objref name ∷ es) r = run_exprs maps p es r

-- A chain's rules in their order; the first that translates ends it.
unfoldable pub run_rules : Maps → Packet → List Rule → Option (List ℕ × List ℕ)
unfolding run_exprs
run_rules maps p [] = none
run_rules maps p (rule ∷ rules) = elim (run_exprs maps p rule.exprs (λ w. 0 ∷ 0 ∷ 0 ∷ 0 ∷ [])) [
  | some t ↦ some t
  | none ↦ run_rules maps p rules
]
