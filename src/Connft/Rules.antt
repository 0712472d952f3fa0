-- ===== src/Connft/Rules.antt =====
-- pkg/dataplane/connft/connft_nft_rules.go, up to defineTimeoutRule: the rules that the dataplane
-- installs, as the expressions of github.com/google/nftables/expr that it writes.
pub mod Machine
pub mod Translate
pub mod Installed
pub mod Mappings
mod Tests
use proxygw.Prelude.{List, Text, [], bool_eq, if◌then◌else◌, nat_eq, text_eq, ℕ, ◌+◌, ◌∷◌}
use proxygw.Netip.{AddrPort, as_slice, is4, is6, is_unspecified}
use proxygw.Connft.Encode.{encode_port}

pub data MetaKey : Type 0 where
  nfproto l4proto : MetaKey

pub data Base : Type 0 where
  network_header transport_header : Base

pub data SetName : Type 0 where
  dnat_specific4 dnat_specific6 dnat_wildcard4 dnat_wildcard6 : SetName

-- A register is its number in linux/netfilter/nf_tables.h; `cmp` is CmpOpEq, `lookup` writes its
-- destination, and `nat` is NATTypeDestNAT with `Specified`.
pub data Expr : Type 0 where
  meta : MetaKey → ℕ → Expr
  cmp : ℕ → List ℕ → Expr
  payload : ℕ → Base → ℕ → ℕ → Expr
  lookup : ℕ → SetName → ℕ → Expr
  nat : ℕ → ℕ → ℕ → Expr
  objref : Text → Expr

-- golang.org/x/sys/unix
abbrev pub nfproto_ipv4 : ℕ
nfproto_ipv4 = 2

abbrev pub nfproto_ipv6 : ℕ
nfproto_ipv6 = 10

abbrev nft_reg_1 : ℕ
nft_reg_1 = 1

abbrev nft_reg_2 : ℕ
nft_reg_2 = 2

abbrev nft_reg_3 : ℕ
nft_reg_3 = 3

-- NFT_REG32_00 is 8.
abbrev nft_reg32 : ℕ → ℕ
nft_reg32 i = 8 + i

pub data Chain : Type 0 where
  preroute_nat_chain input_filter_chain : Chain

pub record Rule : Type 0 where
  pub chain : Chain
  pub exprs : List Expr

-- The four rules of `addDNATRules`, in the order in which they are added.
pub dnat_rules : List Rule
dnat_rules =
    rule (
      meta nfproto nft_reg_1
      ∷ cmp nft_reg_1 (nfproto_ipv4 ∷ [])
      ∷ meta l4proto nft_reg_1
      ∷ payload (nft_reg32 1) transport_header 2 2
      ∷ lookup nft_reg_1 dnat_wildcard4 nft_reg_1
      ∷ nat nfproto_ipv4 nft_reg_1 (nft_reg32 1)
      ∷ [])
    ∷ rule (
        meta nfproto nft_reg_1
        ∷ cmp nft_reg_1 (nfproto_ipv6 ∷ [])
        ∷ meta l4proto nft_reg_1
        ∷ payload (nft_reg32 1) transport_header 2 2
        ∷ lookup nft_reg_1 dnat_wildcard6 nft_reg_1
        ∷ nat nfproto_ipv6 nft_reg_1 (nft_reg32 4)
        ∷ [])
    ∷ rule (
        meta nfproto nft_reg_1
        ∷ cmp nft_reg_1 (nfproto_ipv4 ∷ [])
        ∷ meta l4proto nft_reg_1
        ∷ payload (nft_reg32 1) network_header 16 4
        ∷ payload (nft_reg32 2) transport_header 2 2
        ∷ lookup nft_reg_1 dnat_specific4 nft_reg_1
        ∷ nat nfproto_ipv4 nft_reg_1 (nft_reg32 1)
        ∷ [])
    ∷ rule (
        meta nfproto (nft_reg32 0)
        ∷ cmp (nft_reg32 0) (nfproto_ipv6 ∷ [])
        ∷ meta l4proto (nft_reg32 0)
        ∷ payload (nft_reg32 1) network_header 24 16
        ∷ payload (nft_reg32 5) transport_header 2 2
        ∷ lookup (nft_reg32 0) dnat_specific6 nft_reg_1
        ∷ nat nfproto_ipv6 nft_reg_1 (nft_reg32 4)
        ∷ [])
    ∷ []
  where
    rule : List Expr → Rule
    rule exprs = record { chain = preroute_nat_chain; exprs = exprs }

-- The expressions by which the four timeout rules begin.
match_protocols : ℕ → ℕ → List Expr → List Expr
match_protocols l4_protocol family rest =
    meta l4proto nft_reg_1
    ∷ cmp nft_reg_1 (l4_protocol ∷ [])
    ∷ meta nfproto nft_reg_1
    ∷ cmp nft_reg_1 (family ∷ [])
    ∷ rest

-- Family, offset and length of the destination address in its header.
match_specific : ℕ → ℕ → ℕ → ℕ → AddrPort → Text → List Expr
unfolding match_protocols
match_specific family offset len l4_protocol addr name = match_protocols l4_protocol family (
    payload nft_reg_2 network_header offset len
    ∷ cmp nft_reg_2 (as_slice addr.addr)
    ∷ payload nft_reg_3 transport_header 2 2
    ∷ cmp nft_reg_3 (encode_port addr.port)
    ∷ objref name
    ∷ [])

match_wildcard : ℕ → ℕ → AddrPort → Text → List Expr
unfolding match_protocols
match_wildcard family l4_protocol addr name = match_protocols l4_protocol family (
    payload nft_reg_2 transport_header 2 2
    ∷ cmp nft_reg_2 (encode_port addr.port)
    ∷ objref name
    ∷ [])

pub define_timeout_rule : ℕ → AddrPort → Text → Rule
unfolding match_specific match_wildcard
define_timeout_rule l4_protocol addr name = record {
  chain = input_filter_chain;
  exprs =
      if is6 addr.addr
      then if is_unspecified addr.addr
        then match_wildcard nfproto_ipv6 l4_protocol addr name
        else match_specific nfproto_ipv6 24 16 l4_protocol addr name
      else if is4 addr.addr
      then if is_unspecified addr.addr
        then match_wildcard nfproto_ipv4 l4_protocol addr name
        else match_specific nfproto_ipv4 16 4 l4_protocol addr name
      else [];
}
