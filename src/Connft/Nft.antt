-- ===== src/Connft/Nft.antt =====
-- pkg/dataplane/connft/connft_nft.go: what a group asks of the kernel. The connection of
-- github.com/google/nftables, not part of the repository, is a parameter.
use proxygw.Prelude.{
  Bool, Dict, Eq, List, Option, Text, [], arith, bool_eq, delete, false, if◌then◌else◌, insert,
  lookup, map, nat_beq_iff, nat_eq, none, some, text_eq, true, ℕ, ◌&&◌, ◌==◌, ◌↔◌, ◌∷◌, ◌≡◌,
}
use proxygw.Netip.{Addr, AddrPort, addr_port_eq, addr_port_beq_iff, is4, is6, is_unspecified}
use proxygw.Config.Protocol.{Protocol}
use proxygw.Config.Ttl.{Ttl}
use proxygw.Dataplane.Mapping.{Mapping}
use proxygw.Connft.Encode.{SetElement, compile_set_element, encode_timeout_obj_name}
use proxygw.Connft.Rules.{
  SetName, dnat_specific4, dnat_specific6, dnat_wildcard4, dnat_wildcard6, Rule,
  define_timeout_rule, nfproto_ipv4, nfproto_ipv6,
}

-- An error of the connection: unix.ENOENT, or any other.
pub data Errno : Type 0 where
  enoent : Errno
  other : ℕ → Errno

pub data CtState : Type 0 where
  udp_unreplied udp_replied tcp_established tcp_fin_wait : CtState
  tcp_time_wait tcp_close_wait tcp_last_ack tcp_close : CtState

-- nftables.NamedObj with its expr.CtTimeout.
pub record TimeoutObj : Type 0 where
  pub name : Text
  pub l3_proto : ℕ
  pub l4_proto : ℕ
  pub policy : List (CtState × Ttl)

-- *nftables.Conn: each operation yields the connection after it, with its error.
pub record Nft : Type 1 where
  pub Conn : Type 0
  pub set_add_elements : SetName → SetElement → Conn → Conn × Option Errno
  pub set_delete_elements : SetName → SetElement → Conn → Conn × Option Errno
  pub add_obj : TimeoutObj → Conn → Conn
  pub delete_object : TimeoutObj → Conn → Conn
  pub add_rule : Rule → Conn → Conn
  pub del_rule : Rule → Conn → Conn × Option Errno
  pub del_table : Conn → Conn
  pub flush : Conn → Conn × Option Errno

-- dnatKey
pub record DnatKey : Type 0 where
  pub addr : AddrPort
  pub proto : Protocol

unfoldable pub dnat_key_beq : DnatKey → DnatKey → Bool
dnat_key_beq a b = (a.addr == b.addr) && (a.proto == b.proto)

pub dnat_key_beq_iff : (a b : DnatKey) → (dnat_key_beq a b ≡ true) ↔ (a ≡ b)
unfolding dnat_key_beq
dnat_key_beq_iff a b = ground (arith, addr_port_beq_iff a.addr b.addr, nat_beq_iff a.proto b.proto)

instance abbrev pub dnat_key_eq : Eq DnatKey
dnat_key_eq = record { same = dnat_key_beq; same_iff = dnat_key_beq_iff }

-- flowInfo; its rule is never nil.
pub record FlowInfo : Type 0 where
  pub timeout_obj : TimeoutObj
  pub timeout_rule : Rule

abbrev pub Flows : Type 0
Flows = Dict DnatKey FlowInfo

unfoldable pub policy : Ttl → List (CtState × Ttl)
policy ttl =
    map (λ s. (s, ttl))
      (udp_unreplied ∷ udp_replied ∷ tcp_established ∷ tcp_fin_wait ∷ tcp_time_wait ∷ tcp_close_wait
        ∷ tcp_last_ack ∷ tcp_close ∷ [])

unfoldable pub new_timeout_obj : Protocol → AddrPort → Ttl → TimeoutObj
unfolding policy
new_timeout_obj proto addr ttl = record {
  name = encode_timeout_obj_name proto addr;
  l3_proto = if is6 addr.addr then nfproto_ipv6 else if is4 addr.addr then nfproto_ipv4 else 0;
  l4_proto = proto;
  policy = policy ttl;
}

-- `err != nil && !errors.Is(err, unix.ENOENT)`
unfoldable pub is_fatal : Option Errno → Bool
is_fatal (some (other n)) = true
is_fatal _ = false

-- The map that holds the mappings of a source.
unfoldable pub set_of : Addr → Option SetName
set_of a =
    if is6 a
    then some (if is_unspecified a then dnat_wildcard6 else dnat_specific6)
    else if is4 a
    then some (if is_unspecified a then dnat_wildcard4 else dnat_specific4)
    else none

module _ (nft : Nft) where
  open nft use {
    Conn, set_add_elements, set_delete_elements, add_obj, delete_object, add_rule, del_rule, flush,
  }

  unfoldable pub ensure_timeout_deleted :
      Flows → Protocol → AddrPort → Conn → Flows × Conn × Option Errno
  unfolding is_fatal
  ensure_timeout_deleted flows proto addr c =
      let key : DnatKey = record { addr = addr; proto = proto } in
      elim (lookup key flows) [
        | none ↦ (flows, c, none)
        | some info ↦
            let (c₁, e₁) = del_rule info.timeout_rule c in
            if is_fatal e₁
            then (flows, c₁, e₁)
            else let (c₂, e₂) = flush (delete_object info.timeout_obj c₁) in
              if is_fatal e₂ then (flows, c₂, e₂) else (delete key flows, c₂, none)
      ]

  -- The policy of a present object is overwritten before the kernel is asked.
  unfoldable pub ensure_timeout_set :
      Flows → Protocol → AddrPort → Ttl → Conn → Flows × Conn × Option Errno
  unfolding ensure_timeout_deleted new_timeout_obj
  ensure_timeout_set flows proto addr ttl c =
      let key : DnatKey = record { addr = addr; proto = proto } in
      if ttl == 0 then ensure_timeout_deleted flows proto addr c else elim (lookup key flows) [
        | some info ↦
            let obj : TimeoutObj = record (info.timeout_obj) { policy = policy ttl } in
            let (c₁, e) = flush (add_obj obj c) in
            (insert key (record info { timeout_obj = obj }) flows, c₁, e)
        | none ↦
            let obj = new_timeout_obj proto addr ttl in
            let rule = define_timeout_rule proto addr obj.name in
            let (c₁, e) = flush (add_rule rule (add_obj obj c)) in
            elim e [
              | some x ↦ (flows, c₁, some x)
              | none ↦
                  (insert key (record { timeout_obj = obj; timeout_rule = rule }) flows, c₁, none)
            ]
      ]

  -- The loop of ensureDNATAdded and ensureDNATDeleted, over the operation that they make.
  unfoldable pub each_element :
      (SetName → SetElement → Conn → Conn × Option Errno)
      → List Mapping
      → Conn
      → Conn × Option Errno
  each_element op [] c = (c, none)
  each_element op (m ∷ ms) c = elim (set_of m.source.addr) [
    | none ↦ each_element op ms c
    | some set ↦
        let (c₁, e) = op set (compile_set_element m) c in
        elim e [ none ↦ each_element op ms c₁ | some x ↦ (c₁, some x) ]
  ]

  unfoldable pub flush_elements :
      (SetName → SetElement → Conn → Conn × Option Errno)
      → List Mapping
      → Conn
      → Conn × Option Errno
  unfolding each_element
  flush_elements op [] c = (c, none)
  flush_elements op (m ∷ ms) c =
      let (c₁, e) = each_element op (m ∷ ms) c in elim e [ none ↦ flush c₁ | some x ↦ (c₁, some x) ]

  unfoldable pub ensure_dnat_added : List Mapping → Conn → Conn × Option Errno
  unfolding flush_elements
  ensure_dnat_added = flush_elements set_add_elements

  unfoldable pub ensure_dnat_deleted : List Mapping → Conn → Conn × Option Errno
  unfolding flush_elements
  ensure_dnat_deleted = flush_elements set_delete_elements

  -- ensureTableDeleted: a table that is gone is no error.
  unfoldable pub ensure_table_deleted : Conn → Conn × Option Errno
  unfolding is_fatal
  ensure_table_deleted c =
      let (c₁, e) = flush (nft.del_table c) in if is_fatal e then (c₁, e) else (c₁, none)
