-- ===== src/Netip.antt =====
-- What the program uses of Go's standard package net/netip: addresses with their family, bytes and
-- zone, and an address with a port. Values are compared by `==` as Go compares the structs.
use proxygw.Prelude.{
  Bool, Eq, List, Text, [], arith, bool_eq, false, length, nat_beq_iff, nat_eq, replicate,
  text_beq_iff, text_eq, true, ℕ, ◌&&◌, ◌<◌, ◌==◌, ◌||◌, ◌↔◌, ◌≡◌,
}

-- The zero Addr, an IPv4 address, and an IPv6 address (one that maps an IPv4 address too) with its
-- zone, which is "" where there is none.
pub data Addr : Type 0 where
  invalid : Addr
  v4 : List ℕ → Addr
  v6 : List ℕ → Text → Addr

unfoldable pub addr_beq : Addr → Addr → Bool
addr_beq invalid invalid = true
addr_beq (v4 a) (v4 b) = a == b
addr_beq (v6 a z) (v6 b w) = (a == b) && (z == w)
addr_beq _ _ = false

pub addr_beq_iff : (a b : Addr) → (addr_beq a b ≡ true) ↔ (a ≡ b)
unfolding addr_beq
addr_beq_iff invalid invalid = ground arith
addr_beq_iff invalid (v4 b) = ground arith
addr_beq_iff invalid (v6 b w) = ground arith
addr_beq_iff (v4 a) invalid = ground arith
addr_beq_iff (v4 a) (v4 b) = ground (arith, text_beq_iff a b)
addr_beq_iff (v4 a) (v6 b w) = ground arith
addr_beq_iff (v6 a z) invalid = ground arith
addr_beq_iff (v6 a z) (v4 b) = ground arith
addr_beq_iff (v6 a z) (v6 b w) = ground (arith, text_beq_iff a b, text_beq_iff z w)

instance abbrev pub addr_eq : Eq Addr
addr_eq = record { same = addr_beq; same_iff = addr_beq_iff }

abbrev pub is4 : Addr → Bool
is4 (v4 b) = true
is4 _ = false

abbrev pub is6 : Addr → Bool
is6 (v6 b z) = true
is6 _ = false

abbrev pub is_addr : Addr → Bool
is_addr invalid = false
is_addr _ = true

abbrev pub zone : Addr → Text
zone (v6 b z) = z
zone _ = []

abbrev pub as_slice : Addr → List ℕ
as_slice invalid = []
as_slice (v4 b) = b
as_slice (v6 b z) = b

-- `netip.IPv4Unspecified()` and `netip.IPv6Unspecified()`.
abbrev pub unspecified4 : Addr
unspecified4 = v4 (replicate 4 0)

abbrev pub unspecified6 : Addr
unspecified6 = v6 (replicate 16 0) []

unfoldable pub is_unspecified : Addr → Bool
is_unspecified a = (a == unspecified4) || (a == unspecified6)

-- An address of Go has 4 or 16 bytes.
abbrev pub IsAddr : Addr → Type 0
IsAddr invalid = Unit {0}
IsAddr (v4 b) = length b ≡ 4
IsAddr (v6 b z) = length b ≡ 16

pub record AddrPort : Type 0 where
  pub addr : Addr
  pub port : ℕ  -- uint16

unfoldable pub addr_port_beq : AddrPort → AddrPort → Bool
addr_port_beq a b = (a.addr == b.addr) && (a.port == b.port)

pub addr_port_beq_iff : (a b : AddrPort) → (addr_port_beq a b ≡ true) ↔ (a ≡ b)
unfolding addr_port_beq
addr_port_beq_iff a b = ground (arith, addr_beq_iff a.addr b.addr, nat_beq_iff a.port b.port)

instance abbrev pub addr_port_eq : Eq AddrPort
addr_port_eq = record { same = addr_port_beq; same_iff = addr_port_beq_iff }

pub record IsAddrPort (a : AddrPort) : Type 0 where
  pub bytes : IsAddr a.addr
  pub port_bound : a.port < 65536
