-- ===== src/Connft/Encode/Keys.antt =====
-- The encoding of the kernel's map keys in pkg/dataplane/connft/connft_nft_rules.go loses nothing.
use mathlib.Core.List.{append_assoc}
use proxygw.Prelude.{
  Bool-cases, List, [], ap, arith, if◌then◌else◌, inl, inr, length, refl, sym, true, ℕ, ◌%◌, ◌++◌,
  ◌/◌, ◌<◌, ◌∙◌, ◌∷◌, ◌≡◌, ◌≢◌,
}
use proxygw.Netip.{
  Addr, invalid, v4, v6, AddrPort, IsAddr, IsAddrPort, as_slice, is4, is_unspecified, addr_beq_iff,
  unspecified4, unspecified6, zone,
}
use proxygw.Config.Protocol.{Protocol}
use proxygw.Dataplane.Mapping.{Mapping}
use proxygw.Dataplane.Mapping.Overlap.{IsValid}
use proxygw.Connft.Nft.{set_of}
use proxygw.Connft.Encode.{
  encode_port, append_concat_field, encode_specific_key, encode_wildcard_key, compile_set_element,
}

encode_port-injective : (p q : ℕ) → p < 65536 → q < 65536 → encode_port p ≡ encode_port q → p ≡ q
unfolding encode_port
encode_port-injective p q hp hq e = ground arith

append-injective : (a b c d : List ℕ) → length a ≡ length b → a ++ c ≡ b ++ d → (a ≡ b) × (c ≡ d)
append-injective [] [] c d h e = (refl, e)
append-injective [] (y ∷ b) c d h e = absurd (omega arith)
append-injective (x ∷ a) [] c d h e = absurd (omega arith)
append-injective (x ∷ a) (y ∷ b) c d h e = ground (arith, append-injective a b c d)

append_concat_field_exact :
    (dst field : List ℕ) → length field % 4 ≡ 0 → append_concat_field dst field ≡ dst ++ field
unfolding append_concat_field
append_concat_field_exact dst field h = rw h refl

append_concat_field_port :
    (dst : List ℕ) (port : ℕ)
    → append_concat_field dst (encode_port port) ≡ dst ++ (encode_port port ++ 0 ∷ 0 ∷ [])
unfolding append_concat_field encode_port
append_concat_field_port dst port =
    append_assoc dst ((port / 256) % 256 ∷ port % 256 ∷ []) (0 ∷ 0 ∷ [])

append_concat_field_byte : (b : ℕ) → append_concat_field [] (b ∷ []) ≡ b ∷ 0 ∷ 0 ∷ 0 ∷ []
unfolding append_concat_field
append_concat_field_byte b = refl

-- The three fields of a specific key, padded.
specific_fields :
    (protocol : Protocol) (a : AddrPort)
    → length (as_slice a.addr) % 4 ≡ 0
    → encode_specific_key protocol a
      ≡ (protocol ∷ 0 ∷ 0 ∷ 0 ∷ []) ++ (as_slice a.addr ++ (encode_port a.port ++ 0 ∷ 0 ∷ []))
unfolding encode_specific_key
specific_fields protocol a h =
    rw
      (
        append_concat_field_byte protocol,
        append_concat_field_exact (protocol ∷ 0 ∷ 0 ∷ 0 ∷ []) (as_slice a.addr) h,
        append_concat_field_port ((protocol ∷ 0 ∷ 0 ∷ 0 ∷ []) ++ as_slice a.addr) a.port,
      )
      (append_assoc (protocol ∷ 0 ∷ 0 ∷ 0 ∷ []) (as_slice a.addr)
        (encode_port a.port ++ 0 ∷ 0 ∷ []))

length-as_slice :
    (a : Addr) → IsAddr a → a ≢ invalid → length (as_slice a) ≡ (if is4 a then 4 else 16)
length-as_slice invalid h n = absurd (n refl)
length-as_slice (v4 b) h n = h
length-as_slice (v6 b z) h n = h

as_slice-injective :
    (a b : Addr)
    → a ≢ invalid
    → b ≢ invalid
    → zone a ≡ []
    → zone b ≡ []
    → is4 a ≡ is4 b
    → as_slice a ≡ as_slice b
    → a ≡ b
as_slice-injective invalid b h k z w f e = absurd (h refl)
as_slice-injective (v4 a) invalid h k z w f e = absurd (k refl)
as_slice-injective (v4 a) (v4 b) h k z w f e = ap v4 e
as_slice-injective (v4 a) (v6 b y) h k z w f e = cc
as_slice-injective (v6 a x) invalid h k z w f e = absurd (k refl)
as_slice-injective (v6 a x) (v4 b) h k z w f e = cc
as_slice-injective (v6 a x) (v6 b y) h k z w f e = cc

is_unspecified-eq :
    (a b : Addr) → is_unspecified a ≡ true → is_unspecified b ≡ true → is4 a ≡ is4 b → a ≡ b
unfolding is_unspecified
is_unspecified-eq a b h k f = ground (
  arith,
  addr_beq_iff a unspecified4,
  addr_beq_iff a unspecified6,
  addr_beq_iff b unspecified4,
  addr_beq_iff b unspecified6,
)

-- The map that a source goes to tells its family, and if it is the wildcard.
set_of-eq :
    (a b : Addr)
    → a ≢ invalid
    → b ≢ invalid
    → set_of a ≡ set_of b
    → (is4 a ≡ is4 b) × (is_unspecified a ≡ is_unspecified b)
unfolding set_of
set_of-eq a b h k e = ground arith

pub wildcard_key-injective :
    (p q : Protocol) (x y : ℕ)
    → x < 65536
    → y < 65536
    → encode_wildcard_key p x ≡ encode_wildcard_key q y
    → (p ≡ q) × (x ≡ y)
unfolding encode_wildcard_key append_concat_field encode_port
wildcard_key-injective p q x y h k e = ground arith

specific_key-injective :
    (p q : Protocol) (a b : AddrPort)
    → IsAddrPort a
    → IsAddrPort b
    → a.addr ≢ invalid
    → b.addr ≢ invalid
    → zone a.addr ≡ []
    → zone b.addr ≡ []
    → is4 a.addr ≡ is4 b.addr
    → encode_specific_key p a ≡ encode_specific_key q b
    → (p ≡ q) × (a ≡ b)
specific_key-injective p q a b ha hb na nb za zb f e =
    let la = length-as_slice a.addr ha.bytes na in
    let lb = length-as_slice b.addr hb.bytes nb in
    let fields =
      sym (specific_fields p a (ground (arith, la)))
      ∙ e
      ∙ specific_fields q b (ground (arith, lb)) in
    let (h, t) = append-injective (p ∷ 0 ∷ 0 ∷ 0 ∷ []) (q ∷ 0 ∷ 0 ∷ 0 ∷ []) _ _ refl fields in
    let (s, u) =
      append-injective (as_slice a.addr) (as_slice b.addr) _ _ (ground (arith, la, lb)) t in
    let (x, _) =
      append-injective (encode_port a.port) (encode_port b.port) _ _ (unfold encode_port in refl)
        u in
    let pa = encode_port-injective a.port b.port ha.port_bound hb.port_bound x in
    let aa = as_slice-injective a.addr b.addr na nb za zb f s in
    (ground (arith, h), ground (arith, pa, aa))

-- Two valid mappings whose elements stand in the same map of the kernel, with ports below 2^16
-- and addresses of the length of their family, have the same key only if they have the same
-- protocol and source.
pub key-injective :
    (m n : Mapping)
    → IsValid m
    → IsValid n
    → IsAddrPort m.source
    → IsAddrPort n.source
    → set_of m.source.addr ≡ set_of n.source.addr
    → (compile_set_element m).key ≡ (compile_set_element n).key
    → (m.protocol ≡ n.protocol) × (m.source ≡ n.source)
unfolding compile_set_element
key-injective m n v w a b s e =
    let (f, u) = set_of-eq m.source.addr n.source.addr v.source_addressed w.source_addressed s in
    elim (Bool-cases (is_unspecified m.source.addr)) [
      | inl q ↦
          let (p, x) =
            wildcard_key-injective m.protocol n.protocol m.source.port n.source.port a.port_bound
              b.port_bound (ground (arith, e, q, u)) in
          let y = is_unspecified-eq m.source.addr n.source.addr q (sym u ∙ q) f in
          (p, ground (arith, x, y))
      | inr q ↦
          specific_key-injective m.protocol n.protocol m.source n.source a b v.source_addressed
            w.source_addressed v.source_zone w.source_zone f (ground (arith, e, q, u))
    ]
