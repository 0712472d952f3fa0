-- ===== src/Connft/Encode.antt =====
-- pkg/dataplane/connft/connft_nft_rules.go, from compileSetElement on: the bytes of the keys and
-- values of the kernel's maps, and the names of the timeout objects.
pub mod Keys
mod Tests
use Prim.Native.Nat.{bit_xor}
use proxygw.Prelude.{
  List, Text, [], bool_eq, codes, if◌then◌else◌, length, ltb, nat_eq, not, replicate, suc, text_eq,
  zero, ℕ, ◌%◌, ◌*◌, ◌++◌, ◌+◌, ◌-◌, ◌/◌, ◌==◌, ◌^◌, ◌∷◌,
}
use proxygw.Netip.{AddrPort, as_slice, is_unspecified}
use proxygw.Config.Protocol.{Protocol}
use proxygw.Dataplane.Mapping.{Mapping}

pub record SetElement : Type 0 where
  pub key : List ℕ
  pub val : List ℕ

-- binary.BigEndian.PutUint16
unfoldable pub encode_port : ℕ → List ℕ
encode_port port = (port / 256) % 256 ∷ port % 256 ∷ []

-- A field is padded with zeros to a multiple of four bytes.
unfoldable pub append_concat_field : List ℕ → List ℕ → List ℕ
append_concat_field dst field =
    let rem = length field % 4 in
    if not (rem == 0) then (dst ++ field) ++ replicate (4 - rem) 0 else dst ++ field

unfoldable pub encode_specific_key : Protocol → AddrPort → List ℕ
encode_specific_key protocol address =
    append_concat_field
      (append_concat_field (append_concat_field [] (protocol ∷ [])) (as_slice address.addr))
      (encode_port address.port)

unfoldable pub encode_wildcard_key : Protocol → ℕ → List ℕ
encode_wildcard_key protocol port =
    append_concat_field (append_concat_field [] (protocol ∷ [])) (encode_port port)

unfoldable pub encode_map_value : AddrPort → List ℕ
encode_map_value address =
    append_concat_field (append_concat_field [] (as_slice address.addr)) (encode_port address.port)

unfoldable pub compile_set_element : Mapping → SetElement
compile_set_element mapping = record {
  key =
      if is_unspecified mapping.source.addr
      then encode_wildcard_key mapping.protocol mapping.source.port
      else encode_specific_key mapping.protocol mapping.source;
  val = encode_map_value mapping.destination;
}

-- hash/fnv's New64a and Write.
fnv1a : ℕ → List ℕ → ℕ
fnv1a hash [] = hash
fnv1a hash (b ∷ bytes) = fnv1a ((bit_xor hash b * 1099511628211) % 2 ^ 64) bytes

-- The lowest `n` hexadecimal digits, the highest of them first.
hex_digit : ℕ → ℕ
hex_digit d = if ltb d 10 then b'0' + d else b'a' + (d - 10)

hex : ℕ → ℕ → Text
unfolding hex_digit
hex zero n = []
hex (suc k) n = hex k (n / 16) ++ hex_digit (n % 16) ∷ []

pub encode_timeout_obj_name : Protocol → AddrPort → Text
unfolding fnv1a hex encode_port
encode_timeout_obj_name protocol address =
    let h = fnv1a 14695981039346656037 (protocol ∷ []) in
    let h' = fnv1a h (as_slice address.addr) in
    codes "ct_" ++ hex 16 (fnv1a h' (encode_port address.port))
