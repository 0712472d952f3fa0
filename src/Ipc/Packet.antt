-- ===== src/Ipc/Packet.antt =====
-- plugin/ctl/ipc/packet.go, and MakePacket and ParseRawBody of plugin/ctl/ipc/base_peer.go. The body
-- of a packet is raw bytes when it comes from Conn.Read, and a value of its method's type behind
-- ParseRawBody.
pub mod Types
use proxygw.Prelude.{
  Option, Text, bool_eq, if◌then◌else◌, lookup, nat_eq, none, some, text_eq, ℕ, ◌==◌,
}
use proxygw.Ipc.Method.{Body, empty, method, method_empty, zero_bodies}

pub record Packet (B : Type 0) : Type 0 where
  pub id : ℕ
  pub method_id : ℕ
  pub body : B

-- What Body holds: a []byte, or a pointer to one of the methods.
pub data Payload (Options : Type 0) : Type 0 where
  raw : Text → Payload Options
  parsed : Body Options → Payload Options

-- A packet with its body as the ends of a connection pass it on.
abbrev pub Message : Type 0 → Type 0
Message Options = Packet (Payload Options)

-- What ParseRawBody uses of a codec.Codec: Unmarshal fills the value given, or fails.
pub record Codec (Options : Type 0) : Type 0 where
  pub no_options : Options
  pub unmarshal : Text → Body Options → Option (Body Options)

module _ {Options : Type 0} where
  unfoldable pub make_packet : ℕ → Body Options → Packet (Payload Options)
  make_packet id body = record { id = id; method_id = method body; body = parsed body }

  -- The packet with a body, or none for the codec's error.
  unfoldable pub with_body : Packet Text → Option (Body Options) → Option (Packet (Payload Options))
  with_body p none = none
  with_body p (some b) = some (record { id = p.id; method_id = p.method_id; body = parsed b })

  unfoldable pub parse_raw_body : Codec Options → Packet Text → Option (Packet (Payload Options))
  unfolding with_body
  parse_raw_body codec p =
      if p.method_id == method_empty
      then with_body p (some empty)
      else elim (lookup p.method_id (zero_bodies codec.no_options)) [
        | none ↦ some (record { id = p.id; method_id = p.method_id; body = raw p.body })
        | some zero_body ↦ with_body p (codec.unmarshal p.body zero_body)
      ]
