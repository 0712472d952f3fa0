-- ===== src/Ipc/Packet/Types.antt =====
-- The type of the body that ParseRawBody of plugin/ctl/ipc/base_peer.go makes, and which methods of
-- plugin/ctl/ipc/method are responses.
use proxygw.Prelude.{
  Bool, Bool-cases, Option-cases, Text, arith, bool_eq, false, inl, inr, lookup, nat_eq, none, some,
  text_eq, true, ℕ, ◌<◌, ◌==◌, ◌↔◌, ◌∙◌, ◌≡◌, ◌≢◌, ◌⊎◌,
}
use proxygw.Ipc.Method.{
  empty, error_response, status_response, plugin_init_response, new_target_response,
  warm_target_response, drain_target_response, close_target_response, new_frontend_response,
  start_frontend_response, stop_frontend_response, close_frontend_response,
}
use proxygw.Ipc.Method.{Body, method, method_empty, zero_bodies, is_response}
use proxygw.Ipc.Packet.{Packet, Message, raw, parsed, Codec, with_body, parse_raw_body}

-- What encoding/json and the CBOR package document: Unmarshal into a value keeps its type.
unfoldable pub Keeps : {Options : Type 0} → Codec Options → Type 0
Keeps {Options} codec =
    (text : Text) (b b' : Body Options) → codec.unmarshal text b ≡ some b' → method b' ≡ method b

-- The numbers that the repository gives to a method.
abbrev pub IsKnown : ℕ → Type 0
IsKnown m = (m < 22) ⊎ (m ≡ 32768)

module _ {Options : Type 0} where
  zero_bodies-method :
      (o : Options) (m : ℕ) (b : Body Options) → lookup m (zero_bodies o) ≡ some b → method b ≡ m
  unfolding zero_bodies method lookup
  zero_bodies-method o m b h = ground arith

  IsKnown-iff : (o : Options) (m : ℕ) → (lookup m (zero_bodies o) ≢ none) ↔ (IsKnown m × (m ≢ 0))
  unfolding zero_bodies lookup
  IsKnown-iff o m = ground arith

  -- What the packet of a method holds behind ParseRawBody.
  pub Fits : Packet Text → Message Options → Type 0
  Fits p q =
      (IsKnown p.method_id × (b : Body Options) × (q.body ≡ parsed b) × (method b ≡ p.method_id))
      ⊎ ((¬ IsKnown p.method_id) × (q.body ≡ raw p.body))

  -- A packet that parses keeps its id and its method, and its body is a value of the type of that
  -- method, for any method of the repository, if decoding a body keeps its type; with any other
  -- method its body is the bytes that were read.
  pub parse_raw_body-Fits :
      (codec : Codec Options)
      → Keeps codec
      → (p : Packet Text) (q : Message Options) → parse_raw_body codec p ≡ some q
      → (q.id ≡ p.id) × (q.method_id ≡ p.method_id) × Fits p q
  unfolding parse_raw_body with_body Fits Keeps method
  parse_raw_body-Fits codec keeps p q h = elim (Bool-cases (p.method_id == method_empty)) [
    | inl e ↦ (ground arith, ground arith, inl (ground arith, empty, ground arith, ground arith))
    | inr e ↦ elim (Option-cases (lookup p.method_id (zero_bodies codec.no_options))) [
      | inl n ↦ (
        ground arith,
        ground arith,
        inr (ground (arith, IsKnown-iff codec.no_options p.method_id), ground arith),
      )
      | inr (z, f) ↦ elim (Option-cases (codec.unmarshal p.body z)) [
        | inl n ↦ absurd (ground arith)
        | inr (b, g) ↦ (
          ground arith,
          ground arith,
          inl (
            ground (arith, IsKnown-iff codec.no_options p.method_id),
            b,
            ground arith,
            keeps p.body z b g ∙ zero_bodies-method codec.no_options p.method_id z f,
          ),
        )
      ]
    ]
  ]

  -- Whether a body answers a request.
  abbrev pub is_reply : Body Options → Bool
  is_reply b = elim b [
    | error_response t ↦ true
    | status_response s ↦ true
    | plugin_init_response fs ts ↦ true
    | new_target_response ↦ true
    | warm_target_response ↦ true
    | drain_target_response ↦ true
    | close_target_response ↦ true
    | new_frontend_response ↦ true
    | start_frontend_response ↦ true
    | stop_frontend_response ↦ true
    | close_frontend_response ↦ true
    | _ ↦ false
  ]

  -- IsResponse of a body's method
  pub is_response-method : (b : Body Options) → is_response (method b) ≡ is_reply b
  unfolding is_response method
  is_response-method b = ground arith
