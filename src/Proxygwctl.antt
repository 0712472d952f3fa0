-- ===== src/Proxygwctl.antt =====
-- cmd/proxygwctl: the client that asks the daemon for its status. client.go is status_request and
-- status_answer, behind and before the wait for the response; main.go is dial_client.
pub mod RoundTrip
mod Wire
mod Tests
use proxygw.Prelude.{
  Bool, Dict, Option, Text, bool_eq, codes, if◌then◌else◌, inl, inr, is_empty, lookup, nat_eq, none,
  some, text_eq, ℕ, ◌⊎◌,
}
use proxygw.Static.Options.{Value, string_option}
use proxygw.Ipc.Method.{StatusResponse, status_request, status_response, error_response}
use proxygw.Ipc.Packet.{Message, raw, parsed, make_packet}
use proxygw.Ipc.Client.{Client, request}
use proxygw.Ipc.Client as Clients

-- The error of Request, a channel that was closed, an answer that is an error, and one of another
-- method.
pub data Err : Type 0 where
  request_failed : Clients.Err → Err
  connection_closed : Err
  error_answer : Text → Err
  unexpected : ℕ → Err

module _ {Options : Type 0} where
  unfoldable pub status_packet : Message Options
  unfolding make_packet
  status_packet = make_packet 0 status_request

  -- StatusRequest up to `<-ch`: the channel to receive from, or the error.
  unfoldable pub ask_status : Bool → Client Options → Client Options × (ℕ ⊎ Err)
  ask_status ok c =
      let (d, asked) = request ok status_packet c in
      elim asked [ inl ch ↦ (d, inl ch) | inr x ↦ (d, inr (request_failed x)) ]

  -- StatusRequest from what it receives on; none is a closed channel.
  unfoldable pub status_answer : Option (Message Options) → StatusResponse ⊎ Err
  status_answer none = inr connection_closed
  status_answer (some res) = elim res.body [
    | parsed (status_response s) ↦ inl s
    | parsed (error_response text) ↦ inr (error_answer text)
    | _ ↦ inr (unexpected res.method_id)
  ]

-- Why a client is not dialled; `invalid_codec` is FindByName's nil, which is an argument.
pub data DialErr : Type 0 where
  no_plugin no_socket : DialErr
  invalid_codec : Text → DialErr

-- `plugins.ctl.codec`, "json" where it is missing or empty
abbrev pub codec_name : Option Text → Text
codec_name none = codes "json"
codec_name (some name) = if is_empty name then codes "json" else name

-- dialClient from the document's plugins to the socket and the codec that it dials with.
unfoldable pub dial_client :
    {Codec : Type 0}
    → (Text → Option Codec)
    → Dict Text (Dict Text Value)
    → (Text × Codec) ⊎ DialErr
dial_client find_by_name plugins = elim (lookup (codes "ctl") plugins) [
  | none ↦ inr no_plugin
  | some config ↦ elim (string_option (codes "socket") config) [
    | none ↦ inr no_socket
    | some socket ↦
        let name = codec_name (string_option (codes "codec") config) in
        if is_empty socket then inr no_socket else elim (find_by_name name) [
          | none ↦ inr (invalid_codec name)
          | some codec ↦ inl (socket, codec)
        ]
  ]
]
