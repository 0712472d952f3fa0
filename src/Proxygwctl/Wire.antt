-- ===== src/Proxygwctl/Wire.antt =====
-- A way to write the messages of a status request as bytes and to read them, with every text and list
-- behind its length: an example of the codecs of plugin/ctl/ipc.
use proxygw.Prelude.{
  List, Option, Text, [], bool_eq, if◌then◌else◌, length, nat_eq, none, not, some, suc, text_eq,
  zero, ℕ, ◌++◌, ◌==◌, ◌∷◌,
}
use proxygw.Ipc.Method.{
  TargetEndpointInfo, TargetStatus, FrontendStatus, StatusResponse, status_request, status_response,
}
use proxygw.Ipc.Packet.{Packet, Payload, Message, Codec, parsed}

text_bytes : Text → Text
text_bytes text = length text ∷ text

each_bytes : {A : Type 0} → (A → Text) → List A → Text
each_bytes bytes [] = []
each_bytes bytes (x ∷ xs) = bytes x ++ each_bytes bytes xs

list_bytes : {A : Type 0} → (A → Text) → List A → Text
unfolding each_bytes
list_bytes bytes xs = length xs ∷ each_bytes bytes xs

endpoint_bytes : TargetEndpointInfo → Text
endpoint_bytes e = text_bytes e.name ++ e.protocol ∷ text_bytes e.address

target_bytes : TargetStatus → Text
unfolding text_bytes list_bytes endpoint_bytes
target_bytes t =
    text_bytes t.name
    ++ text_bytes t.kind
    ++ text_bytes t.state
    ++ text_bytes t.last_error
    ++ list_bytes endpoint_bytes t.endpoints

frontend_bytes : FrontendStatus → Text
unfolding text_bytes
frontend_bytes f =
    text_bytes f.name
    ++ text_bytes f.kind
    ++ text_bytes f.state
    ++ text_bytes f.last_error
    ++ f.protocol ∷ text_bytes f.listen
    ++ text_bytes f.target_name
    ++ text_bytes f.endpoint_name
    ++ text_bytes f.proxy_address

status_bytes : StatusResponse → Text
unfolding list_bytes target_bytes frontend_bytes
status_bytes s =
    (if s.closed then 1 else 0) ∷ list_bytes target_bytes s.targets
    ++ list_bytes frontend_bytes s.frontends

-- A reader takes a value from the front of a text.
abbrev Reader : Type 0 → Type 0
Reader A = Text → Option (A × Text)

read_then : {A B : Type 0} → Reader A → (A → Reader B) → Reader B
read_then first rest text = elim (first text) [ none ↦ none | some (x, text') ↦ rest x text' ]

read_number : Reader ℕ
read_number [] = none
read_number (n ∷ text) = some (n, text)

read_many : {A : Type 0} → Reader A → ℕ → Reader (List A)
unfolding read_then
read_many read zero text = some ([], text)
read_many read (suc n) text =
    read_then read (λ x. read_then (read_many read n) (λ xs rest. some (x ∷ xs, rest))) text

read_list : {A : Type 0} → Reader A → Reader (List A)
unfolding read_many read_number
read_list read = read_then read_number (λ n. read_many read n)

read_endpoint : Reader TargetEndpointInfo
unfolding read_list
read_endpoint = read_then (read_list read_number) (λ name. read_then read_number (λ protocol.
    read_then (read_list read_number) (λ address text.
      some (record { name = name; protocol = protocol; address = address }, text))))

read_target : Reader TargetStatus
unfolding read_endpoint
read_target = read_then (read_list read_number) (λ name. read_then (read_list read_number) (λ kind.
    read_then (read_list read_number) (λ state. read_then (read_list read_number) (λ last_error.
      read_then (read_list read_endpoint) (λ endpoints text. some (
        record {
          name = name;
          kind = kind;
          state = state;
          last_error = last_error;
          endpoints = endpoints;
        },
        text,
      ))))))

read_frontend : Reader FrontendStatus
unfolding read_list
read_frontend = read_then (read_list read_number) (λ name.
    read_then (read_list read_number) (λ kind. read_then (read_list read_number) (λ state.
      read_then (read_list read_number) (λ last_error. read_then read_number (λ protocol.
        read_then (read_list read_number) (λ listen.
          read_then (read_list read_number) (λ target_name.
            read_then (read_list read_number) (λ endpoint_name.
              read_then (read_list read_number) (λ proxy_address text. some (
                record {
                  name = name;
                  kind = kind;
                  state = state;
                  last_error = last_error;
                  protocol = protocol;
                  listen = listen;
                  target_name = target_name;
                  endpoint_name = endpoint_name;
                  proxy_address = proxy_address;
                },
                text,
              ))))))))))

read_status : Reader StatusResponse
unfolding read_target read_frontend
read_status = read_then read_number (λ closed. read_then (read_list read_target) (λ targets.
    read_then (read_list read_frontend) (λ frontends text.
      some
        (record { closed = not (closed == 0); targets = targets; frontends = frontends }, text))))

-- Unmarshal, for the two methods of a status request.
unfoldable pub codec : Codec ℕ
unfolding read_status
codec = record {
  no_options = 0;
  unmarshal = λ text z. elim z [
    | status_request ↦ some status_request
    | status_response _ ↦ elim (read_status text) [
      | none ↦ none
      | some (s, rest) ↦ some (status_response s)
    ]
    | _ ↦ none
  ];
}

unfoldable pub body_bytes : Payload ℕ → Text
unfolding status_bytes
body_bytes (parsed (status_response s)) = status_bytes s
body_bytes _ = []

abbrev pub wire : Message ℕ → Packet Text
wire m = record { id = m.id; method_id = m.method_id; body = body_bytes m.body }
