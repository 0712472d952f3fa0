-- ===== src/Ipc/Tests.antt =====
-- Packets and ends of a connection to which the theorems on plugin/ctl/ipc apply.
use proxygw.Prelude.{
  List, Text, [], arith, bool_eq, codes, delete, false, inl, insert, lookup, nat_eq, none, refl,
  replicate, some, text_eq, true, ℕ, ◌<◌, ◌^◌, ◌∷◌, ◌≡◌, ◌≢◌, ◌⊎◌,
}
use proxygw.Ipc.Method.{
  warm_target_request, warm_target_response, frontend_should_warm_notification, method,
  method_warm_target_request, method_warm_target_response, is_response, zero_bodies,
  method_frontend_should_warm_notification, error_response,
}
use proxygw.Ipc.Packet.{Packet, Message, Codec, make_packet, parse_raw_body, with_body}
use proxygw.Ipc.Packet.Types.{Keeps, Fits, parse_raw_body-Fits}
use proxygw.Ipc.Server
use proxygw.Ipc.Server.Step as ServerStep
use proxygw.Ipc.Server.Answers.{Run, Balanced, answered_once}
use proxygw.Ipc.Server.Blocking.{IsFull}
use proxygw.Ipc.Client
use proxygw.Ipc.Client.Step as ClientStep
use proxygw.Ipc.Client.Replies.{waiting, request_distinct, response_delivered}
use proxygw.Ipc.Peer
use proxygw.Ipc.Peer.Step as PeerStep
use proxygw.Ipc.Peer.Notifications.{notifications_refused}

-- A codec that fills in nothing.
abbrev plain : Codec ℕ
plain = record { no_options = 0; unmarshal = λ text b. some b }

plain-Keeps : Keeps plain
unfolding Keeps
plain-Keeps text b b' h = ground arith

-- A request to warm a target, and its answer.
abbrev warm : Packet Text
warm = record { id = 5; method_id = method_warm_target_request; body = codes "{}" }

abbrev warmed : Packet Text
warmed = record { id = 1; method_id = method_warm_target_response; body = codes "{}" }

abbrev signal : Packet Text
signal = record { id = 0; method_id = method_frontend_should_warm_notification; body = codes "{}" }

warm_parses : parse_raw_body plain warm ≡ some (make_packet 5 (warm_target_request []))
unfolding parse_raw_body with_body zero_bodies lookup make_packet method
warm_parses = refl

parse_raw_body-Fits_example :
    let q = make_packet {Options = ℕ} 5 (warm_target_request []) in
    (q.id ≡ warm.id) × (q.method_id ≡ warm.method_id) × Fits warm q
parse_raw_body-Fits_example =
    parse_raw_body-Fits plain plain-Keeps warm (make_packet 5 (warm_target_request [])) warm_parses

-- A server that has met the request of `warm`, and has answered it.
abbrev response : Message ℕ
response = make_packet 5 warm_target_response

abbrev dispatched : Server.Server ℕ
dispatched =
    Server.dispatch_with true (make_packet 5 (warm_target_request []))
      (record Server.new_base_server {
        loop = Server.received (make_packet 5 (warm_target_request []));
      })

abbrev answered : Server.Server ℕ
answered =
    (Server.respond_locked true response (record dispatched {
      loop = Server.reading;
      reqs = make_packet 5 (warm_target_request []) ∷ [];
    })).0

answered-Run : Run plain (5 ∷ []) answered
unfolding Server.new_base_server Server.read_at Server.read_with Server.dispatch_at
    Server.dispatch_with Server.send_req_at Server.respond Server.respond_locked ServerStep.step
    is_response parse_raw_body with_body zero_bodies lookup make_packet method insert delete
answered-Run = Run.next (ServerStep.responds true response) refl (
    Run.next ServerStep.sends_req refl (
      Run.next (ServerStep.dispatches true) refl
        (Run.next (ServerStep.reads (some warm)) refl Run.start)))

five_not_zero : ◌≢◌ {A = ℕ} 5 0
five_not_zero h = absurd (omega arith)

answered_once_example : Balanced 5 (5 ∷ []) answered
answered_once_example = answered_once plain 5 five_not_zero answered-Run

-- A server with 16 requests that its owner has not received, and one more.
abbrev full : Server.Server ℕ
full = record {
  sent = [];
  notifs = [];
  reqs = replicate 16 response;
  inbox = [];
  loop = Server.sending response;
}

full-IsFull : IsFull response full
full-IsFull = record { waits = refl; no_room = refl }

-- A client that has sent one request, and reads its response.
abbrev silent : ℕ → Client.Reply (Message ℕ)
silent ch = waiting

abbrev new_client : Client.Client ℕ
new_client = Client.new_base_client silent

abbrev asking : Client.Client ℕ
asking = (Client.request true (make_packet 0 (warm_target_request [])) new_client).0

asking_returns :
    Client.request true (make_packet 0 (warm_target_request [])) new_client ≡ (asking, inl 0)
unfolding Client.request Client.request_as Client.new_base_client Client.assign_id is_response
    lookup make_packet method
asking_returns = refl

abbrev got : Message ℕ
got = make_packet 1 warm_target_response

asking-Reach : ClientStep.Reach plain (record asking { loop = Client.matching got })
unfolding Client.request Client.request_as Client.new_base_client Client.assign_id is_response
    lookup make_packet method Client.read_at Client.read_with ClientStep.step parse_raw_body
    with_body zero_bodies insert
asking-Reach = ClientStep.Reach.next (ClientStep.reads (some warmed)) refl (
    ClientStep.Reach.next (ClientStep.requests true (make_packet 0 (warm_target_request []))) refl
      (ClientStep.Reach.start silent))

request_distinct_example :
    let id = Client.assign_id new_client.next_id in
    (asking.sent ≡ record (make_packet 0 (warm_target_request [])) { id = id } ∷ new_client.sent)
    × (id ≢ 0)
    × (id < 2 ^ 32)
    × (lookup id new_client.outbox ≡ none)
    × (lookup id asking.outbox ≡ some 0)
    × (asking.replies 0 ≡ waiting)
    × ((other : ℕ) → lookup other new_client.outbox ≢ some 0)
request_distinct_example =
    request_distinct plain (ClientStep.Reach.start silent) true
      (make_packet 0 (warm_target_request [])) asking 0 asking_returns

abbrev matching : Client.Client ℕ
matching = record asking { loop = Client.matching got }

response_delivered_example :
    ((lookup got.id matching.outbox ≡ none)
      × (ClientStep.step plain ClientStep.matches matching
          ≡ some (record matching { loop = Client.reading })))
    ⊎ ((ch : ℕ) × (lookup got.id matching.outbox ≡ some ch)
        × (ClientStep.step plain ClientStep.matches matching
            ≡ some (record matching {
              loop = Client.reading;
              outbox = delete got.id matching.outbox;
              replies =
                  Client.put_reply ch
                    (record { response = some got; closed = false })
                    matching.replies;
            })))
response_delivered_example = response_delivered plain asking-Reach got refl

-- A peer that reads a notification, and then another.
abbrev new_peer : Peer.Peer ℕ
new_peer = Peer.new_base_peer silent

abbrev notice : Message ℕ
notice = make_packet 0 (frontend_should_warm_notification [])

notice_id : notice.id ≡ 0
unfolding make_packet
notice_id = refl

abbrev again : List (PeerStep.Action ℕ)
again =
    PeerStep.sends_req ∷ PeerStep.reads (some signal) ∷ PeerStep.sends_notif ∷ PeerStep.matches ∷ []

abbrev notified : Peer.Peer ℕ
notified = record new_peer {
  inbox = (0, tt) ∷ [];
  reqs = notice ∷ [];
  notifs = notice ∷ [];
  loop = Peer.received notice;
}

again_runs : PeerStep.steps plain again (Peer.dispatch_with true notice new_peer) ≡ some notified
unfolding Peer.new_base_peer Peer.dispatch_with PeerStep.steps PeerStep.step Peer.send_req_at
    Peer.read_at Peer.read_with Peer.send_notif_at Peer.match_at Peer.match_resp is_response
    parse_raw_body with_body zero_bodies lookup make_packet method insert
again_runs = refl

notifications_refused_example :
    PeerStep.step plain (PeerStep.dispatches true) notified
    ≡ some (record notified {
      sent =
          make_packet 0 (error_response (codes "existing request already in flight"))
          ∷ notified.sent;
      loop = Peer.reading;
    })
notifications_refused_example =
    notifications_refused plain new_peer notified notice notice again notice_id again_runs refl
      notice_id
