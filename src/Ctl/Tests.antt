-- ===== src/Ctl/Tests.antt =====
-- Engines and connections to which the theorems on plugin/ctl apply.
use proxygw.Prelude.{
  Dict, List, Text, [], arith, bool_eq, codes, insert, lookup, map, nat_eq, none, refl, some, suc,
  text_eq, true, values, zero, ℕ, ◌∷◌, ◌≡◌, ◌≢◌,
}
use proxygw.Netip.{is_unspecified, addr_beq}
use proxygw.Config.Document
use proxygw.Config.Namespace
use proxygw.Config.Tests.{web_target}
use proxygw.Connft.State.{new_group, new_connft_group}
use proxygw.Connft.Group.Tests.{quiet_nft}
use proxygw.Target as Targets
use proxygw.Target.Endpoints
use proxygw.Engine.{
  new_target, create_target, ctor_of, register_target, add_target_kind, add_frontend_kind,
}
use proxygw.Engine.Registry.{call, target_new}
use proxygw.Engine.History.{Reach, calls, engine_coherent}
use proxygw.Engine.Tests.{E, built, with_target, with_target-Reach}
use proxygw.Ipc.Method.{is_response, method, zero_bodies, status_request, method_status_request}
use proxygw.Ipc.Packet.{Packet, Message, Codec, make_packet, parse_raw_body, with_body}
use proxygw.Ipc.Server.{
  sending, new_base_server, read_at, read_with, dispatch_at, dispatch_with, send_req_at,
}
use proxygw.Ipc.Server.Blocking.{IsFull}
use proxygw.Ctl.Sorting.{Reorder, swap}
use proxygw.Ctl.Status.{Printer, status_response}
use proxygw.Ctl.Status.Order.{status_response_order}
use proxygw.Ctl.Serve.{
  System, handling, Action, reads, dispatches, sends_req, takes_req, handles, serve_step,
  serve_steps, take_req_at, new_server,
}
use proxygw.Ctl.Serve.Progress.{serve_stuck}

abbrev printer : Printer
printer = record {
  address = λ a. [];
  target_error = λ f. [];
  frontend_error = λ f. [];
  number = λ n. n ∷ [];
}

-- An engine with two targets, and its map walked in the other order.
abbrev api_target : Document.Target
api_target = record web_target { name = codes "api" }

abbrev two_targets : E
two_targets = (call quiet_nft (target_new api_target built none 1000) with_target).0

two_targets-Reach : Reach quiet_nft two_targets
two_targets-Reach = calls (target_new api_target built none 1000) with_target-Reach

abbrev walked : Dict Text ℕ
walked = (codes "api", 1) ∷ (codes "web", 0) ∷ []

other_order : Reorder (values two_targets.targets) (values walked)
unfolding new_target create_target ctor_of register_target add_target_kind add_frontend_kind
    new_connft_group new_group Targets.new lookup insert Namespace.to_string Endpoints.is_valid
    is_unspecified addr_beq
other_order = swap 0 1 []

no_frontends : Reorder (values two_targets.frontends) (values {K = Text} [])
unfolding new_target create_target ctor_of register_target add_target_kind add_frontend_kind
    new_connft_group new_group Targets.new lookup insert Namespace.to_string Endpoints.is_valid
    is_unspecified addr_beq
no_frontends = Reorder.none

status_response_order_example :
    status_response printer (record two_targets { targets = walked; frontends = [] })
    ≡ status_response printer two_targets
status_response_order_example =
    status_response_order printer two_targets walked []
      (engine_coherent quiet_nft two_targets-Reach) other_order no_frontends

-- A client that sends 18 requests before Serve answers the first.
abbrev plain : Codec ℕ
plain = record { no_options = 0; unmarshal = λ text b. some b }

abbrev ask : ℕ → Packet Text
ask i = record { id = i; method_id = method_status_request; body = codes "{}" }

abbrev asked : ℕ → Message ℕ
asked i = make_packet i status_request

abbrev accept : ℕ → List Action → List Action
accept i rest = reads (some (ask i)) ∷ dispatches true ∷ rest

abbrev flood : ℕ → ℕ → List Action → List Action
flood i zero rest = rest
flood i (suc n) rest = accept i (sends_req ∷ flood (suc i) n rest)

abbrev numbers : ℕ → ℕ → List ℕ
numbers i zero = []
numbers i (suc n) = i ∷ numbers (suc i) n

abbrev flooded : System ℕ
flooded = record {
  server = record {
    sent = [];
    notifs = [];
    reqs = map asked (numbers 2 16);
    inbox = map (λ i. (i, tt)) (numbers 1 18);
    loop = sending (asked 18);
  };
  serving = handling (asked 1);
}

flooded_reached :
    serve_steps printer two_targets plain
      (accept 1 (sends_req ∷ takes_req ∷ flood 2 16 (accept 18 [])))
      (new_server printer two_targets)
    ≡ some flooded
unfolding serve_steps serve_step new_server new_base_server read_at read_with dispatch_at
    dispatch_with send_req_at take_req_at is_response parse_raw_body with_body zero_bodies lookup
    insert make_packet method
flooded_reached = refl

flooded-IsFull : IsFull (asked 18) flooded.server
flooded-IsFull = record { waits = refl; no_room = refl }

asked_id : (asked 1).id ≢ 0
unfolding make_packet
asked_id h = absurd (omega arith)

serve_stuck_example : serve_step printer two_targets plain (handles true) flooded ≡ none
serve_stuck_example =
    serve_stuck printer two_targets plain flooded (asked 18) (asked 1) flooded-IsFull refl asked_id
      (handles true)
