-- ===== src/Proxygwctl/Tests.antt =====
-- A client of cmd/proxygwctl and a server to which the theorem on their connection applies.
use proxygw.Prelude.{
  Option, [], ap, bool_eq, inl, insert, lookup, nat_eq, none, refl, some, subst, sym, text_eq, true,
  ℕ, ◌∙◌, ◌∷◌, ◌≡◌,
}
use proxygw.Netip.{is_unspecified, addr_beq}
use proxygw.Config.Namespace
use proxygw.Connft.State.{new_group, new_connft_group}
use proxygw.Target as Targets
use proxygw.Target.Endpoints
use proxygw.Engine.{
  new_target, create_target, ctor_of, register_target, add_target_kind, add_frontend_kind,
}
use proxygw.Engine.Tests.{with_target}
use proxygw.Ctl.Sorting.{sort_by}
use proxygw.Ipc.Method.{
  Body, StatusResponse, status_request, status_response, empty, zero_status, method, zero_bodies,
  is_response,
}
use proxygw.Ipc.Packet.{Message, Payload, parsed, make_packet}
use proxygw.Ipc.Server.{new_base_server}
use proxygw.Ipc.Client.{Client, reading, assign_id, new_base_client, request, request_as}
use proxygw.Ipc.Client.Step.{start}
use proxygw.Ipc.Client.Replies.{waiting}
use proxygw.Ctl.Status.{Printer}
use proxygw.Ctl.Status as Statuses
use proxygw.Ctl.Serve.{System, new_server}
use proxygw.Ctl.Serve.Answer.{IsIdle}
use proxygw.Proxygwctl.{status_packet, ask_status}
use proxygw.Proxygwctl.Wire.{codec, body_bytes, wire}
use proxygw.Proxygwctl.RoundTrip.{Arrives, Answered, status_round_trip}

abbrev printer : Printer
printer = record {
  address = λ a. a.port ∷ [];
  target_error = λ f. [];
  frontend_error = λ f. [];
  number = λ n. n ∷ [];
}

abbrev status : StatusResponse
status = Statuses.status_response printer with_target

abbrev body_of : Payload ℕ → Body ℕ
body_of (parsed b) = b
body_of _ = empty

-- What arrives is read as the body that was sent, whichever way it is given.
same_body_of :
    (m : Message ℕ) (sent : Body ℕ)
    → m.body ≡ parsed sent
    → ((z : Body ℕ)
        → lookup (method sent) (zero_bodies codec.no_options) ≡ some z
        → codec.unmarshal (wire m).body z ≡ some sent)
    → (b z : Body ℕ) → m.body ≡ parsed b
    → lookup (method b) (zero_bodies codec.no_options) ≡ some z
    → codec.unmarshal (wire m).body z ≡ some b
same_body_of m sent h read b z k =
    subst
      (λ x.
        lookup (method x) (zero_bodies codec.no_options) ≡ some z
        → codec.unmarshal (wire m).body z ≡ some x)
      (ap body_of (sym h ∙ k)) (read z)

some_of : Option (Body ℕ) → Body ℕ
some_of none = empty
some_of (some z) = z

request-Arrives : Arrives codec wire (make_packet 1 status_request)
unfolding make_packet method codec body_bytes zero_bodies lookup some_of
request-Arrives = record {
  same_id = refl;
  same_method = refl;
  same_body =
      same_body_of (make_packet 1 status_request) status_request refl
        (λ z k. subst (λ x. codec.unmarshal [] x ≡ some status_request) (ap some_of k) refl);
}

status_read :
    codec.unmarshal (body_bytes (parsed (status_response status))) (status_response zero_status)
    ≡ some (status_response status)
unfolding codec body_bytes Statuses.status_response Statuses.target_status Statuses.endpoint_info
    Targets.to_string Targets.endpoints sort_by new_target create_target ctor_of register_target
    add_target_kind add_frontend_kind new_connft_group new_group Targets.new lookup insert
    Namespace.to_string Endpoints.is_valid is_unspecified addr_beq
status_read = refl

response-Arrives : Arrives codec wire (make_packet 1 (status_response status))
unfolding make_packet method codec body_bytes zero_bodies lookup some_of
response-Arrives = record {
  same_id = refl;
  same_method = refl;
  same_body =
      same_body_of (make_packet 1 (status_response status)) (status_response status) refl (λ z k.
        subst
          (λ x.
            codec.unmarshal (body_bytes (parsed (status_response status))) x
            ≡ some (status_response status))
          (ap some_of k) status_read);
}

abbrev asker : Client ℕ
asker = new_base_client (λ ch. waiting)

abbrev asking : Client ℕ
asking = (ask_status true asker).0

asks : ask_status true asker ≡ (asking, inl 0)
unfolding ask_status request request_as new_base_client status_packet make_packet method is_response
    lookup
asks = refl

abbrev new_system : System ℕ
new_system = new_server printer with_target

idle : IsIdle new_system
unfolding new_server new_base_server
idle = record { loop_reads = refl; serve_selects = refl; no_reqs = refl }

first_id : assign_id asker.next_id ≡ 1
unfolding assign_id new_base_client
first_id = refl

asker_reads : asker.loop ≡ reading
unfolding new_base_client
asker_reads = refl

nothing_pending : lookup (assign_id asker.next_id) new_system.server.inbox ≡ none
unfolding new_server new_base_server lookup
nothing_pending = refl

status_round_trip_example : Answered codec wire printer with_target asker asking 0 new_system
status_round_trip_example =
    status_round_trip codec wire printer with_target (start (λ ch. waiting)) asker_reads asking 0
      asks
      (subst (λ i. Arrives codec wire (make_packet i status_request)) (sym first_id)
        request-Arrives)
      (subst (λ i. Arrives codec wire (make_packet i (status_response status))) (sym first_id)
        response-Arrives)
      new_system idle nothing_pending
