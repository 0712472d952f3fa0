-- ===== src/Proxygwctl/RoundTrip.antt =====
-- cmd/proxygwctl on one end of a connection and plugin/ctl/server.go on the other: the client gets the
-- status of the engine.
use proxygw.Prelude.{
  Text, [], ap, arith, bool_eq, delete, eq_iff, false, inl, inr, insert, lookup, nat_eq, none, refl,
  some, sym, text_eq, true, ℕ, ◌∙◌, ◌∷◌, ◌≡◌, ◌≢◌,
}
use proxygw.Engine.{Engine}
use proxygw.Ipc.Method.{
  Body, StatusResponse, status_request, status_response, method, zero_bodies, zero_status,
  is_response,
}
use proxygw.Ipc.Packet.{Packet, Message, Codec, parsed, make_packet, with_body, parse_raw_body}
use proxygw.Ipc.Client.{
  Client, reading, matching, assign_id, put_reply, request, request_as, read_at, read_with,
}
use proxygw.Ipc.Client.Step.{Reach, step, reads, requests, matches}
use proxygw.Ipc.Client.Replies.{request_distinct, response_delivered}
use proxygw.Ctl.Status.{Printer}
use proxygw.Ctl.Status as Statuses
use proxygw.Ctl.Serve.{System, response_to, serve_steps}
use proxygw.Ctl.Serve as Serve
use proxygw.Ctl.Serve.Answer.{IsIdle, answer_request}
use proxygw.Proxygwctl.{status_packet, ask_status, status_answer}

-- A packet that Encode of one end writes and Decode of the other reads. What the encoding packages
-- document: the id and the method arrive, and Unmarshal into a zero value makes of the body that
-- arrives the value that was sent.
pub record Arrives {Options : Type 0} (codec : Codec Options) (wire : Message Options → Packet Text)
    (m : Message Options) : Type 0 where
  pub same_id : (wire m).id ≡ m.id
  pub same_method : (wire m).method_id ≡ m.method_id
  pub same_body :
      (b z : Body Options)
      → m.body ≡ parsed b
      → lookup (method b) (zero_bodies codec.no_options) ≡ some z
      → codec.unmarshal (wire m).body z ≡ some b

module _ {Options : Type 0} (codec : Codec Options) (wire : Message Options → Packet Text) where
  parse-wire :
      (id : ℕ) (b z : Body Options)
      → Arrives codec wire (make_packet id b)
      → method b ≢ 0
      → lookup (method b) (zero_bodies codec.no_options) ≡ some z
      → parse_raw_body codec (wire (make_packet id b)) ≡ some (make_packet id b)
  unfolding parse_raw_body with_body make_packet
  parse-wire id b z a n l =
      let m : Message Options = make_packet id b in
      ground (arith, a.same_id, a.same_method, a.same_body b z refl l)

  parse-request :
      (id : ℕ)
      → Arrives codec wire (make_packet id status_request)
      → parse_raw_body codec (wire (make_packet id status_request))
        ≡ some (make_packet id status_request)
  unfolding zero_bodies lookup method
  parse-request id a =
      parse-wire id status_request status_request a (λ h. absurd (omega arith)) refl

  parse-response :
      (id : ℕ) (s : StatusResponse)
      → Arrives codec wire (make_packet id (status_response s))
      → parse_raw_body codec (wire (make_packet id (status_response s)))
        ≡ some (make_packet id (status_response s))
  unfolding zero_bodies lookup method
  parse-response id s a =
      parse-wire id (status_response s) (status_response zero_status) a (λ h. absurd (omega arith))
        refl

  -- The client reads the response to a request of its own.
  receive_status :
      (d : Client Options) (id ch : ℕ) (s : StatusResponse)
      → Arrives codec wire (make_packet id (status_response s))
      → Reach codec d
      → d.loop ≡ reading
      → id ≢ 0
      → lookup id d.outbox ≡ some ch
      → let res = make_packet id (status_response s) in
        (u : Client Options) × (v : Client Options) × (step codec (reads (some (wire res))) d
          ≡ some u)
        × (step codec matches u ≡ some v)
        × (status_answer (v.replies ch).response ≡ inl s)
  unfolding step read_at read_with status_answer make_packet is_response method
  receive_status d id ch s a r l n there =
      let res : Message Options = make_packet id (status_response s) in
      let u : Client Options = record d { loop = matching res } in
      let read : step codec (reads (some (wire res))) d ≡ some u =
        ground (arith, l, a.same_id, a.same_method, parse-response id s a) in
      elim (response_delivered codec (Reach.next (reads (some (wire res))) read r) res refl) [
        | inl (gone, _) ↦ absurd (ground (arith, there))
        | inr (to, at, k) ↦ (
          u,
          record d {
            loop = reading;
            outbox = delete res.id d.outbox;
            replies = put_reply to (record { response = some res; closed = false }) d.replies;
          },
          read,
          k,
          ground (arith, eq_iff to ch),
        )
      ]

  module _ (print : Printer) {Conn TC FC : Type 0} (e : Engine Conn TC FC) where
    -- The way of a status request, from a client that has called Request to what StatusRequest
    -- returns.
    pub record Answered (c d : Client Options) (ch : ℕ) (sys : System Options) : Type 0 where
      pub served : System Options
      pub read : Client Options
      pub got : Client Options
      pub sent : Message Options
      pub res : Message Options
      pub client_sends : d.sent ≡ sent ∷ c.sent
      pub server_answers :
          serve_steps print e codec
            (Serve.reads (some (wire sent))
              ∷ Serve.dispatches true
              ∷ Serve.sends_req
              ∷ Serve.takes_req
              ∷ Serve.handles true
              ∷ [])
            sys
          ≡ some served
      pub server_sends : served.server.sent ≡ res ∷ sys.server.sent
      pub client_reads : step codec (reads (some (wire res))) d ≡ some read
      pub client_matches : step codec matches read ≡ some got
      pub answer : status_answer (got.replies ch).response ≡ inl (Statuses.status_response print e)

    -- A client that waits for packets and asks for the status, of a server that is idle and that
    -- has not this id pending, gets it: its packet is answered by one of Serve, and StatusRequest
    -- returns what statusResponse made of the engine, if the writes succeed and the two packets arrive:
    -- each with its id and method, and with a body that Unmarshal reads into the zero value of its type
    -- as what was sent.
    pub status_round_trip :
        {c : Client Options}
        → Reach codec c
        → c.loop ≡ reading
        → (d : Client Options) (ch : ℕ) → ask_status true c ≡ (d, inl ch)
        → Arrives codec wire (make_packet (assign_id c.next_id) status_request)
        → Arrives codec wire
            (make_packet (assign_id c.next_id) (status_response (Statuses.status_response print e)))
        → (sys : System Options) → IsIdle sys
        → lookup (assign_id c.next_id) sys.server.inbox ≡ none
        → Answered c d ch sys
    unfolding ask_status status_packet status_answer response_to make_packet method is_response step
        request request_as
    status_round_trip {c} r l d ch h there_ok back_ok sys idle free =
        let id = assign_id c.next_id in
        let status = Statuses.status_response print e in
        let sent : Message Options = make_packet id status_request in
        let arrived = wire sent in
        let asked : request true status_packet c ≡ (d, inl ch) = ground arith in
        let (out, nonzero, _, _, there, _, _) =
          request_distinct codec r true status_packet d ch asked in
        let still_reads : d.loop ≡ reading = ground (arith, l) in
        let reached = Reach.next (requests true status_packet) (ap (λ x. some x.0) asked) r in
        let (read, got, reads_it, matches_it, has) =
          receive_status d id ch status back_ok reached still_reads nonzero there in
        record {
          served = record {
            server = record (sys.server) {
              sent = response_to print e sent ∷ sys.server.sent;
              inbox = delete arrived.id (insert arrived.id tt sys.server.inbox);
            };
            serving = Serve.selecting;
          };
          read = read;
          got = got;
          sent = sent;
          res = make_packet id (status_response status);
          client_sends = out;
          server_answers =
              answer_request print e codec sys arrived sent idle
                (λ z. nonzero (sym there_ok.same_id ∙ z)) (ground (arith, there_ok.same_method))
                (parse-request id there_ok) (sym there_ok.same_id) (rw there_ok.same_id free);
          server_sends = refl;
          client_reads = reads_it;
          client_matches = matches_it;
          answer = has;
        }
