-- ===== src/Ctl/Serve/Progress.antt =====
-- When Serve of plugin/ctl/server.go answers, and when it and the read loop of
-- plugin/ctl/ipc/base_server.go wait for each other.
use proxygw.Prelude.{
  arith, bool_eq, delete, lookup, nat_eq, none, some, text_eq, true, ◌∷◌, ◌≡◌, ◌≢◌,
}
use proxygw.Engine.{Engine}
use proxygw.Ipc.Method.{is_response, method}
use proxygw.Ipc.Packet.{Message, Codec, make_packet}
use proxygw.Ipc.Server.{
  is_free, respond, respond_locked, read_at, send_notif_at, dispatch_at, send_req_at, end_at,
}
use proxygw.Ipc.Server.Blocking.{IsFull}
use proxygw.Ctl.Status.{Printer}
use proxygw.Ctl.Serve.{
  System, selecting, handling, Action, reads, sends_notif, dispatches, sends_req, ends, cancels,
  takes_req, takes_notif, handles, response_to, handle, handle_at, take_req_at, take_notif_at,
  cancel_at, serve_step,
}

module _ (print : Printer) {Conn TC FC Options : Type 0} (e : Engine Conn TC FC)
    (codec : Codec Options) where
  response_to-IsResponse :
      (req : Message Options)
      → let res = response_to print e req in (res.id ≡ req.id) × (is_response res.method_id ≡ true)
  unfolding response_to make_packet is_response method
  response_to-IsResponse req = (ground arith, ground arith)

  -- Serve answers the request that it has taken, if its id is pending, the lock is free and the
  -- write succeeds: one packet with that id is sent, the status of the engine for a status request
  -- and an error for any other, the id is no longer pending, and Serve selects again.
  pub handle_answers :
      (sys : System Options) (req : Message Options)
      → sys.serving ≡ handling req
      → req.id ≢ 0
      → lookup req.id sys.server.inbox ≡ some tt
      → is_free sys.server.loop ≡ true
      → serve_step print e codec (handles true) sys
        ≡ some (record {
          server = record (sys.server) {
            sent = response_to print e req ∷ sys.server.sent;
            inbox = delete req.id sys.server.inbox;
          };
          serving = selecting;
        })
  unfolding serve_step handle_at handle respond respond_locked
  handle_answers sys req s n p f =
      let (same_id, responds) = response_to-IsResponse req in ground arith

  -- Once the read loop waits with the lock for room among 16 requests, and Serve has taken one with
  -- an id other than 0, neither takes another step: Serve waits for the lock, the loop for Serve.
  pub serve_stuck :
      (sys : System Options) (p req : Message Options)
      → IsFull p sys.server
      → sys.serving ≡ handling req
      → req.id ≢ 0
      → (a : Action) → serve_step print e codec a sys ≡ none
  unfolding serve_step read_at send_notif_at dispatch_at send_req_at end_at cancel_at take_req_at
      take_notif_at handle_at handle respond
  serve_stuck sys p req f s n (reads q) = ground (arith, f.waits)
  serve_stuck sys p req f s n sends_notif = ground (arith, f.waits)
  serve_stuck sys p req f s n (dispatches ok) = ground (arith, f.waits)
  serve_stuck sys p req f s n sends_req = ground (arith, f.waits, f.no_room)
  serve_stuck sys p req f s n ends = ground (arith, f.waits)
  serve_stuck sys p req f s n cancels = ground arith
  serve_stuck sys p req f s n takes_req = ground arith
  serve_stuck sys p req f s n takes_notif = ground arith
  serve_stuck sys p req f s n (handles ok) =
      let (same_id, responds) = response_to-IsResponse req in ground (arith, f.waits)
