-- ===== src/Ctl/Serve.antt =====
-- Serve and handle of plugin/ctl/server.go, as the owner of one end of a connection. `handling` is
-- Serve behind the receipt of a request, before Respond lets it go on.
pub mod Progress
pub mod Answer
use proxygw.Prelude.{Bool, List, Option, Text, [], codes, none, option_map, some, ◌++◌, ◌∷◌}
use proxygw.Engine.{Engine}
use proxygw.Ipc.Method.{status_request, status_response, error_response}
use proxygw.Ipc.Packet.{Packet, Payload, Message, Codec, raw, parsed, make_packet}
use proxygw.Ipc.Channel.{receive}
use proxygw.Ipc.Server.{
  Server, Err, ended, new_base_server, respond, read_at, send_notif_at, dispatch_at, send_req_at,
  end_at,
}
use proxygw.Ctl.Status.{Printer}
use proxygw.Ctl.Status as Statuses

pub data Serving (P : Type 0) : Type 0 where
  selecting : Serving P
  handling : P → Serving P
  returned : Serving P

pub record System (Options : Type 0) : Type 0 where
  pub server : Server Options
  pub serving : Serving (Message Options)

pub data Action : Type 0 where
  reads : Option (Packet Text) → Action
  sends_notif : Action
  dispatches : Bool → Action
  sends_req ends : Action
  cancels takes_req takes_notif : Action
  handles : Bool → Action

module _ (print : Printer) {Conn TC FC Options : Type 0} (e : Engine Conn TC FC) where
  unfoldable pub response_to : Message Options → Message Options
  response_to req = elim req.body [
    | parsed status_request ↦
        make_packet req.id (status_response (Statuses.status_response print e))
    | _ ↦
        make_packet req.id
          (error_response (codes "unsupported method " ++ print.number req.method_id))
  ]

  -- handle; none waits in Respond for the lock.
  unfoldable pub handle :
      Bool → Message Options → Server Options → Option (Server Options × Option Err)
  handle ok req s = respond ok (response_to req) s

  -- NewServer
  unfoldable pub new_server : System Options
  new_server = record { server = new_base_server; serving = selecting }

  -- The branches of the select. A closed channel of requests ends Serve, as the context does.
  unfoldable pub take_req_at : Serving (Message Options) → System Options → Option (System Options)
  take_req_at selecting sys = elim (receive sys.server.reqs) [
    | some (req, rest) ↦
        some (record { server = record (sys.server) { reqs = rest }; serving = handling req })
    | none ↦ elim sys.server.loop [ ended ↦ some (record sys { serving = returned }) | _ ↦ none ]
  ]
  take_req_at _ sys = none

  unfoldable pub take_notif_at :
      Serving (Message Options) → System Options → Option (System Options)
  take_notif_at selecting sys =
      option_map (λ r. record sys { server = record (sys.server) { notifs = r.1 } })
        (receive sys.server.notifs)
  take_notif_at _ sys = none

  unfoldable pub cancel_at : Serving (Message Options) → System Options → Option (System Options)
  cancel_at selecting sys = some (record sys { serving = returned })
  cancel_at _ sys = none

  -- `if err := s.handle(req); err != nil { return err }`
  unfoldable pub handle_at :
      Serving (Message Options) → Bool → System Options → Option (System Options)
  handle_at (handling req) ok sys =
      option_map
        (λ r. record {
          server = r.0;
          serving = elim r.1 [ none ↦ selecting | some err ↦ returned ];
        })
        (handle ok req sys.server)
  handle_at _ ok sys = none

  abbrev in_server : System Options → Option (Server Options) → Option (System Options)
  in_server sys s = option_map (λ s. record sys { server = s }) s

  -- The steps of the read loop and of Serve.
  unfoldable pub serve_step : Codec Options → Action → System Options → Option (System Options)
  serve_step codec (reads p) sys = in_server sys (read_at sys.server.loop codec p sys.server)
  serve_step codec sends_notif sys = in_server sys (send_notif_at sys.server.loop sys.server)
  serve_step codec (dispatches ok) sys = in_server sys (dispatch_at sys.server.loop ok sys.server)
  serve_step codec sends_req sys = in_server sys (send_req_at sys.server.loop sys.server)
  serve_step codec ends sys = in_server sys (end_at sys.server.loop sys.server)
  serve_step codec cancels sys = cancel_at sys.serving sys
  serve_step codec takes_req sys = take_req_at sys.serving sys
  serve_step codec takes_notif sys = take_notif_at sys.serving sys
  serve_step codec (handles ok) sys = handle_at sys.serving ok sys

  -- Several steps, none if one of them is not possible.
  unfoldable pub serve_steps :
      Codec Options → List Action → System Options → Option (System Options)
  serve_steps codec [] sys = some sys
  serve_steps codec (a ∷ more) sys = elim (serve_step codec a sys) [
    | none ↦ none
    | some next ↦ serve_steps codec more next
  ]
