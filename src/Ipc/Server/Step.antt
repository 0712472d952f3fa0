-- ===== src/Ipc/Server/Step.antt =====
-- The steps of plugin/ctl/ipc/base_server.go: those of its read loop and those of its owner.
use proxygw.Prelude.{Bool, Option, Text, option_map}
use proxygw.Ipc.Packet.{Packet, Message, Codec}
use proxygw.Ipc.Channel.{receive}
use proxygw.Ipc.Server.{
  Server, notify, respond, read_at, send_notif_at, dispatch_at, send_req_at, end_at,
}

pub data Action (Options : Type 0) : Type 0 where
  reads : Option (Packet Text) → Action Options
  sends_notif : Action Options
  dispatches : Bool → Action Options
  sends_req ends : Action Options
  notifies responds : Bool → Message Options → Action Options
  takes_notif takes_req : Action Options

module _ {Options : Type 0} (codec : Codec Options) where
  unfoldable pub step : Action Options → Server Options → Option (Server Options)
  step (reads p) s = read_at s.loop codec p s
  step sends_notif s = send_notif_at s.loop s
  step (dispatches ok) s = dispatch_at s.loop ok s
  step sends_req s = send_req_at s.loop s
  step ends s = end_at s.loop s
  step (notifies ok p) s = option_map (λ r. r.0) (notify ok p s)
  step (responds ok p) s = option_map (λ r. r.0) (respond ok p s)
  step takes_notif s = option_map (λ r. record s { notifs = r.1 }) (receive s.notifs)
  step takes_req s = option_map (λ r. record s { reqs = r.1 }) (receive s.reqs)
