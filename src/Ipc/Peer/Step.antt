-- ===== src/Ipc/Peer/Step.antt =====
-- The steps of plugin/ctl/ipc/base_peer.go: those of its read loop and those of its owner.
use proxygw.Prelude.{Bool, List, Option, Text, [], none, option_map, some, ℕ, ◌∷◌}
use proxygw.Ipc.Packet.{Packet, Message, Codec}
use proxygw.Ipc.Channel.{receive}
use proxygw.Ipc.Client.{put_reply}
use proxygw.Ipc.Peer.{
  Peer, notify, request, respond, read_at, send_notif_at, match_at, dispatch_at, send_req_at,
  end_at,
}

pub data Action (Options : Type 0) : Type 0 where
  reads : Option (Packet Text) → Action Options
  sends_notif matches : Action Options
  dispatches : Bool → Action Options
  sends_req ends : Action Options
  notifies requests responds : Bool → Message Options → Action Options
  takes_notif takes_req : Action Options
  takes_reply : ℕ → Action Options

module _ {Options : Type 0} (codec : Codec Options) where
  unfoldable pub step : Action Options → Peer Options → Option (Peer Options)
  step (reads p) bp = read_at bp.loop codec p bp
  step sends_notif bp = send_notif_at bp.loop bp
  step matches bp = match_at bp.loop bp
  step (dispatches ok) bp = dispatch_at bp.loop ok bp
  step sends_req bp = send_req_at bp.loop bp
  step ends bp = end_at bp.loop bp
  step (notifies ok p) bp = option_map (λ r. r.0) (notify ok p bp)
  step (requests ok p) bp = option_map (λ r. r.0) (request ok p bp)
  step (responds ok p) bp = option_map (λ r. r.0) (respond ok p bp)
  step takes_notif bp = option_map (λ r. record bp { notifs = r.1 }) (receive bp.notifs)
  step takes_req bp = option_map (λ r. record bp { reqs = r.1 }) (receive bp.reqs)
  step (takes_reply ch) bp =
      some (record bp {
        replies = put_reply ch (record (bp.replies ch) { response = none }) bp.replies;
      })

  -- Several steps, none if one of them is not possible.
  unfoldable pub steps : List (Action Options) → Peer Options → Option (Peer Options)
  steps [] bp = some bp
  steps (a ∷ more) bp = elim (step a bp) [ none ↦ none | some u ↦ steps more u ]
