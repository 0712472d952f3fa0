-- ===== src/Ipc/Client/Step.antt =====
-- The steps of plugin/ctl/ipc/base_client.go: those of its read loop and those of its owner.
use proxygw.Prelude.{Bool, Option, Text, none, option_map, some, ℕ, ◌≡◌}
use proxygw.Ipc.Packet.{Packet, Message, Codec}
use proxygw.Ipc.Channel.{receive}
use proxygw.Ipc.Client.{
  Client, Reply, new_base_client, put_reply, notify, request, read_at, send_notif_at, match_at,
  end_at,
}

pub data Action (Options : Type 0) : Type 0 where
  reads : Option (Packet Text) → Action Options
  sends_notif matches ends : Action Options
  notifies requests : Bool → Message Options → Action Options
  takes_notif : Action Options
  takes_reply : ℕ → Action Options

module _ {Options : Type 0} (codec : Codec Options) where
  unfoldable pub step : Action Options → Client Options → Option (Client Options)
  step (reads p) c = read_at c.loop codec p c
  step sends_notif c = send_notif_at c.loop c
  step matches c = match_at c.loop c
  step ends c = end_at c.loop c
  step (notifies ok p) c = some (notify ok p c).0
  step (requests ok p) c = some (request ok p c).0
  step takes_notif c = option_map (λ r. record c { notifs = r.1 }) (receive c.notifs)
  step (takes_reply ch) c =
      some
        (record c { replies = put_reply ch (record (c.replies ch) { response = none }) c.replies })

  -- The clients that steps lead to.
  pub data Reach : Client Options → Type 0 where
    start : (replies : ℕ → Reply (Message Options)) → Reach (new_base_client replies)
    next : {c d : Client Options} (a : Action Options) → step a c ≡ some d → Reach c → Reach d
