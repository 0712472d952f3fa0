-- ===== src/Ipc/Server.antt =====
-- plugin/ctl/ipc/base_server.go: the end of a connection that receives requests. Its read loop is cut
-- where it waits or where the lock is free; `sending` is the one place where it waits with the lock.
pub mod Step
pub mod Answers
pub mod Blocking
use proxygw.Prelude.{
  Bool, Dict, List, Option, Text, [], bool_eq, codes, delete, false, if◌then◌else◌, insert, lookup,
  nat_eq, none, not, option_map, some, text_eq, true, ℕ, ◌&&◌, ◌==◌,
}
use proxygw.Ipc.Method.{Body, error_response, is_response}
use proxygw.Ipc.Packet.{Packet, Message, Payload, Codec, make_packet, parse_raw_body}
use proxygw.Ipc.Channel.{send, receive, write}

-- Where the read loop stands: before Read; before the send on notifs; before the lock of
-- dispatchReq; before the send on reqs, with the lock; before the lock of end; and behind its end.
pub data Phase (P : Type 0) : Type 0 where
  reading : Phase P
  notifying received sending : P → Phase P
  ending ended : Phase P

pub data Err : Type 0 where
  zero_id not_a_response not_pending write_failed : Err

pub record Server (Options : Type 0) : Type 0 where
  pub sent : List (Message Options)
  pub notifs : List (Message Options)
  pub reqs : List (Message Options)
  pub inbox : Dict ℕ (Unit {0})
  pub loop : Phase (Message Options)

pub write_err : Bool → Option Err
write_err true = none
write_err false = some write_failed

-- Whether the lock is free; every other holder lets it go in the step that takes it.
abbrev pub is_free : {P : Type 0} → Phase P → Bool
is_free (sending p) = false
is_free _ = true

module _ {Options : Type 0} where
  unfoldable pub new_base_server : Server Options
  new_base_server = record { sent = []; notifs = []; reqs = []; inbox = []; loop = reading }

  -- Notify; none waits for the lock.
  unfoldable pub notify :
      Bool → Message Options → Server Options → Option (Server Options × Option Err)
  unfolding write_err
  notify ok notif s =
      if is_free s.loop
      then some (record s { sent = write ok (record notif { id = 0 }) s.sent }, write_err ok)
      else none

  -- The part of Respond under the lock.
  unfoldable pub respond_locked :
      Bool → Message Options → Server Options → Server Options × Option Err
  respond_locked ok res s = elim (lookup res.id s.inbox) [
    | none ↦ (s, some not_pending)
    | some _ ↦
        if ok
        then (record s { sent = write ok res s.sent; inbox = delete res.id s.inbox }, none)
        else (s, some write_failed)
  ]

  -- Respond; none waits for the lock.
  unfoldable pub respond :
      Bool → Message Options → Server Options → Option (Server Options × Option Err)
  respond ok res s =
      if res.id == 0
      then some (s, some zero_id)
      else if not (is_response res.method_id)
      then some (s, some not_a_response)
      else if is_free s.loop
      then some (respond_locked ok res s)
      else none

  -- A round of the read loop with what Read answers, none for an error, up to where it waits.
  unfoldable pub read_with : Codec Options → Option (Packet Text) → Server Options → Server Options
  read_with codec none s = record s { loop = ending }
  read_with codec (some p) s =
      if not (p.id == 0) && is_response p.method_id then s else elim (parse_raw_body codec p) [
        | none ↦ record s { loop = ending }
        | some q ↦ record s { loop = if q.id == 0 then notifying q else received q }
      ]

  unfoldable pub read_at :
      Phase (Message Options)
      → Codec Options
      → Option (Packet Text)
      → Server Options
      → Option (Server Options)
  read_at reading codec p s = some (read_with codec p s)
  read_at _ codec p s = none

  -- `bs.notifs <- p`
  unfoldable pub send_notif_at : Phase (Message Options) → Server Options → Option (Server Options)
  send_notif_at (notifying p) s =
      option_map (λ ps. record s { notifs = ps; loop = reading }) (send p s.notifs)
  send_notif_at _ s = none

  -- dispatchReq up to `bs.reqs <- req`; a write that fails ends the loop.
  unfoldable pub dispatch_with : Bool → Message Options → Server Options → Server Options
  dispatch_with ok req s = elim (lookup req.id s.inbox) [
    | some _ ↦
        let refusal =
          make_packet req.id (error_response (codes "existing request already in flight")) in
        record s { sent = write ok refusal s.sent; loop = if ok then reading else ending }
    | none ↦ record s { inbox = insert req.id tt s.inbox; loop = sending req }
  ]

  unfoldable pub dispatch_at :
      Phase (Message Options) → Bool → Server Options → Option (Server Options)
  dispatch_at (received p) ok s = some (dispatch_with ok p s)
  dispatch_at _ ok s = none

  -- `bs.reqs <- req`
  unfoldable pub send_req_at : Phase (Message Options) → Server Options → Option (Server Options)
  send_req_at (sending p) s =
      option_map (λ ps. record s { reqs = ps; loop = reading }) (send p s.reqs)
  send_req_at _ s = none

  -- end closes the two channels, whose values can still be received.
  unfoldable pub end_at : Phase (Message Options) → Server Options → Option (Server Options)
  end_at ending s = some (record s { loop = ended })
  end_at _ s = none
