-- ===== src/Ipc/Peer.antt =====
-- plugin/ctl/ipc/base_peer.go: an end of a connection that sends and receives requests. As in the
-- client, a channel for a response is a number; as in the server, `sending` waits with the lock.
pub mod Step
pub mod Notifications
use proxygw.Prelude.{
  Bool, Dict, List, Option, Text, [], bool_eq, codes, delete, false, if◌then◌else◌, inl, inr,
  insert, lookup, nat_eq, none, option_map, some, suc, text_eq, true, ℕ, ◌==◌, ◌⊎◌,
}
use proxygw.Ipc.Method.{error_response, is_response}
use proxygw.Ipc.Packet.{Packet, Message, Codec, make_packet, parse_raw_body}
use proxygw.Ipc.Channel.{send, write}
use proxygw.Ipc.Client.{Reply, put_reply, assign_id, send_reply, close_replies}

-- Where the read loop stands: before Read; before the send on notifs; before the test for a
-- response; before the lock of dispatchReq; before the send on reqs, with the lock; before the lock
-- of end; and behind its end.
pub data Phase (P : Type 0) : Type 0 where
  reading : Phase P
  notifying matching received sending : P → Phase P
  ending ended : Phase P

pub data Err : Type 0 where
  zero_id id_in_use not_pending write_failed : Err

pub record Peer (Options : Type 0) : Type 0 where
  pub sent : List (Message Options)
  pub notifs : List (Message Options)
  pub reqs : List (Message Options)
  pub outbox : Dict ℕ ℕ
  pub inbox : Dict ℕ (Unit {0})
  pub next_id : ℕ
  pub replies : ℕ → Reply (Message Options)
  pub next_reply : ℕ
  pub loop : Phase (Message Options)

abbrev pub is_free : {P : Type 0} → Phase P → Bool
is_free (sending p) = false
is_free _ = true

module _ {Options : Type 0} where
  unfoldable pub new_base_peer : (ℕ → Reply (Message Options)) → Peer Options
  new_base_peer replies = record {
    sent = [];
    notifs = [];
    reqs = [];
    outbox = [];
    inbox = [];
    next_id = 0;
    replies = replies;
    next_reply = 0;
    loop = reading;
  }

  -- Notify; none waits for the lock, as in the calls below.
  unfoldable pub notify : Bool → Message Options → Peer Options → Option (Peer Options × Option Err)
  notify ok notif bp =
      if is_free bp.loop
      then some (
        record bp { sent = write ok (record notif { id = 0 }) bp.sent },
        if ok then none else some write_failed,
      )
      else none

  -- Request under the lock, with the id that it has assigned.
  unfoldable pub request_as : ℕ → Bool → Message Options → Peer Options → Peer Options × (ℕ ⊎ Err)
  request_as id ok req bp = elim (lookup id bp.outbox) [
    | some _ ↦ (record bp { next_id = id }, inr id_in_use)
    | none ↦
        if ok
        then (
          record bp {
            next_id = id;
            sent = write ok (record req { id = id }) bp.sent;
            outbox = insert id bp.next_reply bp.outbox;
            replies =
                put_reply bp.next_reply (record { response = none; closed = false }) bp.replies;
            next_reply = suc bp.next_reply;
          },
          inl bp.next_reply,
        )
        else (
          record bp {
            next_id = id;
            replies =
                put_reply bp.next_reply (record { response = none; closed = true }) bp.replies;
            next_reply = suc bp.next_reply;
          },
          inr write_failed,
        )
  ]

  unfoldable pub request : Bool → Message Options → Peer Options → Option (Peer Options × (ℕ ⊎ Err))
  request ok req bp =
      if is_free bp.loop then some (request_as (assign_id bp.next_id) ok req bp) else none

  -- The part of Respond under the lock.
  unfoldable pub respond_locked : Bool → Message Options → Peer Options → Peer Options × Option Err
  respond_locked ok res bp = elim (lookup res.id bp.inbox) [
    | none ↦ (bp, some not_pending)
    | some _ ↦
        if ok
        then (record bp { sent = write ok res bp.sent; inbox = delete res.id bp.inbox }, none)
        else (bp, some write_failed)
  ]

  unfoldable pub respond :
      Bool → Message Options → Peer Options → Option (Peer Options × Option Err)
  respond ok res bp =
      if res.id == 0
      then some (bp, some zero_id)
      else if is_free bp.loop
      then some (respond_locked ok res bp)
      else none

  unfoldable pub match_resp : Message Options → Peer Options → Option (Peer Options)
  match_resp res bp = elim (lookup res.id bp.outbox) [
    | none ↦ some bp
    | some ch ↦
        option_map
          (λ r. record bp { outbox = delete res.id bp.outbox; replies = put_reply ch r bp.replies })
          (send_reply res (bp.replies ch))
  ]

  -- A round of the read loop with what Read answers, none for an error, up to where it waits.
  unfoldable pub read_with : Codec Options → Option (Packet Text) → Peer Options → Peer Options
  read_with codec none bp = record bp { loop = ending }
  read_with codec (some p) bp = elim (parse_raw_body codec p) [
    | none ↦ record bp { loop = ending }
    | some q ↦ record bp { loop = if q.id == 0 then notifying q else matching q }
  ]

  unfoldable pub read_at :
      Phase (Message Options)
      → Codec Options
      → Option (Packet Text)
      → Peer Options
      → Option (Peer Options)
  read_at reading codec p bp = some (read_with codec p bp)
  read_at _ codec p bp = none

  -- `bp.notifs <- p`, behind which the loop goes on with the same packet.
  unfoldable pub send_notif_at : Phase (Message Options) → Peer Options → Option (Peer Options)
  send_notif_at (notifying p) bp =
      option_map (λ ps. record bp { notifs = ps; loop = matching p }) (send p bp.notifs)
  send_notif_at _ bp = none

  -- The test for a response, and matchResp.
  unfoldable pub match_at : Phase (Message Options) → Peer Options → Option (Peer Options)
  match_at (matching p) bp =
      option_map {A = Peer Options} (λ u. record u { loop = received p })
        (if is_response p.method_id then match_resp p bp else some bp)
  match_at _ bp = none

  -- dispatchReq up to `bp.reqs <- req`; a write that fails ends the loop.
  unfoldable pub dispatch_with : Bool → Message Options → Peer Options → Peer Options
  dispatch_with ok req bp = elim (lookup req.id bp.inbox) [
    | some _ ↦
        let refusal =
          make_packet req.id (error_response (codes "existing request already in flight")) in
        record bp { sent = write ok refusal bp.sent; loop = if ok then reading else ending }
    | none ↦ record bp { inbox = insert req.id tt bp.inbox; loop = sending req }
  ]

  unfoldable pub dispatch_at : Phase (Message Options) → Bool → Peer Options → Option (Peer Options)
  dispatch_at (received p) ok bp = some (dispatch_with ok p bp)
  dispatch_at _ ok bp = none

  -- `bp.reqs <- req`
  unfoldable pub send_req_at : Phase (Message Options) → Peer Options → Option (Peer Options)
  send_req_at (sending p) bp =
      option_map (λ ps. record bp { reqs = ps; loop = reading }) (send p bp.reqs)
  send_req_at _ bp = none

  unfoldable pub end_at : Phase (Message Options) → Peer Options → Option (Peer Options)
  end_at ending bp = some (record bp { replies = close_replies bp.outbox bp.replies; loop = ended })
  end_at _ bp = none
