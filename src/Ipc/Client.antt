-- ===== src/Ipc/Client.antt =====
-- plugin/ctl/ipc/base_client.go: the end of a connection that sends requests. A channel for a response
-- has one place and stands in a store under a number, which is what Request returns and what the
-- outbox leads to.
pub mod Step
pub mod Replies
use proxygw.Prelude.{
  Bool, Dict, List, Option, Text, [], bool_eq, delete, false, if◌then◌else◌, inl, inr, insert,
  lookup, nat_eq, none, not, option_map, some, suc, text_eq, true, ℕ, ◌%◌, ◌&&◌, ◌+◌, ◌==◌, ◌^◌,
  ◌∷◌, ◌⊎◌,
}
use proxygw.Ipc.Method.{is_response}
use proxygw.Ipc.Packet.{Packet, Message, Codec, parse_raw_body}
use proxygw.Ipc.Channel.{send, write}

-- Where the read loop stands: before Read; before the send on notifs; before the lock of matchResp;
-- before the lock of end; and behind its end.
pub data Phase (P : Type 0) : Type 0 where
  reading : Phase P
  notifying matching : P → Phase P
  ending ended : Phase P

pub data Err : Type 0 where
  cannot_send_response id_in_use write_failed : Err

-- A channel for a response: the response that nobody has received yet, and whether it is closed.
pub record Reply (P : Type 0) : Type 0 where
  pub response : Option P
  pub closed : Bool

pub record Client (Options : Type 0) : Type 0 where
  pub sent : List (Message Options)
  pub notifs : List (Message Options)
  pub outbox : Dict ℕ ℕ
  pub next_id : ℕ
  pub replies : ℕ → Reply (Message Options)
  pub next_reply : ℕ
  pub loop : Phase (Message Options)

abbrev pub put_reply : {P : Type 0} → ℕ → Reply P → (ℕ → Reply P) → ℕ → Reply P
put_reply ch r replies i = if ch == i then r else replies i

-- assignId on a uint32
unfoldable pub assign_id : ℕ → ℕ
assign_id next_id = let next = (next_id + 1) % 2 ^ 32 in if next == 0 then 1 else next

module _ {Options : Type 0} where
  unfoldable pub new_base_client : (ℕ → Reply (Message Options)) → Client Options
  new_base_client replies = record {
    sent = [];
    notifs = [];
    outbox = [];
    next_id = 0;
    replies = replies;
    next_reply = 0;
    loop = reading;
  }

  unfoldable pub notify : Bool → Message Options → Client Options → Client Options × Option Err
  notify ok notif c =
      let notif₀ : Message Options = record notif { id = 0 } in
      (record c { sent = write ok notif₀ c.sent }, if ok then none else some write_failed)

  -- Request under the lock, with the id that it has assigned: the channel, or an error. The channel
  -- that `make` gives when the write fails is closed and nobody gets to know it.
  unfoldable pub request_as :
      ℕ → Bool → Message Options → Client Options → Client Options × (ℕ ⊎ Err)
  request_as id ok req c = elim (lookup id c.outbox) [
    | some _ ↦ (record c { next_id = id }, inr id_in_use)
    | none ↦
        if ok
        then (
          record c {
            next_id = id;
            sent = write ok (record req { id = id }) c.sent;
            outbox = insert id c.next_reply c.outbox;
            replies = put_reply c.next_reply (record { response = none; closed = false }) c.replies;
            next_reply = suc c.next_reply;
          },
          inl c.next_reply,
        )
        else (
          record c {
            next_id = id;
            replies = put_reply c.next_reply (record { response = none; closed = true }) c.replies;
            next_reply = suc c.next_reply;
          },
          inr write_failed,
        )
  ]

  unfoldable pub request : Bool → Message Options → Client Options → Client Options × (ℕ ⊎ Err)
  request ok req c =
      if is_response req.method_id
      then (c, inr cannot_send_response)
      else request_as (assign_id c.next_id) ok req c

  -- The send on a channel with one place: none waits, or panics on a closed channel.
  unfoldable pub send_reply :
      Message Options → Reply (Message Options) → Option (Reply (Message Options))
  send_reply res r = elim r.response [
    | some _ ↦ none
    | none ↦ if r.closed then none else some (record r { response = some res })
  ]

  unfoldable pub match_resp : Message Options → Client Options → Option (Client Options)
  match_resp res c = elim (lookup res.id c.outbox) [
    | none ↦ some c
    | some ch ↦
        option_map
          (λ r. record c { outbox = delete res.id c.outbox; replies = put_reply ch r c.replies })
          (send_reply res (c.replies ch))
  ]

  -- A round of the read loop with what Read answers, none for an error, up to where it waits.
  unfoldable pub read_with : Codec Options → Option (Packet Text) → Client Options → Client Options
  read_with codec none c = record c { loop = ending }
  read_with codec (some p) c =
      if not (p.id == 0) && not (is_response p.method_id)
      then c
      else elim (parse_raw_body codec p) [
        | none ↦ record c { loop = ending }
        | some q ↦ record c { loop = if q.id == 0 then notifying q else matching q }
      ]

  unfoldable pub read_at :
      Phase (Message Options)
      → Codec Options
      → Option (Packet Text)
      → Client Options
      → Option (Client Options)
  read_at reading codec p c = some (read_with codec p c)
  read_at _ codec p c = none

  -- `bc.notifs <- p`
  unfoldable pub send_notif_at : Phase (Message Options) → Client Options → Option (Client Options)
  send_notif_at (notifying p) c =
      option_map (λ ps. record c { notifs = ps; loop = reading }) (send p c.notifs)
  send_notif_at _ c = none

  unfoldable pub match_at : Phase (Message Options) → Client Options → Option (Client Options)
  match_at (matching p) c =
      option_map {A = Client Options} (λ d. record d { loop = reading }) (match_resp p c)
  match_at _ c = none

  -- The channels of the outbox, closed.
  unfoldable pub close_replies :
      Dict ℕ ℕ → (ℕ → Reply (Message Options)) → ℕ → Reply (Message Options)
  close_replies [] replies = replies
  close_replies ((id, ch) ∷ outbox) replies =
      close_replies outbox (put_reply ch (record (replies ch) { closed = true }) replies)

  unfoldable pub end_at : Phase (Message Options) → Client Options → Option (Client Options)
  end_at ending c = some (record c { replies = close_replies c.outbox c.replies; loop = ended })
  end_at _ c = none
