-- ===== src/Ipc/Peer/Notifications.antt =====
-- What the read loop of plugin/ctl/ipc/base_peer.go does with notifications.
use proxygw.Prelude.{
  Bool, List, Option-cases, Text, [], arith, bool_eq, codes, false, inl, inr, length, lookup,
  lookup-delete, lookup-insert, nat_eq, some, subst, sym, text_eq, true, ◌++◌, ◌<◌, ◌∷◌, ◌≡◌,
}
use proxygw.Ipc.Method.{error_response, is_response}
use proxygw.Ipc.Packet.{Packet, Message, Codec, make_packet, parse_raw_body}
use proxygw.Ipc.Peer.{
  Peer, Phase, reading, notifying, matching, received, sending, ending, ended, notify, request,
  request_as, respond, respond_locked, match_resp, read_with, read_at, send_notif_at, match_at,
  dispatch_with, dispatch_at, send_req_at, end_at,
}
use proxygw.Ipc.Peer.Step.{
  Action, step, steps, reads, sends_notif, matches, dispatches, sends_req, ends, notifies, requests,
  responds, takes_notif, takes_req, takes_reply,
}

module _ {Options : Type 0} (codec : Codec Options) where
  match_resp-inbox :
      (p : Message Options) (bp u : Peer Options) → match_resp p bp ≡ some u → u.inbox ≡ bp.inbox
  unfolding match_resp
  match_resp-inbox p bp u h = ground arith

  match_at-inbox :
      (l : Phase (Message Options)) (bp u : Peer Options)
      → match_at l bp ≡ some u
      → u.inbox ≡ bp.inbox
  unfolding match_at
  match_at-inbox (matching p) bp u h = elim (Option-cases (match_resp p bp)) [
    | inl n ↦ ground arith
    | inr (v, m) ↦ ground (arith, match_resp-inbox p bp v m)
  ]
  match_at-inbox reading bp u h = cc
  match_at-inbox (notifying p) bp u h = cc
  match_at-inbox (received p) bp u h = cc
  match_at-inbox (sending p) bp u h = cc
  match_at-inbox ending bp u h = cc
  match_at-inbox ended bp u h = cc

  dispatch_at-zero :
      (l : Phase (Message Options)) (ok : Bool) (bp u : Peer Options)
      → lookup 0 bp.inbox ≡ some tt
      → dispatch_at l ok bp ≡ some u
      → lookup 0 u.inbox ≡ some tt
  unfolding dispatch_at dispatch_with
  dispatch_at-zero (received p) ok bp u z h = ground (arith, lookup-insert p.id 0 tt bp.inbox)
  dispatch_at-zero reading ok bp u z h = cc
  dispatch_at-zero (notifying p) ok bp u z h = cc
  dispatch_at-zero (matching p) ok bp u z h = cc
  dispatch_at-zero (sending p) ok bp u z h = cc
  dispatch_at-zero ending ok bp u z h = cc
  dispatch_at-zero ended ok bp u z h = cc

  -- Respond takes no id 0 from the inbox.
  step-zero :
      (a : Action Options) (bp u : Peer Options)
      → lookup 0 bp.inbox ≡ some tt
      → step codec a bp ≡ some u
      → lookup 0 u.inbox ≡ some tt
  unfolding step notify request request_as respond respond_locked read_with read_at send_notif_at
      dispatch_with dispatch_at send_req_at end_at
  step-zero (reads p) bp u z h = ground arith
  step-zero sends_notif bp u z h = ground arith
  step-zero matches bp u z h =
      subst (λ x. lookup 0 x ≡ some tt) (sym (match_at-inbox bp.loop bp u h)) z
  step-zero (dispatches ok) bp u z h = dispatch_at-zero bp.loop ok bp u z h
  step-zero sends_req bp u z h = ground arith
  step-zero ends bp u z h = ground arith
  step-zero (notifies ok p) bp u z h = ground arith
  step-zero (requests ok p) bp u z h = ground arith
  step-zero (responds ok p) bp u z h = ground (arith, lookup-delete p.id 0 bp.inbox)
  step-zero takes_notif bp u z h = ground arith
  step-zero takes_req bp u z h = ground arith
  step-zero (takes_reply ch) bp u z h = ground arith

  steps-zero :
      (actions : List (Action Options)) (bp u : Peer Options)
      → lookup 0 bp.inbox ≡ some tt
      → steps codec actions bp ≡ some u
      → lookup 0 u.inbox ≡ some tt
  unfolding steps
  steps-zero [] bp u z h = ground arith
  steps-zero (a ∷ more) bp u z h = elim (Option-cases (step codec a bp)) [
    | inl n ↦ absurd (ground arith)
    | inr (v, e) ↦ steps-zero more v u (step-zero a bp v z e) (ground arith)
  ]

  -- A packet that a peer reads reaches dispatchReq, whatever it is, if its body parses: a
  -- notification too, for which there is room among those not received, when it is no response.
  pub notification_dispatched :
      (bp : Peer Options) (p : Packet Text) (q : Message Options)
      → bp.loop ≡ reading
      → parse_raw_body codec p ≡ some q
      → q.id ≡ 0
      → is_response q.method_id ≡ false
      → length bp.notifs < 16
      → steps codec (reads (some p) ∷ sends_notif ∷ matches ∷ []) bp
        ≡ some (record bp { notifs = bp.notifs ++ q ∷ []; loop = received q })
  unfolding steps step read_at read_with send_notif_at match_at
  notification_dispatched bp p q l e z n room = ground arith

  -- Behind the dispatch of one notification, however many steps later, each further one that is
  -- dispatched is refused with a packet that says that its request is already in flight.
  pub notifications_refused :
      (bp u : Peer Options) (p q : Message Options) (actions : List (Action Options))
      → p.id ≡ 0
      → steps codec actions (dispatch_with true p bp) ≡ some u
      → u.loop ≡ received q
      → q.id ≡ 0
      → step codec (dispatches true) u
        ≡ some (record u {
          sent =
              make_packet 0 (error_response (codes "existing request already in flight")) ∷ u.sent;
          loop = reading;
        })
  unfolding step dispatch_at dispatch_with
  notifications_refused bp u p q actions z h l w =
      let v = dispatch_with true p bp in
      ground (arith, steps-zero actions v u (ground (arith, lookup-insert p.id 0 tt bp.inbox)) h)
