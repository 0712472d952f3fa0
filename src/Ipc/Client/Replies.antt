-- ===== src/Ipc/Client/Replies.antt =====
-- Which channel a response comes on in plugin/ctl/ipc/base_client.go.
use proxygw.Prelude.{
  Bool, Bool-cases, Option, Option-cases, Text, arith, bool_eq, delete, eq_iff, false, inl, inr,
  lookup, lookup-delete, lookup-insert, lookup-insert_self, nat_eq, none, refl, some, subst, sym,
  text_eq, ℕ, ◌<◌, ◌^◌, ◌∷◌, ◌≡◌, ◌≢◌, ◌⊎◌,
}
use proxygw.Ipc.Method.{is_response}
use proxygw.Ipc.Packet.{Packet, Message, Codec}
use proxygw.Ipc.Client.{
  Client, Reply, Phase, reading, notifying, matching, ending, ended, put_reply, assign_id,
  new_base_client, notify, request, request_as, send_reply, match_resp, read_with, read_at,
  send_notif_at, match_at, end_at,
}
use proxygw.Ipc.Client.Step.{
  Action, step, Reach, start, next, reads, sends_notif, matches, ends, notifies, requests,
  takes_notif, takes_reply,
}

-- A channel on which nothing was sent, and which is not closed.
abbrev pub waiting : {P : Type 0} → Reply P
waiting = record { response = none; closed = false }

assign_id_bounds : (n : ℕ) → (assign_id n ≢ 0) × (assign_id n < 2 ^ 32)
unfolding assign_id
assign_id_bounds n = (ground arith, ground arith)

module _ {Options : Type 0} where
  -- Each id of the outbox has its own channel, which waits.
  pub record Inv (c : Client Options) : Type 0 where
    pub made : (id ch : ℕ) → lookup id c.outbox ≡ some ch → ch < c.next_reply
    pub waits : (id ch : ℕ) → c.loop ≢ ended → lookup id c.outbox ≡ some ch → c.replies ch ≡ waiting
    pub apart :
        (id id' ch : ℕ) → lookup id c.outbox ≡ some ch → lookup id' c.outbox ≡ some ch → id ≡ id'

  new-Inv : (replies : ℕ → Reply (Message Options)) → Inv (new_base_client replies)
  unfolding new_base_client lookup
  new-Inv replies = record {
    made = λ id ch h. cc;
    waits = λ id ch n h. cc;
    apart = λ id id' ch h h'. cc;
  }

  request_as-Inv :
      (id : ℕ) (ok : Bool) (req : Message Options) (c : Client Options)
      → Inv c
      → Inv (request_as id ok req c).0
  unfolding request_as
  request_as-Inv id ok req c v = record {
    made = λ at ch h. ground (arith, lookup-insert id at c.next_reply c.outbox, v.made at ch);
    waits = λ at ch n h.
        ground (arith, lookup-insert id at c.next_reply c.outbox, v.waits at ch, v.made at ch);
    apart = λ at at' ch h h'. ground (
      arith,
      lookup-insert id at c.next_reply c.outbox,
      lookup-insert id at' c.next_reply c.outbox,
      eq_iff id at,
      eq_iff id at',
      v.apart at at' ch,
      v.made at ch,
      v.made at' ch,
    );
  }

  match_resp-Inv :
      (res : Message Options) (c d : Client Options) → Inv c → match_resp res c ≡ some d → Inv d
  unfolding match_resp send_reply
  match_resp-Inv res c d v h = record {
    made = λ at ch k. ground (arith, lookup-delete res.id at c.outbox, v.made at ch);
    waits = λ at ch n k. elim (Option-cases (lookup res.id c.outbox)) [
      | inl e ↦ ground (arith, v.waits at ch)
      | inr (to, e) ↦ ground (
        arith,
        lookup-delete res.id at c.outbox,
        eq_iff res.id at,
        v.apart res.id at ch,
        v.waits at ch,
        v.waits res.id to,
      )
    ];
    apart = λ at at' ch k k'. ground (
      arith,
      lookup-delete res.id at c.outbox,
      lookup-delete res.id at' c.outbox,
      v.apart at at' ch,
    );
  }

  -- A step that leaves the outbox and its channels, or that ends the loop.
  keep-Inv :
      (c d : Client Options)
      → Inv c
      → d.outbox ≡ c.outbox
      → d.next_reply ≡ c.next_reply
      → ((ch : ℕ) → d.loop ≢ ended → c.replies ch ≡ waiting → d.replies ch ≡ waiting)
      → (d.loop ≢ ended → c.loop ≢ ended)
      → Inv d
  keep-Inv c d v o n w l = record {
    made = λ id ch h. ground (arith, v.made id ch);
    waits = λ id ch m h. w ch m (v.waits id ch (l m) (rw (sym o) h));
    apart = λ id id' ch h k. ground (arith, v.apart id id' ch);
  }

  match_resp-loop :
      (res : Message Options) (c d : Client Options) → match_resp res c ≡ some d → d.loop ≡ c.loop
  unfolding match_resp
  match_resp-loop res c d h = ground arith

  match_at-Inv :
      (l : Phase (Message Options)) (c d : Client Options)
      → Inv c
      → c.loop ≡ l
      → match_at l c ≡ some d
      → Inv d
  unfolding match_at
  match_at-Inv (matching res) c d v e h = elim (Option-cases (match_resp res c)) [
    | inl n ↦ absurd (ground arith)
    | inr (u, m) ↦
        let f = match_resp-loop res c u m in
        keep-Inv u d (match_resp-Inv res c u v m) (ground arith) (ground arith)
          (λ ch x w. ground arith) (λ x. ground arith)
  ]
  match_at-Inv reading c d v e h = cc
  match_at-Inv (notifying p) c d v e h = cc
  match_at-Inv ending c d v e h = cc
  match_at-Inv ended c d v e h = cc

  request-Inv :
      (ok : Bool) (req : Message Options) (c : Client Options) → Inv c → Inv (request ok req c).0
  unfolding request
  request-Inv ok req c v = elim (Bool-cases (is_response req.method_id)) [
    | inl e ↦ rw e v
    | inr e ↦ rw e (request_as-Inv (assign_id c.next_id) ok req c v)
  ]

  module _ (codec : Codec Options) where
    read-keeps :
        (p : Option (Packet Text)) (c d : Client Options)
        → step codec (reads p) c ≡ some d
        → (d.outbox ≡ c.outbox)
          × (d.next_reply ≡ c.next_reply)
          × (d.replies ≡ c.replies)
          × (c.loop ≡ reading)
    unfolding step read_at read_with
    read-keeps p c d h = ground arith

    step-Inv : (a : Action Options) (c d : Client Options) → Inv c → step codec a c ≡ some d → Inv d
    unfolding step send_notif_at match_at end_at notify request
    step-Inv (reads p) c d v h =
        let (o, n, r, l) = read-keeps p c d h in
        keep-Inv c d v o n (λ ch m w. ground (arith, r)) (λ m. ground (arith, l))
    step-Inv sends_notif c d v h =
        keep-Inv c d v (ground arith) (ground arith) (λ ch m w. ground arith) (λ m. ground arith)
    step-Inv matches c d v h = match_at-Inv c.loop c d v refl h
    step-Inv ends c d v h =
        keep-Inv c d v (ground arith) (ground arith) (λ ch m w. ground arith) (λ m. ground arith)
    step-Inv (notifies ok p) c d v h =
        keep-Inv c d v (ground arith) (ground arith) (λ ch m w. ground arith) (λ m. ground arith)
    step-Inv (requests ok p) c d v h = subst Inv (ground arith) (request-Inv ok p c v)
    step-Inv takes_notif c d v h =
        keep-Inv c d v (ground arith) (ground arith) (λ ch m w. ground arith) (λ m. ground arith)
    step-Inv (takes_reply at) c d v h =
        keep-Inv c d v (ground arith) (ground arith) (λ ch m w. ground arith) (λ m. ground arith)

    client-Inv : {c : Client Options} → Reach codec c → Inv c
    client-Inv (start replies) = new-Inv replies
    client-Inv (next {c} {d} a h r) = step-Inv a c d (client-Inv r) h

    -- A request that was written has an id from 1 to 2^32 - 1 that no request waiting for a response
    -- has, and its response is to come on a new channel, which waits and is no other request's.
    pub request_distinct :
        {c : Client Options}
        → Reach codec c
        → (ok : Bool) (req : Message Options) (d : Client Options) (ch : ℕ)
        → request ok req c ≡ (d, inl ch)
        → let id = assign_id c.next_id in
          (d.sent ≡ record req { id = id } ∷ c.sent)
          × (id ≢ 0)
          × (id < 2 ^ 32)
          × (lookup id c.outbox ≡ none)
          × (lookup id d.outbox ≡ some ch)
          × (d.replies ch ≡ waiting)
          × ((other : ℕ) → lookup other c.outbox ≢ some ch)
    unfolding request request_as
    request_distinct {c} r ok req d ch h =
        let v = client-Inv r in
        let id = assign_id c.next_id in
        let (n, b) = assign_id_bounds c.next_id in
        (
          ground arith,
          n,
          b,
          ground arith,
          ground (arith, lookup-insert_self id c.next_reply c.outbox),
          ground arith,
          λ other k. ground (arith, v.made other ch k),
        )

    -- The read loop never waits on a response: one with the id of a request that waits goes to that
    -- request's channel, which is then forgotten, and any other is dropped.
    pub response_delivered :
        {c : Client Options}
        → Reach codec c
        → (res : Message Options) → c.loop ≡ matching res
        → ((lookup res.id c.outbox ≡ none)
            × (step codec matches c ≡ some (record c { loop = reading })))
          ⊎ ((ch : ℕ) × (lookup res.id c.outbox ≡ some ch)
              × (step codec matches c
                  ≡ some (record c {
                    loop = reading;
                    outbox = delete res.id c.outbox;
                    replies =
                        put_reply ch (record { response = some res; closed = false }) c.replies;
                  })))
    unfolding step match_at match_resp send_reply
    response_delivered {c} r res e = elim (Option-cases (lookup res.id c.outbox)) [
      | inl n ↦ inl (n, ground arith)
      | inr (ch, k) ↦ inr (ch, k, ground (arith, (client-Inv r).waits res.id ch (ground arith) k))
    ]
