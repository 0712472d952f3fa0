-- ===== src/Ipc/Server/Blocking.antt =====
-- What plugin/ctl/ipc/base_server.go can do while dispatchReq waits on a full channel of requests with
-- the lock.
use proxygw.Prelude.{arith, false, length, ltb, refl, some, ◌≡◌, ◌≢◌}
use proxygw.Ipc.Packet.{Message, Codec}
use proxygw.Ipc.Server.{
  Server, sending, notify, respond, read_at, send_notif_at, dispatch_at, send_req_at, end_at,
}
use proxygw.Ipc.Server.Step.{
  Action, step, reads, sends_notif, dispatches, sends_req, ends, notifies, responds, takes_notif,
  takes_req,
}

module _ {Options : Type 0} where
  -- The loop waits with the lock for room for `p`.
  pub record IsFull (p : Message Options) (s : Server Options) : Type 0 where
    pub waits : s.loop ≡ sending p
    pub no_room : ltb (length s.reqs) 16 ≡ false

  -- What is the same for a server before and behind a step that changes no more than what its owner
  -- has received of its notifications.
  pub record SameButNotifs (s u : Server Options) : Type 0 where
    pub same_sent : u.sent ≡ s.sent
    pub same_reqs : u.reqs ≡ s.reqs
    pub same_inbox : u.inbox ≡ s.inbox
    pub same_loop : u.loop ≡ s.loop

module _ {Options : Type 0} (codec : Codec Options) where
  -- While the read loop waits for room among 16 requests that were not received, any step but the
  -- receipt of one of them reads no packet, sends none and answers no request.
  pub full_blocks :
      (p : Message Options) (s u : Server Options)
      → IsFull p s
      → (a : Action Options) → a ≢ takes_req
      → step codec a s ≡ some u
      → SameButNotifs s u
  unfolding step notify respond read_at send_notif_at dispatch_at send_req_at end_at
  full_blocks p s u f (reads q) n h = absurd (ground (arith, f.waits))
  full_blocks p s u f sends_notif n h = absurd (ground (arith, f.waits))
  full_blocks p s u f (dispatches ok) n h = absurd (ground (arith, f.waits))
  full_blocks p s u f sends_req n h = absurd (ground (arith, f.waits, f.no_room))
  full_blocks p s u f ends n h = absurd (ground (arith, f.waits))
  full_blocks p s u f (notifies ok q) n h = absurd (ground (arith, f.waits))
  full_blocks p s u f (responds ok q) n h = ground (arith, f.waits)
  full_blocks p s u f takes_notif n h = ground arith
  full_blocks p s u f takes_req n h = absurd (n refl)
