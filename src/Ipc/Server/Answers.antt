-- ===== src/Ipc/Server/Answers.antt =====
-- Each request that the read loop of plugin/ctl/ipc/base_server.go meets is answered once at most.
use proxygw.Prelude.{
  Bool, Dict, List, [], arith, bool_eq, eq_iff, if◌then◌else◌, inl, lookup, lookup-delete,
  lookup-insert, nat_eq, none, refl, some, text_eq, ℕ, ◌+◌, ◌==◌, ◌∷◌, ◌≡◌, ◌≢◌, ◌≤◌, ◌⊎◌,
}
use proxygw.Ipc.Packet.{Message, Codec, make_packet}
use proxygw.Ipc.Server.{
  Server, Phase, reading, notifying, received, sending, ending, ended, new_base_server, notify,
  respond, respond_locked, read_with, read_at, send_notif_at, dispatch_with, dispatch_at,
  send_req_at, end_at,
}
use proxygw.Ipc.Server.Step.{
  Action, step, reads, sends_notif, dispatches, sends_req, ends, notifies, responds, takes_notif,
  takes_req,
}

abbrev pub count : ℕ → List ℕ → ℕ
count i [] = 0
count i (x ∷ xs) = (if x == i then 1 else 0) + count i xs

abbrev pub pending : ℕ → Dict ℕ (Unit {0}) → ℕ
pending i inbox = elim (lookup i inbox) [ none ↦ 0 | some _ ↦ 1 ]

module _ {Options : Type 0} where
  -- How many of the packets have the id `i`.
  abbrev pub answers : ℕ → List (Message Options) → ℕ
  answers i [] = 0
  answers i (p ∷ ps) = (if p.id == i then 1 else 0) + answers i ps

  -- The ids of the requests that a step meets, before those met already.
  abbrev pub asked : Action Options → Phase (Message Options) → List ℕ → List ℕ
  asked (dispatches ok) (received p) ids = p.id ∷ ids
  asked _ _ ids = ids

  abbrev pub IsOver : Phase (Message Options) → Type 0
  IsOver l = (l ≡ ending) ⊎ (l ≡ ended)

  abbrev pub Balanced : ℕ → List ℕ → Server Options → Type 0
  Balanced i ids s =
      (answers i s.sent + pending i s.inbox ≡ count i ids)
      ⊎ (IsOver s.loop × (answers i s.sent + pending i s.inbox ≤ count i ids))

module _ {Options : Type 0} (codec : Codec Options) where
  -- The servers that steps lead to, with the ids of the requests met on the way, the last one first.
  pub data Run : List ℕ → Server Options → Type 0 where
    start : Run [] new_base_server
    next :
        {ids : List ℕ} {s u : Server Options} (a : Action Options)
        → step codec a s ≡ some u
        → Run ids s
        → Run (asked a s.loop ids) u

  module _ (i : ℕ) (nonzero : i ≢ 0) (ids : List ℕ) (s u : Server Options)
      (b : Balanced i ids s) where
    responds-Balanced :
        (ok : Bool) (p : Message Options) → step codec (responds ok p) s ≡ some u → Balanced i ids u
    unfolding step respond respond_locked
    responds-Balanced ok p h = ground (arith, lookup-delete p.id i s.inbox, eq_iff p.id i)

    dispatch_with-Balanced :
        (ok : Bool) (req : Message Options)
        → s.loop ≡ received req
        → Balanced i (req.id ∷ ids) (dispatch_with ok req s)
    unfolding dispatch_with make_packet
    dispatch_with-Balanced ok req e =
        ground (arith, lookup-insert req.id i tt s.inbox, eq_iff req.id i)

    dispatches-Balanced :
        (ok : Bool) (l : Phase (Message Options))
        → s.loop ≡ l
        → dispatch_at l ok s ≡ some u
        → Balanced i (asked (dispatches ok) l ids) u
    unfolding dispatch_at
    dispatches-Balanced ok (received req) e h = ground (arith, dispatch_with-Balanced ok req e)
    dispatches-Balanced ok reading e h = cc
    dispatches-Balanced ok (notifying p) e h = cc
    dispatches-Balanced ok (sending p) e h = cc
    dispatches-Balanced ok ending e h = cc
    dispatches-Balanced ok ended e h = cc

    step-Balanced :
        (a : Action Options) → step codec a s ≡ some u → Balanced i (asked a s.loop ids) u
    unfolding step notify read_at read_with send_notif_at send_req_at end_at
    step-Balanced (reads p) h = ground arith
    step-Balanced sends_notif h = ground arith
    step-Balanced (dispatches ok) h = dispatches-Balanced ok s.loop refl h
    step-Balanced sends_req h = ground arith
    step-Balanced ends h = ground arith
    step-Balanced (notifies ok p) h = ground arith
    step-Balanced (responds ok p) h = responds-Balanced ok p h
    step-Balanced takes_notif h = ground arith
    step-Balanced takes_req h = ground arith

  -- After any steps, for an id other than 0: the packets that were sent with it, and the request
  -- with it that is pending, are together as many as the requests with it that the read loop has
  -- met, so that each is answered or refused once, or is the one that is pending. Only a loop that
  -- is over may have sent fewer.
  pub answered_once :
      (i : ℕ) → i ≢ 0 → {ids : List ℕ} {s : Server Options} → Run ids s → Balanced i ids s
  unfolding new_base_server lookup
  answered_once i nonzero start = inl refl
  answered_once i nonzero (next {ids} {s} {u} a h r) =
      step-Balanced i nonzero ids s u (answered_once i nonzero r) a h
