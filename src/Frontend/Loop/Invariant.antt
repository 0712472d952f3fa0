-- ===== src/Frontend/Loop/Invariant.antt =====
-- What holds of a frontend between any two steps of its callers and its loop.
use proxygw.Prelude.{
  Bool, Option, Option-cases, Text, [], arith, false, inl, inr, length, none, some, true, ℕ, ◌↔◌,
  ◌∷◌, ◌≡◌, ◌≢◌, ◌≤◌, ◌⊎◌,
}
use proxygw.Frontend.{
  Frontend, State, stopped, starting, running, stopping, closed, Phase, waiting, received, handling,
  ending, closing, ended, start, stop, made, cancel,
}
use proxygw.Target.Endpoints.{Endpoint}
use proxygw.Config.Document
use proxygw.Connft.State.{Err}
use proxygw.Frontend.Loop.{
  loops, starts, stops, closes, cancels, receives, sees_cancel, checks, begins_end, finishes, ends,
  dropped, Action, LoopAction, step, loop_step, receive, check, finish, see_cancel, begin_end,
  end_end,
}

abbrev pub IsIdle : Phase → Type 0
IsIdle p = (p ≡ waiting) ⊎ (p ≡ ending)

-- A request for `s` is in the channel, or the loop works on it, and never both.
abbrev pub IsPending : State → Frontend → Type 0
IsPending s f =
    ((f.requests ≡ s ∷ []) × IsIdle f.loop)
    ⊎ ((f.requests ≡ []) × ((f.loop ≡ received s) ⊎ (f.loop ≡ handling s)))

-- No request is left that would change the state again.
abbrev pub IsQuiet : Frontend → Type 0
IsQuiet f = (f.requests ≡ []) × IsIdle f.loop

-- The loop works on the two kinds of requests only.
abbrev Works : Phase → Type 0
Works (received r) = (r ≡ starting) ⊎ (r ≡ stopping)
Works (handling r) = (r ≡ starting) ⊎ (r ≡ stopping)
Works _ = Unit {0}

pub record Coherent (f : Frontend) : Type 0 where
  pub at_rest : (f.state ≡ stopped) ⊎ (f.state ≡ running) → IsQuiet f
  pub pending_start : f.state ≡ starting → IsPending starting f ⊎ (IsQuiet f × (f.err ≢ none))
  pub pending_stop : f.state ≡ stopping → IsPending stopping f ⊎ (IsQuiet f × (f.err ≢ none))
  pub works : Works f.loop
  pub bounded : length f.requests ≤ 1
  pub end_closed : (f.loop ≡ closing) ⊎ (f.loop ≡ ended) → f.state ≡ closed

receive-Coherent : (f u : Frontend) → Coherent f → receive f ≡ some u → Coherent u
unfolding receive
receive-Coherent f u c h = ground arith

check-Coherent : (f u : Frontend) → Coherent f → check f ≡ some u → Coherent u
unfolding check
check-Coherent f u c h = ground arith

finish-Coherent : (e : Option Text) (f u : Frontend) → Coherent f → finish e f ≡ some u → Coherent u
unfolding finish
finish-Coherent e f u c h = ground arith

end-Coherent :
    (e : Option Text) (g : Option Err) (f u : Frontend)
    → Coherent f
    → (see_cancel f ≡ some u) ⊎ ((begin_end f ≡ some u) ⊎ (end_end e g f ≡ some u))
    → Coherent u
unfolding see_cancel begin_end end_end
end-Coherent e g f u c h = ground arith

start-Coherent : (f u : Frontend) (b : Bool) → Coherent f → start f ≡ some (u, b) → Coherent u
unfolding start
start-Coherent f u b c h = ground arith

stop-Coherent : (f u : Frontend) (b : Bool) → Coherent f → stop f ≡ some (u, b) → Coherent u
unfolding stop
stop-Coherent f u b c h = ground arith

loop_step-Coherent :
    (a : LoopAction) (f u : Frontend) → Coherent f → loop_step a f ≡ some u → Coherent u
loop_step-Coherent receives f u c h = receive-Coherent f u c (unfold loop_step in h)
loop_step-Coherent sees_cancel f u c h = end-Coherent none none f u c (inl (unfold loop_step in h))
loop_step-Coherent checks f u c h = check-Coherent f u c (unfold loop_step in h)
loop_step-Coherent begins_end f u c h =
    end-Coherent none none f u c (inr (inl (unfold loop_step in h)))
loop_step-Coherent (finishes e) f u c h = finish-Coherent e f u c (unfold loop_step in h)
loop_step-Coherent (ends e g) f u c h = end-Coherent e g f u c (inr (inr (unfold loop_step in h)))

pub dropped-some :
    (r : Option (Frontend × Bool)) (u : Frontend)
    → dropped r ≡ some u
    → (b : Bool) × (r ≡ some (u, b))
dropped-some none u h = cc
dropped-some (some (v, b)) u h = (b, ground arith)

pub step-Coherent : (a : Action) (f u : Frontend) → Coherent f → step a f ≡ some u → Coherent u
step-Coherent (loops a) f u c h = loop_step-Coherent a f u c (unfold step in h)
step-Coherent starts f u c h =
    let (b, e) = dropped-some (start f) u (unfold step in h) in start-Coherent f u b c e
step-Coherent stops f u c h =
    let (b, e) = dropped-some (stop f) u (unfold step in h) in stop-Coherent f u b c e
step-Coherent closes f u c h = unfold step in ground arith
step-Coherent cancels f u c h = unfold step in ground arith

-- What the steps lead to from a frontend as New makes it.
pub data Reach : Frontend → Type 0 where
  begin :
      (target : ℕ) (endpoint : Endpoint) (cfg : Document.Frontend)
      → Reach (made target endpoint cfg)
  then : (a : Action) {f u : Frontend} → Reach f → step a f ≡ some u → Reach u

pub made-Coherent :
    (target : ℕ) (endpoint : Endpoint) (cfg : Document.Frontend)
    → Coherent (made target endpoint cfg)
unfolding made
made-Coherent target endpoint cfg = ground arith

-- In every state that the steps lead to, the channel holds at most one request, a running or stopped
-- frontend has no request left, and one that is starting or stopping has exactly one, in the channel
-- or with the loop, or none because the handler failed.
pub frontend-Coherent : {f : Frontend} → Reach f → Coherent f
frontend-Coherent (begin target endpoint cfg) = made-Coherent target endpoint cfg
frontend-Coherent (then a {f} {u} r e) = step-Coherent a f u (frontend-Coherent r) e

pub cancel-Coherent : (f : Frontend) → Coherent f → Coherent (cancel f)
unfolding cancel
cancel-Coherent f c = ground arith

-- What Start or Stop did: it left the frontend alone, or put a request into the empty channel.
abbrev pub Requested : State → State → Frontend → Frontend → Type 0
Requested from to f u =
    (u ≡ f) ⊎ ((f.state ≡ from) × (u ≡ record f { err = none; state = to; requests = to ∷ [] }))

start_ne : (f : Frontend) → Coherent f → start f ≢ none
unfolding start
start_ne f c h = ground arith

stop_ne : (f : Frontend) → Coherent f → stop f ≢ none
unfolding stop
stop_ne f c h = ground arith

start_answer :
    (f u : Frontend) (b : Bool)
    → start f ≡ some (u, b)
    → ((b ≡ true) ↔ ((u.state ≡ running) ⊎ (u.state ≡ starting)))
      × ((b ≡ false) ↔ ((f.state ≡ stopping) ⊎ (f.state ≡ closed)))
      × Requested stopped starting f u
unfolding start
start_answer f u b h = ground arith

stop_answer :
    (f u : Frontend) (b : Bool)
    → stop f ≡ some (u, b)
    → ((b ≡ true) ↔ ((u.state ≡ stopped) ⊎ (u.state ≡ stopping)))
      × ((b ≡ false) ↔ ((f.state ≡ starting) ⊎ (f.state ≡ closed)))
      × Requested running stopping f u
unfolding stop
stop_answer f u b h = ground arith

-- Start returns in every state that the steps lead to. It answers true exactly if it leaves the
-- frontend running or starting, false exactly if it met a stopping or a closed one, and changes
-- only a stopped frontend, by one request.
pub start_total :
    {f : Frontend}
    → Reach f
    → (u : Frontend) × (b : Bool) × (start f ≡ some (u, b))
      × ((b ≡ true) ↔ ((u.state ≡ running) ⊎ (u.state ≡ starting)))
      × ((b ≡ false) ↔ ((f.state ≡ stopping) ⊎ (f.state ≡ closed)))
      × Requested stopped starting f u
start_total {f} r = elim (Option-cases (start f)) [
  | inl e ↦ absurd (start_ne f (frontend-Coherent r) e)
  | inr ((u, b), e) ↦ let (p, q, s) = start_answer f u b e in (u, b, e, p, q, s)
]

-- Stop returns in every state that the steps lead to. It answers true exactly if it leaves the
-- frontend stopped or stopping, false exactly if it met a starting or a closed one, and changes only
-- a running frontend, by one request.
pub stop_total :
    {f : Frontend}
    → Reach f
    → (u : Frontend) × (b : Bool) × (stop f ≡ some (u, b))
      × ((b ≡ true) ↔ ((u.state ≡ stopped) ⊎ (u.state ≡ stopping)))
      × ((b ≡ false) ↔ ((f.state ≡ starting) ⊎ (f.state ≡ closed)))
      × Requested running stopping f u
stop_total {f} r = elim (Option-cases (stop f)) [
  | inl e ↦ absurd (stop_ne f (frontend-Coherent r) e)
  | inr ((u, b), e) ↦ let (p, q, s) = stop_answer f u b e in (u, b, e, p, q, s)
]
