-- ===== src/Target/Loop/Invariant.antt =====
-- What holds of a target between any two steps of its callers and its loop.
use proxygw.Prelude.{
  Bool, Option, Option-cases, Text, [], arith, false, inl, inr, length, none, refl, some, true, ℕ,
  ◌↔◌, ◌∷◌, ◌≡◌, ◌≢◌, ◌≤◌, ◌⊎◌,
}
use proxygw.Target.{
  Target, State, inactive, active, warming, draining, closed, Phase, waiting, received, handling,
  cancel, ending, closing, ended, warm, drain, new, cancel, set_timeout,
}
use proxygw.Config.Document
use proxygw.Config.Ttl.{Ttl}
use proxygw.Target.Loop.{
  loops, warms, drains, closes, cancels, adds, removes, receives, sees_cancel, checks, begins_end,
  finishes, ends, dropped, Action, LoopAction, step, loop_step, receive, check, finish, see_cancel,
  begin_end, end_end,
}

abbrev IsIdle : Phase → Type 0
IsIdle p = (p ≡ waiting) ⊎ (p ≡ ending)

-- A request for `s` is in the channel, or the loop works on it, and never both.
abbrev IsPending : State → Target → Type 0
IsPending s t =
    ((t.requests ≡ s ∷ []) × IsIdle t.loop)
    ⊎ ((t.requests ≡ []) × ((t.loop ≡ received s) ⊎ (t.loop ≡ handling s)))

-- The loop works on the two kinds of requests only.
abbrev Works : Phase → Type 0
Works (received r) = (r ≡ warming) ⊎ (r ≡ draining)
Works (handling r) = (r ≡ warming) ⊎ (r ≡ draining)
Works _ = Unit {0}

pub record Coherent (t : Target) : Type 0 where
  pub at_rest : (t.state ≡ inactive) ⊎ (t.state ≡ active) → (t.requests ≡ []) × IsIdle t.loop
  pub pending_warm : t.state ≡ warming → IsPending warming t
  pub pending_drain : t.state ≡ draining → IsPending draining t
  pub works : Works t.loop
  pub bounded : length t.requests ≤ 1
  pub end_closed : (t.loop ≡ closing) ⊎ (t.loop ≡ ended) → t.state ≡ closed

receive-Coherent : (t u : Target) → Coherent t → receive t ≡ some u → Coherent u
unfolding receive
receive-Coherent t u c h = ground arith

check-Coherent : (t u : Target) → Coherent t → check t ≡ some u → Coherent u
unfolding check
check-Coherent t u c h = ground arith

finish-Coherent :
    (e g : Option Text) (t u : Target) → Coherent t → finish e g t ≡ some u → Coherent u
unfolding finish
finish-Coherent e g t u c h = ground arith

end-Coherent :
    (e g : Option Text) (t u : Target)
    → Coherent t
    → (see_cancel t ≡ some u) ⊎ ((begin_end t ≡ some u) ⊎ (end_end e g t ≡ some u))
    → Coherent u
unfolding see_cancel begin_end end_end
end-Coherent e g t u c h = ground arith

warm-Coherent : (t u : Target) (b : Bool) → Coherent t → warm t ≡ some (u, b) → Coherent u
unfolding warm
warm-Coherent t u b c h = ground arith

drain-Coherent : (t u : Target) (b : Bool) → Coherent t → drain t ≡ some (u, b) → Coherent u
unfolding drain
drain-Coherent t u b c h = ground arith

pub loop_step-Coherent :
    (a : LoopAction) (t u : Target) → Coherent t → loop_step a t ≡ some u → Coherent u
loop_step-Coherent receives t u c h = receive-Coherent t u c (unfold loop_step in h)
loop_step-Coherent sees_cancel t u c h = end-Coherent none none t u c (inl (unfold loop_step in h))
loop_step-Coherent checks t u c h = check-Coherent t u c (unfold loop_step in h)
loop_step-Coherent begins_end t u c h =
    end-Coherent none none t u c (inr (inl (unfold loop_step in h)))
loop_step-Coherent (finishes e g) t u c h = finish-Coherent e g t u c (unfold loop_step in h)
loop_step-Coherent (ends e g) t u c h = end-Coherent e g t u c (inr (inr (unfold loop_step in h)))

dropped-some :
    (r : Option (Target × Bool)) (u : Target) → dropped r ≡ some u → (b : Bool) × (r ≡ some (u, b))
dropped-some none u h = cc
dropped-some (some (v, b)) u h = (b, ground arith)

pub step-Coherent : (a : Action) (t u : Target) → Coherent t → step a t ≡ some u → Coherent u
step-Coherent (loops a) t u c h = loop_step-Coherent a t u c (unfold step in h)
step-Coherent warms t u c h =
    let (b, e) = dropped-some (warm t) u (unfold step in h) in warm-Coherent t u b c e
step-Coherent drains t u c h =
    let (b, e) = dropped-some (drain t) u (unfold step in h) in drain-Coherent t u b c e
step-Coherent closes t u c h = unfold step in ground arith
step-Coherent cancels t u c h = unfold step in ground arith
step-Coherent (adds e) t u c h = unfold step in ground arith
step-Coherent (removes n) t u c h = unfold step in ground arith

-- What the steps lead to from a target as New makes it.
pub data Reach : Target → Type 0 where
  start : (group : ℕ) (cfg : Document.Target) {t : Target} → new group cfg ≡ inl t → Reach t
  then : (a : Action) {t u : Target} → Reach t → step a t ≡ some u → Reach u

pub new-Coherent :
    (group : ℕ) (cfg : Document.Target) (t : Target) → new group cfg ≡ inl t → Coherent t
unfolding new
new-Coherent group cfg t h = ground arith

-- In every state that the steps lead to, the channel holds at most one request, an inactive or
-- active target has none left, a warming or draining one has exactly one, in the channel or with
-- the loop, and a target whose loop is at its end is closed.
pub target-Coherent : {t : Target} → Reach t → Coherent t
target-Coherent (start group cfg {t} e) = new-Coherent group cfg t e
target-Coherent (then a {t} {u} r e) = step-Coherent a t u (target-Coherent r) e

pub cancel-Coherent : (t : Target) → Coherent t → Coherent (cancel t)
unfolding cancel
cancel-Coherent t c = ground arith

pub set_timeout-Coherent : (t : Target) (ttl : Ttl) → Coherent t → Coherent (set_timeout t ttl)
unfolding set_timeout
set_timeout-Coherent t ttl c = ground arith

pub set_timeout_name : (t : Target) (ttl : Ttl) → (set_timeout t ttl).name ≡ t.name
unfolding set_timeout
set_timeout_name t ttl = refl

-- What Warm did: it left the target alone, or put a request into the empty channel.
abbrev pub Requested : State → State → Target → Target → Type 0
Requested from to t u =
    (u ≡ t) ⊎ ((t.state ≡ from) × (u ≡ record t { err = none; state = to; requests = to ∷ [] }))

warm_ne : (t : Target) → Coherent t → warm t ≢ none
unfolding warm
warm_ne t c h = ground arith

pub drain_ne : (t : Target) → Coherent t → drain t ≢ none
unfolding drain
drain_ne t c h = ground arith

warm_answer :
    (t u : Target) (b : Bool)
    → warm t ≡ some (u, b)
    → ((b ≡ true) ↔ ((u.state ≡ active) ⊎ (u.state ≡ warming)))
      × ((b ≡ false) ↔ ((t.state ≡ draining) ⊎ (t.state ≡ closed)))
      × Requested inactive warming t u
unfolding warm
warm_answer t u b h = ground arith

drain_answer :
    (t u : Target) (b : Bool)
    → drain t ≡ some (u, b)
    → ((b ≡ true) ↔ ((u.state ≡ inactive) ⊎ (u.state ≡ draining)))
      × ((b ≡ false) ↔ ((t.state ≡ warming) ⊎ (t.state ≡ closed)))
      × Requested active draining t u
unfolding drain
drain_answer t u b h = ground arith

-- Warm returns in every state that the steps lead to. It answers true exactly if it leaves the
-- target active or warming, false exactly if it met a draining or a closed one, and changes only
-- an inactive target, by one request.
pub warm_total :
    {t : Target}
    → Reach t
    → (u : Target) × (b : Bool) × (warm t ≡ some (u, b))
      × ((b ≡ true) ↔ ((u.state ≡ active) ⊎ (u.state ≡ warming)))
      × ((b ≡ false) ↔ ((t.state ≡ draining) ⊎ (t.state ≡ closed)))
      × Requested inactive warming t u
warm_total {t} r = elim (Option-cases (warm t)) [
  | inl e ↦ absurd (warm_ne t (target-Coherent r) e)
  | inr ((u, b), e) ↦ let (p, q, s) = warm_answer t u b e in (u, b, e, p, q, s)
]

-- Drain returns in every state that the steps lead to. It answers true exactly if it leaves the
-- target inactive or draining, false exactly if it met a warming or a closed one, and changes
-- only an active target, by one request.
pub drain_total :
    {t : Target}
    → Reach t
    → (u : Target) × (b : Bool) × (drain t ≡ some (u, b))
      × ((b ≡ true) ↔ ((u.state ≡ inactive) ⊎ (u.state ≡ draining)))
      × ((b ≡ false) ↔ ((t.state ≡ warming) ⊎ (t.state ≡ closed)))
      × Requested active draining t u
drain_total {t} r = elim (Option-cases (drain t)) [
  | inl e ↦ absurd (drain_ne t (target-Coherent r) e)
  | inr ((u, b), e) ↦ let (p, q, s) = drain_answer t u b e in (u, b, e, p, q, s)
]
