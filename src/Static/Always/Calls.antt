-- ===== src/Static/Always/Calls.antt =====
-- Calls on the handler of plugin/static/frontends/always.go return, and what they leave.
use proxygw.Prelude.{
  Bool-cases, Option, arith, false, inl, inr, not, refl, some, true, ◌&&◌, ◌||◌, ◌≡◌, ◌≢◌, ◌⊎◌,
}
use proxygw.Static.Always.{
  AlwaysHandler, new_always_handler, obey, command, start, stop, close, tick, should_warm,
}

pub data Action : Type 0 where
  starts stops closes ticks receives : Action

abbrev pub step : Action → AlwaysHandler → Option AlwaysHandler
step starts h = start h
step stops h = stop h
step closes h = close h
step ticks h = tick h
step receives h = should_warm h

-- The handlers that calls, one after the other, and ticks lead to.
pub data Reach : AlwaysHandler → Type 0 where
  fresh : Reach new_always_handler
  next : {h u : AlwaysHandler} (a : Action) → step a h ≡ some u → Reach h → Reach u

pub record Inv (h : AlwaysHandler) : Type 0 where
  ends : h.returned ≡ h.closed
  ticks_on : h.ticking ≡ h.running && not h.closed

step-Inv : (a : Action) (h u : AlwaysHandler) → Inv h → step a h ≡ some u → Inv u
unfolding start stop close tick should_warm command obey
step-Inv starts h u v e = record {
  ends = ground (arith, v.ends);
  ticks_on = ground (arith, v.ends, v.ticks_on);
}
step-Inv stops h u v e = record {
  ends = ground (arith, v.ends);
  ticks_on = ground (arith, v.ends, v.ticks_on);
}
step-Inv closes h u v e = record {
  ends = ground (arith, v.ends);
  ticks_on = ground (arith, v.ends, v.ticks_on);
}
step-Inv ticks h u v e = record {
  ends = ground (arith, v.ends);
  ticks_on = ground (arith, v.ends, v.ticks_on);
}
step-Inv receives h u v e = record {
  ends = ground (arith, v.ends);
  ticks_on = ground (arith, v.ends, v.ticks_on);
}

reach-Inv : {h : AlwaysHandler} → Reach h → Inv h
unfolding new_always_handler
reach-Inv fresh = record { ends = refl; ticks_on = refl }
reach-Inv (next {h} {u} a e r) = step-Inv a h u (reach-Inv r) e

-- What Start, Stop and Close leave of a handler that is not closed.
abbrev pub Leaves : Action → AlwaysHandler → AlwaysHandler → Type 0
Leaves starts h u = u ≡ record h { running = true; ticking = true }
Leaves stops h u = u ≡ record h { running = false; ticking = false }
Leaves closes h u = u ≡ record h { closed = true; returned = true; ticking = false }
Leaves ticks h u = u ≡ record h { queued = h.running || h.queued }
Leaves receives h u = u ≡ record h { queued = false }

-- Start, Stop and Close return in any order of calls. Before Close, Start leaves the loop running
-- with its ticker, and Stop and Close leave it without, Close for good; behind Close the three do
-- nothing.
pub calls_return :
    {h : AlwaysHandler}
    → Reach h
    → (a : Action) → a ≢ ticks
    → a ≢ receives
    → (u : AlwaysHandler) × (step a h ≡ some u)
      × (((h.closed ≡ true) × (u ≡ h)) ⊎ ((h.closed ≡ false) × Leaves a h u))
unfolding start stop close command obey
calls_return {h} r starts n m =
    let v = reach-Inv r in
    elim (Bool-cases h.closed) [
      | inl c ↦ (h, ground arith, inl (c, refl))
      | inr c ↦ (
        record h { running = true; ticking = true },
        ground (arith, v.ends, v.ticks_on),
        inr (c, refl),
      )
    ]
calls_return {h} r stops n m =
    let v = reach-Inv r in
    elim (Bool-cases h.closed) [
      | inl c ↦ (h, ground arith, inl (c, refl))
      | inr c ↦ (
        record h { running = false; ticking = false },
        ground (arith, v.ends, v.ticks_on),
        inr (c, refl),
      )
    ]
calls_return {h} r closes n m =
    let v = reach-Inv r in
    elim (Bool-cases h.closed) [
      | inl c ↦ (h, ground arith, inl (c, refl))
      | inr c ↦ (
        record h { closed = true; returned = true; ticking = false },
        ground (arith, v.ends),
        inr (c, refl),
      )
    ]
calls_return r ticks n m = absurd (n refl)
calls_return r receives n m = absurd (m refl)
