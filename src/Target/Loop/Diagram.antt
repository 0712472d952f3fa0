-- ===== src/Target/Loop/Diagram.antt =====
-- The states that a target of pkg/target/target.go goes through.
use proxygw.Prelude.{arith, none, some, ◌≡◌, ◌≢◌, ◌⊎◌}
use proxygw.Target.{Target, State, inactive, active, warming, draining, closed}
use proxygw.Target.Loop.{
  Action, LoopAction, step, loop_step, loops, warms, drains, closes, cancels, adds, removes,
  receives, sees_cancel, checks, begins_end, finishes, ends,
}
use proxygw.Target.Loop.Invariant.{Coherent, Reach, target-Coherent}

-- The states before and after a step: only a call of Warm or Drain, the handler's answer to it, and
-- the two ways to close change the state, each along its own edges.
abbrev pub Follows : Action → State → State → Type 0
Follows (loops receives) s u = u ≡ s
Follows (loops sees_cancel) s u = u ≡ s
Follows (loops checks) s u = u ≡ s
Follows (loops begins_end) s u = u ≡ closed
Follows (loops (finishes none g)) s u =
    ((s ≡ warming) × (u ≡ active))
    ⊎ ((s ≡ draining) × (u ≡ inactive))
    ⊎ ((s ≡ closed) × (u ≡ closed))
Follows (loops (finishes (some e) g)) s u =
    ((s ≡ warming) × (u ≡ inactive))
    ⊎ ((s ≡ draining) × (u ≡ active))
    ⊎ ((s ≡ closed) × (u ≡ closed))
Follows (loops (ends e g)) s u = u ≡ s
Follows warms s u = ((s ≡ inactive) × (u ≡ warming)) ⊎ ((s ≢ inactive) × (u ≡ s))
Follows drains s u = ((s ≡ active) × (u ≡ draining)) ⊎ ((s ≢ active) × (u ≡ s))
Follows closes s u = u ≡ closed
Follows cancels s u = u ≡ s
Follows (adds e) s u = u ≡ s
Follows (removes n) s u = u ≡ s

loop-Follows :
    (a : LoopAction) (t u : Target)
    → Coherent t
    → loop_step a t ≡ some u
    → Follows (loops a) t.state u.state
unfolding loop_step
loop-Follows receives t u c h = ground arith
loop-Follows sees_cancel t u c h = ground arith
loop-Follows checks t u c h = ground arith
loop-Follows begins_end t u c h = ground arith
loop-Follows (finishes none g) t u c h = ground arith
loop-Follows (finishes (some e) g) t u c h = ground arith
loop-Follows (ends e g) t u c h = ground arith

follows : (a : Action) (t u : Target) → Coherent t → step a t ≡ some u → Follows a t.state u.state
follows (loops a) t u c h = loop-Follows a t u c (unfold step in h)
follows warms t u c h = unfold step in ground arith
follows drains t u c h = unfold step in ground arith
follows closes t u c h = unfold step in ground arith
follows cancels t u c h = unfold step in ground arith
follows (adds e) t u c h = unfold step in ground arith
follows (removes n) t u c h = unfold step in ground arith

-- From a state that the steps lead to, each step changes the state only along the edges that
-- Follows lists: Warm takes inactive to warming, Drain takes active to draining, the handler's
-- answer takes these on or, with an error, back, and closing takes any state to closed, which no
-- step leaves.
pub step-Follows :
    (a : Action) {t u : Target} → Reach t → step a t ≡ some u → Follows a t.state u.state
step-Follows a {t} {u} r h = follows a t u (target-Coherent r) h
