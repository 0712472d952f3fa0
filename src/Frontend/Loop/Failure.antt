-- ===== src/Frontend/Loop/Failure.antt =====
-- A frontend of pkg/frontend/frontend.go whose handler failed to start or to stop.
use proxygw.Prelude.{Text, arith, inl, inr, none, refl, some, ◌∙◌, ◌≡◌, ◌≢◌, ◌⊎◌}
use proxygw.Frontend.{Frontend, starting, stopping, closed}
use proxygw.Frontend.Loop.{
  loops, starts, stops, closes, cancels, receives, sees_cancel, checks, begins_end, finishes, ends,
  Action, LoopAction, step, loop_step, finish,
}
use proxygw.Frontend.Loop.Invariant.{IsQuiet, Coherent, Reach, frontend-Coherent}

-- The frontend is on its way, but nothing is left that would take it there.
pub record IsStuck (f : Frontend) : Type 0 where
  pub on_its_way : (f.state ≡ starting) ⊎ (f.state ≡ stopping)
  pub quiet : IsQuiet f
  pub failed : f.err ≢ none

-- Any number of steps of the callers and the loop.
pub data Run : Frontend → Frontend → Type 0 where
  done : {f : Frontend} → Run f f
  next : (a : Action) {f u v : Frontend} → step a f ≡ some u → Run u v → Run f v

abbrev Stays : Frontend → Frontend → Type 0
Stays f u = (u.state ≡ closed) ⊎ ((u.state ≡ f.state) × IsStuck u)

loop_step_sticks :
    (a : LoopAction) (f u : Frontend) → IsStuck f → loop_step a f ≡ some u → Stays f u
unfolding loop_step
loop_step_sticks receives f u s h = ground arith
loop_step_sticks sees_cancel f u s h = ground arith
loop_step_sticks checks f u s h = ground arith
loop_step_sticks begins_end f u s h = ground arith
loop_step_sticks (finishes e) f u s h = ground arith
loop_step_sticks (ends e g) f u s h = ground arith

step_sticks : (a : Action) (f u : Frontend) → IsStuck f → step a f ≡ some u → Stays f u
unfolding step
step_sticks (loops a) f u s h = loop_step_sticks a f u s h
step_sticks starts f u s h = ground arith
step_sticks stops f u s h = ground arith
step_sticks closes f u s h = ground arith
step_sticks cancels f u s h = ground arith

closed_stays :
    (a : Action) (f u : Frontend) → f.state ≡ closed → step a f ≡ some u → u.state ≡ closed
unfolding step
closed_stays (loops receives) f u s h = ground arith
closed_stays (loops sees_cancel) f u s h = ground arith
closed_stays (loops checks) f u s h = ground arith
closed_stays (loops begins_end) f u s h = ground arith
closed_stays (loops (finishes e)) f u s h = ground arith
closed_stays (loops (ends e g)) f u s h = ground arith
closed_stays starts f u s h = ground arith
closed_stays stops f u s h = ground arith
closed_stays closes f u s h = ground arith
closed_stays cancels f u s h = ground arith

Run-closed : {f v : Frontend} → Run f v → f.state ≡ closed → v.state ≡ closed
Run-closed done s = s
Run-closed (next a {f} {u} {v} h r) s = Run-closed r (closed_stays a f u s h)

-- A stuck frontend stays in its state until it is closed.
Run-sticks : {f v : Frontend} → Run f v → IsStuck f → (v.state ≡ closed) ⊎ (v.state ≡ f.state)
Run-sticks done s = inr refl
Run-sticks (next a {f} {u} {v} h r) s = elim (step_sticks a f u s h) [
  | inl c ↦ inl (Run-closed r c)
  | inr (e, s') ↦ elim (Run-sticks r s') [ inl c ↦ inl c | inr e' ↦ inr (e' ∙ e) ]
]

finish_fails :
    (e : Text) (f u : Frontend)
    → Coherent f
    → f.state ≢ closed
    → finish (some e) f ≡ some u
    → ((f.state ≡ starting) × (u.state ≡ stopping) ⊎ (f.state ≡ stopping) × (u.state ≡ starting))
      × IsStuck u
unfolding finish
finish_fails e f u c n h = ground arith

-- A frontend that the steps lead to, that is not closed, and whose handler answers with an error:
-- a starting one is left stopping and a stopping one starting, and from there every run of the
-- callers and the loop leaves it in that state or closed.
pub failure_sticks :
    {f : Frontend} (e : Text) (u v : Frontend)
    → Reach f
    → f.state ≢ closed
    → finish (some e) f ≡ some u
    → Run u v
    → ((f.state ≡ starting) × (u.state ≡ stopping) ⊎ (f.state ≡ stopping) × (u.state ≡ starting))
      × ((v.state ≡ closed) ⊎ (v.state ≡ u.state))
failure_sticks {f} e u v r n h run =
    let (x, s) = finish_fails e f u (frontend-Coherent r) n h in (x, Run-sticks run s)
