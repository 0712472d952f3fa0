-- ===== src/Frontend/Loop/Identity.antt =====
-- A frontend of pkg/frontend/frontend.go is what it was made as, whatever happens to it.
use proxygw.Prelude.{arith, some, ◌≡◌}
use proxygw.Frontend.{Frontend}
use proxygw.Frontend.Loop.{
  loops, starts, stops, closes, cancels, receives, sees_cancel, checks, begins_end, finishes, ends,
  Action, LoopAction, loop_step, step,
}

loop_step_name :
    (a : LoopAction) (f u : Frontend)
    → loop_step a f ≡ some u
    → (u.name ≡ f.name) × (u.target ≡ f.target)
unfolding loop_step
loop_step_name receives f u h = ground arith
loop_step_name sees_cancel f u h = ground arith
loop_step_name checks f u h = ground arith
loop_step_name begins_end f u h = ground arith
loop_step_name (finishes e) f u h = ground arith
loop_step_name (ends e g) f u h = ground arith

pub step_name :
    (a : Action) (f u : Frontend) → step a f ≡ some u → (u.name ≡ f.name) × (u.target ≡ f.target)
unfolding step
step_name (loops a) f u h = loop_step_name a f u h
step_name starts f u h = ground arith
step_name stops f u h = ground arith
step_name closes f u h = ground arith
step_name cancels f u h = ground arith
