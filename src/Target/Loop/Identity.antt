-- ===== src/Target/Loop/Identity.antt =====
-- A target of pkg/target/target.go is what it was made as, whatever happens to it.
use proxygw.Prelude.{arith, some, ◌≡◌}
use proxygw.Target.{Target}
use proxygw.Target.Loop.{
  loops, warms, drains, closes, cancels, adds, removes, receives, sees_cancel, checks, begins_end,
  finishes, ends, Action, LoopAction, loop_step, step,
}

loop_step_name : (a : LoopAction) (t u : Target) → loop_step a t ≡ some u → u.name ≡ t.name
unfolding loop_step
loop_step_name receives t u h = ground arith
loop_step_name sees_cancel t u h = ground arith
loop_step_name checks t u h = ground arith
loop_step_name begins_end t u h = ground arith
loop_step_name (finishes e g) t u h = ground arith
loop_step_name (ends e g) t u h = ground arith

pub step_name : (a : Action) (t u : Target) → step a t ≡ some u → u.name ≡ t.name
unfolding step
step_name (loops a) t u h = loop_step_name a t u h
step_name warms t u h = ground arith
step_name drains t u h = ground arith
step_name closes t u h = ground arith
step_name cancels t u h = ground arith
step_name (adds e) t u h = ground arith
step_name (removes n) t u h = ground arith
