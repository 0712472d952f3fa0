-- ===== src/Target/Loop.antt =====
-- The event loop of pkg/target/target.go: `start`, warmBlocking, drainBlocking and endBlocking, cut
-- where the lock is free, and its interleavings with the callers of the target.
pub mod Invariant
pub mod Identity
pub mod Diagram
pub mod Shutdown
mod Tests
use proxygw.Prelude.{Bool, List, Option, Text, if◌then◌else◌, none, some, true, ◌∷◌}
use proxygw.Target.{
  Target, State, inactive, active, warming, draining, closed, Phase, waiting, received, handling,
  ending, closing, ended, Fault, handler_failed, enable_failed, disable_failed, close_failed,
  is_closed, warm, drain, close_locked, cancel, add_endpoint, remove_endpoint,
}
use proxygw.Target.Endpoints.{Endpoint}

-- The two branches of the select, and the dispatch on a request.
receive_from : Phase → List State → Target → Option Target
receive_from waiting (warming ∷ rs) t = some (record t { requests = rs; loop = received warming })
receive_from waiting (draining ∷ rs) t = some (record t { requests = rs; loop = received draining })
receive_from waiting (r ∷ rs) t = some (record t { requests = rs })
receive_from _ _ t = none

receive : Target → Option Target
unfolding receive_from
receive t = receive_from t.loop t.requests t

see_cancel_at : Phase → Bool → Target → Option Target
see_cancel_at waiting true t = some (record t { loop = ending })
see_cancel_at _ _ t = none

see_cancel : Target → Option Target
unfolding see_cancel_at
see_cancel t = see_cancel_at t.loop t.cancelled t

-- The test under the read lock by which warmBlocking and drainBlocking begin.
check_at : Phase → Target → Option Target
check_at (received r) t =
    some (if is_closed t.state then record t { loop = waiting } else record t { loop = handling r })
check_at _ t = none

check : Target → Option Target
unfolding check_at
check t = check_at t.loop t

-- The end of warmBlocking: the handler's answer, and that of `group.Enable()`.
end_warm : Target → Option Text → Option Text → Target
end_warm t (some e) enabled = record t { err = some (handler_failed e); state = inactive }
end_warm t none (some e) = record t { err = some (enable_failed e); state = active }
end_warm t none none = record t { err = none; state = active }

-- The end of drainBlocking: the handler's answer, and that of `group.Disable()`.
end_drain : Target → Option Text → Option Text → Target
end_drain t (some e) disabled = record t { err = some (handler_failed e); state = active }
end_drain t none (some e) = record t { err = some (disable_failed e); state = inactive }
end_drain t none none = record t { err = none; state = inactive }

finish_at : Phase → Option Text → Option Text → Target → Option Target
unfolding end_warm end_drain
finish_at (handling warming) e g t =
    let u : Target = record t { loop = waiting } in
    some (if is_closed t.state then u else end_warm u e g)
finish_at (handling draining) e g t =
    let u : Target = record t { loop = waiting } in
    some (if is_closed t.state then u else end_drain u e g)
finish_at _ e g t = none

finish : Option Text → Option Text → Target → Option Target
unfolding finish_at
finish e g t = finish_at t.loop e g t

-- endBlocking: closed under the lock, then the answers of the handler's and the group's Close.
begin_end_at : Phase → Target → Option Target
begin_end_at ending t = some (record t { state = closed; loop = closing })
begin_end_at _ t = none

begin_end : Target → Option Target
unfolding begin_end_at
begin_end t = begin_end_at t.loop t

join : Option Text → Option Text → Option Fault
join none none = none
join e g = some (close_failed e g)

end_end_at : Phase → Option Text → Option Text → Target → Option Target
unfolding join
end_end_at closing e g t = some (record t { err = join e g; loop = ended })
end_end_at _ e g t = none

end_end : Option Text → Option Text → Target → Option Target
unfolding end_end_at
end_end e g t = end_end_at t.loop e g t

-- What the loop does next, with the answers that it gets.
pub data LoopAction : Type 0 where
  receives sees_cancel checks begins_end : LoopAction
  finishes ends : Option Text → Option Text → LoopAction

-- What the callers do.
pub data Action : Type 0 where
  loops : LoopAction → Action
  warms drains closes cancels : Action
  adds : Endpoint → Action
  removes : Text → Action

unfoldable pub loop_step : LoopAction → Target → Option Target
unfolding receive see_cancel check finish begin_end end_end
loop_step receives t = receive t
loop_step sees_cancel t = see_cancel t
loop_step checks t = check t
loop_step begins_end t = begin_end t
loop_step (finishes e g) t = finish e g t
loop_step (ends e g) t = end_end e g t

abbrev dropped : Option (Target × Bool) → Option Target
dropped none = none
dropped (some (t, b)) = some t

-- `none` where the loop does not stand there, or a call blocks.
unfoldable pub step : Action → Target → Option Target
unfolding loop_step warm drain close_locked cancel add_endpoint remove_endpoint
step (loops a) t = loop_step a t
step warms t = dropped (warm t)
step drains t = dropped (drain t)
step closes t = some (if is_closed t.state then t else close_locked t)
step cancels t = some (cancel t)
step (adds e) t = some (add_endpoint t e).0
step (removes n) t = some (remove_endpoint t n).0
