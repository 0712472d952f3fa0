-- ===== src/Frontend/Loop.antt =====
-- The event loop of pkg/frontend/frontend.go: `start`, startBlocking, stopBlocking and endBlocking,
-- cut where the lock is free, and its interleavings with the callers of the frontend.
pub mod Invariant
pub mod Identity
pub mod Failure
mod Tests
use proxygw.Prelude.{Bool, List, Option, Text, if◌then◌else◌, none, some, true, ◌∷◌}
use proxygw.Target.{Target, warm}
use proxygw.Connft.State.{Err}
use proxygw.Frontend.{
  Frontend, State, stopped, starting, running, stopping, closed, Phase, waiting, received, handling,
  ending, closing, ended, Fault, handler_failed, close_failed, is_closed, start, stop, close_locked,
  cancel,
}

-- The branches of the select, and the dispatch on a request.
receive_from : Phase → List State → Frontend → Option Frontend
receive_from waiting (starting ∷ rs) f = some (record f { requests = rs; loop = received starting })
receive_from waiting (stopping ∷ rs) f = some (record f { requests = rs; loop = received stopping })
receive_from waiting (r ∷ rs) f = some (record f { requests = rs })
receive_from _ _ f = none

receive : Frontend → Option Frontend
unfolding receive_from
receive f = receive_from f.loop f.requests f

see_cancel_at : Phase → Bool → Frontend → Option Frontend
see_cancel_at waiting true f = some (record f { loop = ending })
see_cancel_at _ _ f = none

see_cancel : Frontend → Option Frontend
unfolding see_cancel_at
see_cancel f = see_cancel_at f.loop f.cancelled f

-- A signal of the handler's ShouldWarm: the target is warmed, and the answer only logged.
warm_signal_at : Phase → Frontend → Target → Option (Frontend × Target)
warm_signal_at waiting f t = elim (warm t) [ none ↦ none | some (t', ok) ↦ some (f, t') ]
warm_signal_at _ f t = none

unfoldable pub warm_signal : Frontend → Target → Option (Frontend × Target)
unfolding warm_signal_at
warm_signal f t = warm_signal_at f.loop f t

-- The test under the read lock by which startBlocking and stopBlocking begin.
check_at : Phase → Frontend → Option Frontend
check_at (received r) f =
    some (if is_closed f.state then record f { loop = waiting } else record f { loop = handling r })
check_at _ f = none

check : Frontend → Option Frontend
unfolding check_at
check f = check_at f.loop f

-- The end of startBlocking, with the handler's answer.
end_start : Frontend → Option Text → Frontend
end_start f (some e) = record f { err = some (handler_failed e); state = stopping }
end_start f none = record f { err = none; state = running }

-- The end of stopBlocking, with the handler's answer.
end_stop : Frontend → Option Text → Frontend
end_stop f (some e) = record f { err = some (handler_failed e); state = starting }
end_stop f none = record f { err = none; state = stopped }

finish_at : Phase → Option Text → Frontend → Option Frontend
unfolding end_start end_stop
finish_at (handling starting) e f =
    let u : Frontend = record f { loop = waiting } in
    some (if is_closed f.state then u else end_start u e)
finish_at (handling stopping) e f =
    let u : Frontend = record f { loop = waiting } in
    some (if is_closed f.state then u else end_stop u e)
finish_at _ e f = none

pub finish : Option Text → Frontend → Option Frontend
unfolding finish_at
finish e f = finish_at f.loop e f

-- endBlocking: closed under the lock, then the answers of the handler's Close and of DelMappings.
begin_end_at : Phase → Frontend → Option Frontend
begin_end_at ending f = some (record f { state = closed; loop = closing })
begin_end_at _ f = none

begin_end : Frontend → Option Frontend
unfolding begin_end_at
begin_end f = begin_end_at f.loop f

join : Option Text → Option Err → Option Fault
join none none = none
join e g = some (close_failed e g)

end_end_at : Phase → Option Text → Option Err → Frontend → Option Frontend
unfolding join
end_end_at closing e g f = some (record f { err = join e g; loop = ended })
end_end_at _ e g f = none

end_end : Option Text → Option Err → Frontend → Option Frontend
unfolding end_end_at
end_end e g f = end_end_at f.loop e g f

-- What the loop does next, with the answers that it gets.
pub data LoopAction : Type 0 where
  receives sees_cancel checks begins_end : LoopAction
  finishes : Option Text → LoopAction
  ends : Option Text → Option Err → LoopAction

-- What the callers do.
pub data Action : Type 0 where
  loops : LoopAction → Action
  starts stops closes cancels : Action

unfoldable pub loop_step : LoopAction → Frontend → Option Frontend
unfolding receive see_cancel check finish begin_end end_end
loop_step receives f = receive f
loop_step sees_cancel f = see_cancel f
loop_step checks f = check f
loop_step begins_end f = begin_end f
loop_step (finishes e) f = finish e f
loop_step (ends e g) f = end_end e g f

abbrev dropped : Option (Frontend × Bool) → Option Frontend
dropped none = none
dropped (some (f, b)) = some f

-- `none` where the loop does not stand there, or a call blocks.
unfoldable pub step : Action → Frontend → Option Frontend
unfolding loop_step start stop close_locked cancel
step (loops a) f = loop_step a f
step starts f = dropped (start f)
step stops f = dropped (stop f)
step closes f = some (if is_closed f.state then f else close_locked f)
step cancels f = some (cancel f)
