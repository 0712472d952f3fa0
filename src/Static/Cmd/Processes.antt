-- ===== src/Static/Cmd/Processes.antt =====
-- The processes that plugin/static/targets/cmd.go starts and ends.
use mathlib.Core.List.{append-nil}
use proxygw.Prelude.{
  Bool, List, Option, Text, [], ap, false, inl, inr, none, refl, some, true, ℕ, ◌++◌, ◌∙◌, ◌∷◌, ◌≡◌,
  ◌⊎◌,
}
use proxygw.Static.Cmd.{
  CmdHandler, Event, interrupts, awaits, kills, Answers, drain_process, warm, drain, close,
}

pub data Action : Type 0 where
  warms : ℕ ⊎ Text → Action
  drains closes : Answers → Action

abbrev pub step : Action → CmdHandler → CmdHandler
step (warms started) h = (warm started h).0
step (drains a) h = (drain a h).0
step (closes a) h = (close a h).0

-- The process that a call starts.
abbrev pub starts : Action → CmdHandler → List ℕ
starts (warms (inl pid)) h = elim h.cmd [ none ↦ pid ∷ [] | some old ↦ [] ]
starts _ h = []

-- What a call does to a process, if it does anything to one.
abbrev some_events : List Event → List (List Event)
some_events [] = []
some_events es = es ∷ []

abbrev pub ends : Action → CmdHandler → List (List Event)
ends (warms started) h = []
ends (drains a) h = some_events (drain a h).1
ends (closes a) h = some_events (close a h).1

-- Calls on a new handler: the processes that they have started, and what each Drain or Close did to
-- one, in order.
pub data Run (command : Text) : List ℕ → List (List Event) → CmdHandler → Type 0 where
  fresh : Run command [] [] (record { command = command; cmd = none })
  next :
      {started : List ℕ} {ess : List (List Event)} {h : CmdHandler} (a : Action)
      → Run command started ess h
      → Run command (started ++ starts a h) (ess ++ ends a h) (step a h)

abbrev pub held : CmdHandler → List ℕ
held h = elim h.cmd [ none ↦ [] | some pid ↦ pid ∷ [] ]

-- The process is interrupted first, and at last it is known to have ended, or it could not be killed.
pub data Settles (pid : ℕ) : List Event → Type 0 where
  has_ended : (es : List Event) → Settles pid (interrupts pid ∷ es ++ awaits pid ∷ [])
  not_killed : (es : List Event) → Settles pid (interrupts pid ∷ es ++ kills pid false ∷ [])

-- The lists of events settle the processes, one by one.
pub data Settled : List ℕ → List (List Event) → Type 0 where
  none_yet : Settled [] []
  then_settles :
      {pids : List ℕ} {ess : List (List Event)} {pid : ℕ} {es : List Event}
      → Settled pids ess
      → Settles pid es
      → Settled (pids ++ pid ∷ []) (ess ++ es ∷ [])

drain_process-Settles : (a : Answers) (pid : ℕ) → Settles pid (drain_process a pid)
unfolding drain_process
drain_process-Settles a pid = settles a.signalled a.killed_at_once a.in_time a.killed_late
  where
    settles :
        (s k i l : Bool)
        → Settles pid (
            drain_process
              (record { signalled = s; killed_at_once = k; in_time = i; killed_late = l })
              pid)
    settles true k true l = has_ended []
    settles false k true l = has_ended (kills pid k ∷ [])
    settles true k false true = has_ended (kills pid true ∷ [])
    settles false k false true = has_ended (kills pid k ∷ kills pid true ∷ [])
    settles true k false false = not_killed []
    settles false k false false = not_killed (kills pid k ∷ [])

-- What holds between calls: all processes that were started are settled but the one that is held.
abbrev Settling : List ℕ → List (List Event) → CmdHandler → Type 0
Settling started ends h = (settled : List ℕ) × Settled settled ends × (started ≡ settled ++ held h)

-- A Drain or Close, whose answers are `a`.
drain-Settling :
    (a : Answers) (command : Text) (cmd : Option ℕ) (started : List ℕ) (ess : List (List Event))
    → let h : CmdHandler = record { command = command; cmd = cmd } in
      Settling started ess h
      → Settling (started ++ []) (ess ++ some_events (drain a h).1) (drain a h).0
unfolding drain
drain-Settling a command none started ess (settled, s, e) =
    (settled, rw (append-nil ess) s, rw (append-nil started) e)
drain-Settling a command (some pid) started ess (settled, s, e) = (
  settled ++ pid ∷ [],
  then_settles s (drain_process-Settles a pid),
  rw (append-nil started, append-nil (settled ++ pid ∷ [])) e,
)

warm-Settling :
    (answer : ℕ ⊎ Text) (command : Text) (cmd : Option ℕ) (started : List ℕ)
    (ess : List (List Event))
    → let h : CmdHandler = record { command = command; cmd = cmd } in
      Settling started ess h
      → Settling (started ++ starts (warms answer) h) (ess ++ []) (warm answer h).0
unfolding warm
warm-Settling (inl pid) command none started ess (settled, s, e) =
    (settled, rw (append-nil ess) s, ap (λ xs. xs ++ pid ∷ []) (e ∙ append-nil settled))
warm-Settling (inr x) command none started ess (settled, s, e) =
    (settled, rw (append-nil ess) s, rw (append-nil started) e)
warm-Settling (inl pid) command (some old) started ess (settled, s, e) =
    (settled, rw (append-nil ess) s, rw (append-nil started) e)
warm-Settling (inr x) command (some old) started ess (settled, s, e) =
    (settled, rw (append-nil ess) s, rw (append-nil started) e)

-- After any calls of Warm, Drain and Close, the processes that were started are those that Drain or
-- Close has settled, in the same order, and behind them the one that the handler holds, if it holds
-- one. To settle a process is to interrupt it and then, at last, to hear that it has ended or to fail
-- to kill it: so a process that is started runs beside an earlier one only where a Kill has failed.
pub processes_one_by_one :
    {command : Text} {started : List ℕ} {ess : List (List Event)} {h : CmdHandler}
    → Run command started ess h
    → (settled : List ℕ) × Settled settled ess × (started ≡ settled ++ held h)
unfolding close
processes_one_by_one fresh = ([], none_yet, refl)
processes_one_by_one (next {started} {ess} {h} (warms answer) r) =
    warm-Settling answer h.command h.cmd started ess (processes_one_by_one r)
processes_one_by_one (next {started} {ess} {h} (drains a) r) =
    drain-Settling a h.command h.cmd started ess (processes_one_by_one r)
processes_one_by_one (next {started} {ess} {h} (closes a) r) =
    drain-Settling a h.command h.cmd started ess (processes_one_by_one r)
