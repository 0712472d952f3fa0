-- ===== src/Static/Cmd.antt =====
-- plugin/static/targets/cmd.go: a target that is a running command. os/exec is an argument.
pub mod Processes
use proxygw.Prelude.{
  Bool, Dict, List, Option, Text, [], codes, if◌then◌else◌, inl, inr, is_empty, none, some, ℕ, ◌++◌,
  ◌∷◌, ◌⊎◌,
}
use proxygw.Static.Options.{Value, string_option}

-- `cmd` is the process that is held, with its channel done; a command that was started has a Process.
pub record CmdHandler : Type 0 where
  pub command : Text
  pub cmd : Option ℕ

-- NewCmdHandler; none is its error.
unfoldable pub new_cmd_handler : Dict Text Value → Option CmdHandler
new_cmd_handler options = elim (string_option (codes "command") options) [
  | none ↦ none
  | some command ↦
      if is_empty command then none else some (record { command = command; cmd = none })
]

-- Warm, with what Start of exec.Cmd answers: the process, or an error.
unfoldable pub warm : ℕ ⊎ Text → CmdHandler → CmdHandler × Option Text
warm started h = elim h.cmd [
  | some pid ↦ (h, none)
  | none ↦ elim started [ inr x ↦ (h, some x) | inl pid ↦ (record h { cmd = some pid }, none) ]
]

-- What Drain does to a process: Signal with Interrupt, Kill with whether it succeeds, and a receive from
-- done, which says that the process has ended.
pub data Event : Type 0 where
  interrupts awaits : ℕ → Event
  kills : ℕ → Bool → Event

-- What Drain meets: whether Signal succeeds, and Kill where it does not; whether the process is done
-- before cmdStopTimeout, and whether Kill succeeds where it is not. Errors are only logged.
pub record Answers : Type 0 where
  pub signalled : Bool
  pub killed_at_once : Bool
  pub in_time : Bool
  pub killed_late : Bool

-- The branch on a failed Signal.
abbrev unsignalled : Answers → ℕ → List Event
unsignalled a pid = if a.signalled then [] else kills pid a.killed_at_once ∷ []

-- The select: a Kill that fails behind the timeout ends Drain without a receive from done.
abbrev selected : Answers → ℕ → List Event
selected a pid =
    if a.in_time
    then awaits pid ∷ []
    else kills pid a.killed_late ∷ (if a.killed_late then awaits pid ∷ [] else [])

unfoldable pub drain_process : Answers → ℕ → List Event
drain_process a pid = interrupts pid ∷ unsignalled a pid ++ selected a pid

unfoldable pub drain : Answers → CmdHandler → CmdHandler × List Event
unfolding drain_process
drain a h = elim h.cmd [
  | none ↦ (h, [])
  | some pid ↦ (record h { cmd = none }, drain_process a pid)
]

unfoldable pub close : Answers → CmdHandler → CmdHandler × List Event
unfolding drain
close a h = drain a h
