-- ===== src/Static/Always.antt =====
-- plugin/static/frontends/always.go: a frontend that asks for its target once a second.
pub mod Calls
use proxygw.Prelude.{Bool, Option, false, if◌then◌else◌, none, not, some, true}

pub data Command : Type 0 where
  always_start always_stop always_close : Command

-- `queued` is whether the one place of ch is taken, `ticking` whether the ticker runs, `running` the
-- loop's own variable, and `returned` whether the loop is over.
pub record AlwaysHandler : Type 0 where
  pub queued : Bool
  pub closed : Bool
  pub ticking : Bool
  pub running : Bool
  pub returned : Bool

unfoldable pub new_always_handler : AlwaysHandler
new_always_handler = record {
  queued = false;
  closed = false;
  ticking = false;
  running = false;
  returned = false;
}

-- The switch of the loop on a command; its return stops the ticker.
unfoldable pub obey : Command → AlwaysHandler → AlwaysHandler
obey always_start h = if not h.running then record h { ticking = true; running = true } else h
obey always_stop h = if h.running then record h { ticking = false; running = false } else h
obey always_close h = record h { ticking = false; returned = true }

-- `h.commands <- c` on a channel without a place: the loop takes the command, or the send waits for
-- ever, which is none.
unfoldable pub command : Command → AlwaysHandler → Option AlwaysHandler
command c h = if h.returned then none else some (obey c h)

unfoldable pub start : AlwaysHandler → Option AlwaysHandler
start h = if h.closed then some h else command always_start h

unfoldable pub stop : AlwaysHandler → Option AlwaysHandler
stop h = if h.closed then some h else command always_stop h

unfoldable pub close : AlwaysHandler → Option AlwaysHandler
close h = if h.closed then some h else command always_close (record h { closed = true })

-- The branch of the loop on a tick, one of which may still be under way when the ticker stops; a
-- signal is dropped where the last one was not received.
unfoldable pub tick : AlwaysHandler → Option AlwaysHandler
tick h = if h.returned then none else some (if h.running then record h { queued = true } else h)

-- A receive from ShouldWarm.
unfoldable pub should_warm : AlwaysHandler → Option AlwaysHandler
should_warm h = if h.queued then some (record h { queued = false }) else none
