-- ===== src/Static/Tests.antt =====
-- Handlers of plugin/static to which the theorems apply.
use proxygw.Prelude.{
  Dict, List, Text, [], codes, false, inl, none, some, true, ℕ, ◌++◌, ◌↔◌, ◌∷◌, ◌≡◌, ◌≢◌, ◌⊎◌,
}
use proxygw.Netip.{v4}
use proxygw.Config.Protocol.{tcp}
use proxygw.Static.Options.{Value, text, string_option}
use proxygw.Static.Always.{AlwaysHandler, new_always_handler}
use proxygw.Static.Always.Calls as AlwaysCalls
use proxygw.Static.Always.Calls.{Leaves, calls_return}
use proxygw.Static.Cmd.{CmdHandler, Event, interrupts, kills, Answers, warm, drain, drain_process}
use proxygw.Static.Cmd.Processes.{
  Run, fresh, next, warms, drains, held, Settled, processes_one_by_one,
}
use proxygw.Static.Http.{HttpHandler, new_http_handler}
use proxygw.Static.Http.Requests.{Serves, new_http_handler_iff}

starts_no_tick : AlwaysCalls.starts ≢ AlwaysCalls.ticks
starts_no_tick h = cc

starts_no_receipt : AlwaysCalls.starts ≢ AlwaysCalls.receives
starts_no_receipt h = cc

calls_return_example :
    (u : AlwaysHandler) × (AlwaysCalls.step AlwaysCalls.starts new_always_handler ≡ some u)
    × (((new_always_handler.closed ≡ true) × (u ≡ new_always_handler))
        ⊎ ((new_always_handler.closed ≡ false) × Leaves AlwaysCalls.starts new_always_handler u))
calls_return_example =
    calls_return AlwaysCalls.fresh AlwaysCalls.starts starts_no_tick starts_no_receipt

-- A command that is started, cannot be killed, and is started again.
abbrev sleeper : CmdHandler
sleeper = record { command = codes "sleep 9"; cmd = some 12 }

abbrev stubborn : Answers
stubborn = record { signalled = true; killed_at_once = false; in_time = false; killed_late = false }

abbrev left_alone : List Event
left_alone = interrupts 11 ∷ kills 11 false ∷ []

sleeper-Run : Run (codes "sleep 9") (11 ∷ 12 ∷ []) (left_alone ∷ []) sleeper
unfolding warm drain drain_process
sleeper-Run = next (warms (inl 12)) (next (drains stubborn) (next (warms (inl 11)) fresh))

processes_one_by_one_example :
    (settled : List ℕ) × Settled settled (left_alone ∷ [])
    × (11 ∷ 12 ∷ [] ≡ settled ++ held sleeper)
processes_one_by_one_example = processes_one_by_one sleeper-Run

abbrev options : Dict Text Value
options = (codes "content", text (codes "wait")) ∷ []

abbrev http : HttpHandler
http = record {
  address = record { addr = v4 (10 ∷ 0 ∷ 0 ∷ 1 ∷ []); port = 80 };
  content = codes "wait";
  endpoint = codes "/";
  queued = false;
  server = none;
  next = 0;
}

new_http_handler_iff_example : (new_http_handler tcp http.address options ≡ inl http) ↔ (
    (◌≡◌ {A = ℕ} tcp tcp)
    × (string_option (codes "content") options ≡ some http.content)
    × Serves options http.endpoint
    × (http.address ≡ http.address)
    × (http.queued ≡ false)
    × (http.server ≡ none)
    × (http.next ≡ 0))
new_http_handler_iff_example = new_http_handler_iff tcp http.address options http
