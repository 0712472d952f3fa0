-- ===== src/Frontend/Loop/Tests.antt =====
-- A frontend of pkg/frontend/frontend.go that is started, and one whose handler fails to start.
use proxygw.Prelude.{[], codes, none, refl, some, ◌∷◌, ◌≡◌, ◌⊎◌}
use proxygw.Netip.{v4}
use proxygw.Config.Tests.{web_frontend}
use proxygw.Target.Endpoints.{Endpoint}
use proxygw.Frontend.{
  Frontend, starting, running, stopping, closed, received, handling, handler_failed, made, start,
  stop,
}
use proxygw.Frontend.Loop.{
  loops, starts, stops, receives, checks, finishes, step, loop_step, receive, check, finish,
}
use proxygw.Frontend.Loop.Invariant.{Coherent, Reach, begin, then, frontend-Coherent}
use proxygw.Frontend.Loop.Failure.{Run, done, next, failure_sticks}

abbrev http : Endpoint
http = record {
  name = codes "http";
  address = record { addr = v4 (10 ∷ 0 ∷ 0 ∷ 2 ∷ []); port = 8080 };
  protocol = 6;
}

abbrev fresh : Frontend
fresh = made 0 http web_frontend

abbrev started : Frontend
started = record fresh { state = starting; requests = starting ∷ [] }

abbrev at_work : Frontend
at_work = record started { requests = []; loop = handling starting }

at_work-Reach : Reach at_work
unfolding step loop_step receive check start made
at_work-Reach =
    then (loops checks)
      (then (loops receives) {u = record started { requests = []; loop = received starting }}
        (then starts {u = started} (begin 0 http web_frontend) refl) refl)
      refl

abbrev up : Frontend
up = record fresh { state = running }

up-Reach : Reach up
unfolding step loop_step finish made
up-Reach = then (loops (finishes none)) at_work-Reach refl

abbrev failed : Frontend
failed = record fresh { state = stopping; err = some (handler_failed (codes "bind")) }

start_fails : finish (some (codes "bind")) at_work ≡ some failed
unfolding finish made
start_fails = refl

stop_after : Run failed failed
unfolding step stop made
stop_after = next stops refl done

frontend-Coherent_example : Coherent at_work
frontend-Coherent_example = frontend-Coherent at_work-Reach

failure_sticks_example :
    ((at_work.state ≡ starting) × (failed.state ≡ stopping)
      ⊎ (at_work.state ≡ stopping) × (failed.state ≡ starting))
    × ((failed.state ≡ closed) ⊎ (failed.state ≡ failed.state))
failure_sticks_example =
    failure_sticks (codes "bind") failed failed at_work-Reach (λ e. cc) start_fails stop_after
