-- ===== src/Target/Loop/Tests.antt =====
-- A target of pkg/target/target.go that is made, warmed, found active and closed.
use proxygw.Prelude.{
  [], bool_eq, codes, false, insert, nat_eq, none, refl, some, text_eq, true, ℕ, ◌↔◌, ◌∷◌, ◌≡◌, ◌≤◌,
  ◌⊎◌,
}
use proxygw.Config.Tests.{web_target}
use proxygw.Target.{
  Target, inactive, active, warming, closed, waiting, received, handling, new, warm, collect,
  close_locked, cancel, ended, ending,
}
use proxygw.Target.Endpoints.{Endpoint, is_valid, overlaps, endpoint_overlaps_iff}
use proxygw.Target.Loop.{
  loops, warms, closes, cancels, receives, checks, finishes, step, loop_step, receive, check,
  finish, sees_cancel, see_cancel,
}
use proxygw.Target.Loop.Invariant.{Coherent, Reach, start, then, target-Coherent}
use proxygw.Target.Loop.Diagram.{Follows, step-Follows}
use proxygw.Target.Loop.Shutdown.{LoopRun, next, done, closed_runs_bounded, closed_ends}
use proxygw.Netip.{v4, addr_beq, is_unspecified}
use proxygw.Config.Namespace

abbrev http : Endpoint
http = record {
  name = codes "http";
  address = record { addr = v4 (10 ∷ 0 ∷ 0 ∷ 2 ∷ []); port = 8080 };
  protocol = 6;
}

abbrev made : Target
made = record {
  name = codes "web";
  kind = codes "s:cmd";
  timeout = 300;
  group = 0;
  endpoints = (codes "http", http) ∷ [];
  requests = [];
  cancelled = false;
  err = none;
  state = inactive;
  loop = waiting;
}

made-Reach : Reach made
unfolding new collect is_valid Namespace.to_string is_unspecified addr_beq insert
made-Reach = start 0 web_target refl

abbrev warmed : Target
warmed = record made { state = warming; requests = warming ∷ [] }

made_warms : step warms made ≡ some warmed
unfolding step warm
made_warms = refl

warmed-Reach : Reach warmed
warmed-Reach = then warms made-Reach made_warms

abbrev taken : Target
taken = record made { state = warming; loop = received warming }

abbrev at_work : Target
at_work = record made { state = warming; loop = handling warming }

abbrev running : Target
running = record made { state = active }

running-Reach : Reach running
unfolding step loop_step receive check finish
running-Reach =
    then (loops (finishes none none))
      (then (loops checks) {u = at_work} (then (loops receives) {u = taken} warmed-Reach refl) refl)
      refl

abbrev shut : Target
shut = record warmed { state = closed; cancelled = true }

shut-Reach : Reach shut
unfolding step close_locked cancel
shut-Reach =
    then cancels (then closes {u = record warmed { state = closed }} warmed-Reach refl) refl

target-Coherent_example : Coherent running
target-Coherent_example = target-Coherent running-Reach

step-Follows_example : Follows warms inactive warming
step-Follows_example = step-Follows warms made-Reach made_warms

shut_run : LoopRun 1 shut (record shut { loop = ending })
unfolding loop_step see_cancel
shut_run = next sees_cancel refl done

closed_runs_bounded_example : 1 ≤ 8
closed_runs_bounded_example = closed_runs_bounded shut-Reach refl shut_run

closed_ends_example : (k : ℕ) × (u : Target) × LoopRun k shut u × (u.loop ≡ ended)
closed_ends_example = closed_ends shut-Reach refl refl

abbrev other : Endpoint
other = record http { name = codes "api" }

endpoint_overlaps_iff_example : (overlaps http other ≡ true) ↔ (
    (http.name ≡ other.name) ⊎ ((http.protocol ≡ other.protocol) × (http.address ≡ other.address)))
endpoint_overlaps_iff_example = endpoint_overlaps_iff http other
