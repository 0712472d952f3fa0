-- ===== src/Ctl/Status.antt =====
-- statusResponse of plugin/ctl/server.go, and Targets, Frontends and Closed of pkg/engine/engine.go, on
-- which it works. The locks of the engine, of its targets and of its frontends are taken one after
-- another, while here all is read of one engine: what changes in between is not modelled.
pub mod Order
use proxygw.Prelude.{Bool, List, Option, Text, [], map, none, some, values, ℕ}
use proxygw.Netip.{AddrPort}
use proxygw.Target.{Target, endpoints}
use proxygw.Target as Targets
use proxygw.Target.Endpoints.{Endpoint}
use proxygw.Frontend.{Frontend, protocol, listen, proxy_address}
use proxygw.Frontend
use proxygw.Engine.{Engine}
use proxygw.Ipc.Method.{TargetEndpointInfo, TargetStatus, FrontendStatus, StatusResponse}
use proxygw.Ctl.Sorting.{sort_by}

-- What String of netip.AddrPort, Error of the errors, and %d of fmt print.
pub record Printer : Type 0 where
  pub address : AddrPort → Text
  pub number : ℕ → Text
  pub target_error : Targets.Fault → Text
  pub frontend_error : Frontend.Fault → Text

-- Targets, Frontends and Closed: the values of a map in the order in which one range meets them.
module _ {Conn TC FC : Type 0} where
  abbrev pub engine_targets : Engine Conn TC FC → List Target
  engine_targets e = map e.target_at (values e.targets)

  abbrev pub engine_frontends : Engine Conn TC FC → List Frontend
  engine_frontends e = map e.frontend_at (values e.frontends)

  abbrev pub engine_closed : Engine Conn TC FC → Bool
  engine_closed e = e.closed

-- LastError, which is left empty where there is no error.
abbrev pub last_error : {A : Type 0} → (A → Text) → Option A → Text
last_error print none = []
last_error print (some e) = print e

module _ (print : Printer) where
  unfoldable pub endpoint_info : Endpoint → TargetEndpointInfo
  endpoint_info ep = record {
    name = ep.name;
    protocol = ep.protocol;
    address = print.address ep.address;
  }

  unfoldable pub target_status : Target → TargetStatus
  target_status t = record {
    name = t.name;
    kind = t.kind;
    state = Targets.to_string t.state;
    last_error = last_error print.target_error t.err;
    endpoints = map endpoint_info (sort_by (λ ep. ep.name) (endpoints t));
  }

  -- The target of a frontend is a pointer, here into the store of targets.
  pub frontend_status : (ℕ → Target) → Frontend → FrontendStatus
  frontend_status target_at f = record {
    name = f.name;
    kind = f.kind;
    state = Frontend.to_string f.state;
    last_error = last_error print.frontend_error f.err;
    protocol = protocol f;
    listen = print.address (listen f);
    target_name = (target_at f.target).name;
    endpoint_name = f.endpoint.name;
    proxy_address = print.address (proxy_address f);
  }

  unfoldable pub status_response : {Conn TC FC : Type 0} → Engine Conn TC FC → StatusResponse
  status_response e = record {
    closed = engine_closed e;
    targets = map target_status (sort_by (λ t. t.name) (engine_targets e));
    frontends = map (frontend_status e.target_at) (sort_by (λ f. f.name) (engine_frontends e));
  }
