-- ===== src/Frontend.antt =====
-- pkg/frontend: a frontend with its locked operations and its event loop. A frontend's New binds its
-- mapping in the group of its target; its other operations meet the handler only through the loop.
pub mod Loop
use proxygw.Prelude.{
  Bool, List, Option, Text, [], codes, false, if◌then◌else◌, inl, inr, none, some, true, ℕ, ◌∷◌,
  ◌⊎◌,
}
use proxygw.Netip.{AddrPort}
use proxygw.Config.Document
use proxygw.Config.Namespace
use proxygw.Config.Protocol.{Protocol}
use proxygw.Config.Ttl.{Ttl}
use proxygw.Dataplane.Mapping.{Mapping}
use proxygw.Target.{Target}
use proxygw.Target.Endpoints.{Endpoint}
use proxygw.Connft.Nft.{Nft}
use proxygw.Connft.State.{Connft, Err}
use proxygw.Connft.Group.{add_mappings}

pub data State : Type 0 where
  stopped starting running stopping closed : State

pub to_string : State → Text
to_string stopped = codes "stopped"
to_string starting = codes "starting"
to_string running = codes "running"
to_string stopping = codes "stopping"
to_string closed = codes "closed"

-- What `err` holds: the handler's error, or its Close and DelMappings joined.
pub data Fault : Type 0 where
  handler_failed : Text → Fault
  close_failed : Option Text → Option Err → Fault

-- Where the event loop stands: in its select, behind the receipt of a request, in the handler for
-- it, behind the receipt of the cancellation, in the handler's Close, or behind its end.
pub data Phase : Type 0 where
  waiting : Phase
  received handling : State → Phase
  ending closing ended : Phase

pub record Frontend : Type 0 where
  pub name : Text
  pub kind : Text
  pub target : ℕ  -- the target object
  pub endpoint : Endpoint
  pub requests : List State  -- a channel of capacity 1
  pub mapping : Mapping
  pub cancelled : Bool
  pub err : Option Fault
  pub state : State
  pub loop : Phase

unfoldable pub mapping_of : Endpoint → Document.Frontend → Mapping
mapping_of endpoint cfg = record {
  protocol = cfg.protocol;
  source = cfg.listen;
  destination = endpoint.address;
  timeout = cfg.flow_timeout;
}

unfoldable pub made : ℕ → Endpoint → Document.Frontend → Frontend
unfolding mapping_of
made target endpoint cfg = record {
  name = cfg.name;
  kind = Namespace.to_string cfg.kind;
  target = target;
  endpoint = endpoint;
  requests = [];
  mapping = mapping_of endpoint cfg;
  cancelled = false;
  err = none;
  state = stopped;
  loop = waiting;
}

module _ (nft : Nft) where
  open nft use {Conn}

  -- `i` is the target, which is `target` at that time.
  unfoldable pub new :
      Connft Conn → ℕ → Target → Endpoint → Document.Frontend → Connft Conn × (Frontend ⊎ Err)
  unfolding mapping_of made
  new d i target endpoint cfg =
      let (d₁, e) = add_mappings nft d target.group (mapping_of endpoint cfg ∷ []) in
      elim e [ some x ↦ (d₁, inr x) | none ↦ (d₁, inl (made i endpoint cfg)) ]

-- Protocol, Listen and ProxyAddress.
pub protocol : Frontend → Protocol
protocol f = f.mapping.protocol

pub listen : Frontend → AddrPort
listen f = f.mapping.source

pub proxy_address : Frontend → AddrPort
proxy_address f = f.mapping.destination

abbrev pub is_closed : State → Bool
is_closed closed = true
is_closed _ = false

-- `f.requests <- next` with the lock held; `none` where the channel is full and the send blocks.
send : State → Frontend → Option Frontend
send next f = elim f.requests [ [] ↦ some (record f { requests = next ∷ [] }) | r ∷ rs ↦ none ]

request : State → Frontend → Option (Frontend × Bool)
unfolding send
request next f = elim (send next (record f { err = none; state = next })) [
  | none ↦ none
  | some f' ↦ some (f', true)
]

start_in : State → Frontend → Option (Frontend × Bool)
unfolding request
start_in running f = some (f, true)
start_in starting f = some (f, true)
start_in stopping f = some (f, false)
start_in closed f = some (f, false)
start_in stopped f = request starting f

unfoldable pub start : Frontend → Option (Frontend × Bool)
unfolding start_in
start f = start_in f.state f

stop_in : State → Frontend → Option (Frontend × Bool)
unfolding request
stop_in stopped f = some (f, true)
stop_in stopping f = some (f, true)
stop_in starting f = some (f, false)
stop_in closed f = some (f, false)
stop_in running f = request stopping f

unfoldable pub stop : Frontend → Option (Frontend × Bool)
unfolding stop_in
stop f = stop_in f.state f

-- The part of Close under the lock, and the cancellation of the context behind it, which a parent
-- of the context makes too.
pub close_locked : Frontend → Frontend
close_locked f = record f { state = closed }

unfoldable pub cancel : Frontend → Frontend
cancel f = record f { cancelled = true }

unfoldable pub close : Frontend → Frontend
unfolding close_locked cancel
close f = if is_closed f.state then f else cancel (close_locked f)
