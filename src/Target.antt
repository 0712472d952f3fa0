-- ===== src/Target.antt =====
-- pkg/target: endpoints, and the target with its locked operations and its event loop. Every
-- section of the code under the target's lock is one function; what the handler and the group answer
-- is an argument.
pub mod Endpoints
pub mod Loop
use proxygw.Prelude.{
  Bool, Dict, List, Option, Text, [], bool_eq, codes, delete, false, if◌then◌else◌, inl, inr,
  insert, lookup, nat_eq, none, not, some, text_eq, true, values, ℕ, ◌∷◌, ◌⊎◌,
}
use proxygw.Config.Ttl.{Ttl}
use proxygw.Config.Document
use proxygw.Config.Namespace
use Endpoints.{Endpoint, is_valid, overlaps}

pub data State : Type 0 where
  inactive active warming draining closed : State

unfoldable pub to_string : State → Text
to_string inactive = codes "inactive"
to_string active = codes "active"
to_string warming = codes "warming"
to_string draining = codes "draining"
to_string closed = codes "closed"

-- What `err` holds: the handler's error, or that of the group behind a handler that succeeded, or
-- the two errors of the end, joined.
pub data Fault : Type 0 where
  handler_failed enable_failed disable_failed : Text → Fault
  close_failed : Option Text → Option Text → Fault

-- Where the event loop stands: in its select, behind the receipt of a request, in the handler for
-- it, behind the receipt of the cancellation, in the handler's Close, or behind its end.
pub data Phase : Type 0 where
  waiting : Phase
  received handling : State → Phase
  ending closing ended : Phase

pub record Target : Type 0 where
  pub name : Text
  pub kind : Text
  pub timeout : Ttl
  pub group : ℕ
  pub endpoints : Dict Text Endpoint
  pub requests : List State  -- a channel of capacity 1
  pub cancelled : Bool
  pub err : Option Fault
  pub state : State
  pub loop : Phase

-- The loop of New over the configured endpoints; a repeated name is overwritten.
collect : List Document.TargetEndpoint → Dict Text Endpoint → Dict Text Endpoint ⊎ Endpoint
collect [] endpoints = inl endpoints
collect (cfg ∷ rest) endpoints =
    let next : Endpoint = record {
      name = cfg.name;
      address = cfg.address;
      protocol = cfg.protocol;
    } in
    let more = collect rest (insert next.name next endpoints) in
    if not (is_valid next) then inr next else more

-- The second answer is the endpoint that is not valid.
unfoldable pub new : ℕ → Document.Target → Target ⊎ Endpoint
unfolding collect
new group cfg = elim (collect cfg.endpoints []) [
  | inr bad ↦ inr bad
  | inl endpoints ↦ inl (record {
    name = cfg.name;
    kind = Namespace.to_string cfg.kind;
    timeout = cfg.idle_timeout;
    group = group;
    endpoints = endpoints;
    requests = [];
    cancelled = false;
    err = none;
    state = inactive;
    loop = waiting;
  })
]

pub set_timeout : Target → Ttl → Target
set_timeout t timeout = record t { timeout = timeout }

-- Endpoint and Endpoints.
unfoldable pub endpoint : Target → Text → Option Endpoint
endpoint t name = lookup name t.endpoints

unfoldable pub endpoints : Target → List Endpoint
endpoints t = values t.endpoints

pub data EndpointErr : Type 0 where
  err_closed : EndpointErr
  err_overlaps : Endpoint → EndpointErr

abbrev pub is_closed : State → Bool
is_closed closed = true
is_closed _ = false

first_overlap : Endpoint → List Endpoint → Option Endpoint
first_overlap endpoint [] = none
first_overlap endpoint (ep ∷ eps) =
    let rest = first_overlap endpoint eps in if overlaps endpoint ep then some ep else rest

pub add_endpoint : Target → Endpoint → Target × Option EndpointErr
add_endpoint t endpoint =
    if is_closed t.state
    then (t, some err_closed)
    else elim (first_overlap endpoint (values t.endpoints)) [
      | some ep ↦ (t, some (err_overlaps ep))
      | none ↦ (record t { endpoints = insert endpoint.name endpoint t.endpoints }, none)
    ]

pub remove_endpoint : Target → Text → Target × Option EndpointErr
remove_endpoint t name =
    if is_closed t.state then (t, some err_closed) else elim (lookup name t.endpoints) [
      | none ↦ (t, none)
      | some ep ↦ (record t { endpoints = delete name t.endpoints }, none)
    ]

-- `t.requests <- next` with the lock held; `none` where the channel is full and the send blocks.
send : State → Target → Option Target
send next t = elim t.requests [ [] ↦ some (record t { requests = next ∷ [] }) | r ∷ rs ↦ none ]

request : State → Target → Option (Target × Bool)
unfolding send
request next t = elim (send next (record t { err = none; state = next })) [
  | none ↦ none
  | some t' ↦ some (t', true)
]

warm_in : State → Target → Option (Target × Bool)
unfolding request
warm_in active t = some (t, true)
warm_in warming t = some (t, true)
warm_in draining t = some (t, false)
warm_in closed t = some (t, false)
warm_in inactive t = request warming t

unfoldable pub warm : Target → Option (Target × Bool)
unfolding warm_in
warm t = warm_in t.state t

drain_in : State → Target → Option (Target × Bool)
unfolding request
drain_in inactive t = some (t, true)
drain_in draining t = some (t, true)
drain_in warming t = some (t, false)
drain_in closed t = some (t, false)
drain_in active t = request draining t

unfoldable pub drain : Target → Option (Target × Bool)
unfolding drain_in
drain t = drain_in t.state t

-- The part of Close under the lock, and the cancellation of the context behind it, which a parent
-- of the context makes too.
pub close_locked : Target → Target
close_locked t = record t { state = closed }

unfoldable pub cancel : Target → Target
cancel t = record t { cancelled = true }

unfoldable pub close : Target → Target
unfolding close_locked cancel
close t = if is_closed t.state then t else cancel (close_locked t)
