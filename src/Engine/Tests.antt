-- ===== src/Engine/Tests.antt =====
-- An engine of pkg/engine/engine.go with one kind of handlers, one target and one frontend.
use proxygw.Prelude.{
  Option, Text, [], arith, bool_eq, codes, false, inl, inr, insert, lookup, nat_eq, none, refl,
  some, text_eq, ℕ, ◌∷◌, ◌≡◌, ◌≤◌, ◌⊎◌,
}
use proxygw.Netip.{v4, is_unspecified, addr_beq}
use proxygw.Config.Document
use proxygw.Config.Namespace
use proxygw.Config.Protocol.{is_valid, to_string}
use proxygw.Config.Tests.{web_target, web_frontend}
use proxygw.Dataplane.Mapping.{validate, source_port}
use proxygw.Connft.State.{new_group, new_connft_group, check_conflicts, all_mappings, err_invalid}
use proxygw.Connft.Group.{close_unlocked, clear_unlocked, del_unlocked, add_mappings, add_unlocked}
use proxygw.Connft.Group.Disjoint.History.{fresh_connft}
use proxygw.Connft.Group.Tests.{quiet_nft}
use proxygw.Target.{Target, inactive}
use proxygw.Target as Targets
use proxygw.Target.Endpoints.{Endpoint}
use proxygw.Target.Endpoints
use proxygw.Frontend.{Frontend, made, mapping_of}
use proxygw.Frontend
use proxygw.Engine.{
  Engine, err_target, err_frontend, get_target, new_target, new_frontend, create_target,
  create_frontend, ctor_of, register_target, add_target_kind, add_frontend_kind,
}
use proxygw.Engine.Registry.{
  call, target_kind_add, frontend_kind_add, target_new, frontend_new, new_target-get_target,
}
use proxygw.Engine.Failure.{new_frontend_atomic, new_target_failure}
use proxygw.Engine.Invariant.{Inv}
use proxygw.Engine.Poll.{detect_timeouts}
use proxygw.Config.Ttl.{ttl_max}
use proxygw.Engine.Judgement.{Judged}
use proxygw.Engine.History.{Reach, fresh_engine, start, calls, engine_coherent, timeouts_drain}

abbrev blank_target : Target
blank_target = record {
  name = [];
  kind = [];
  timeout = 0;
  group = 0;
  endpoints = [];
  requests = [];
  cancelled = false;
  err = none;
  state = inactive;
  loop = Targets.waiting;
}

abbrev http : Endpoint
http = record {
  name = codes "http";
  address = record { addr = v4 (10 ∷ 0 ∷ 0 ∷ 2 ∷ []); port = 8080 };
  protocol = 6;
}

abbrev pub E : Type 0
E = Engine ℕ ℕ ℕ

abbrev empty : E
empty =
    fresh_engine (fresh_connft (λ i. new_group []) 0) (λ i. blank_target)
      (λ i. made 0 http web_frontend)

-- The constructors' answer: a handler.
abbrev pub built : ℕ → Option Text
built k = none

abbrev pub with_kinds : E
with_kinds =
    (call quiet_nft (frontend_kind_add (codes "s:cmd") (some 1))
      (call quiet_nft (target_kind_add (codes "s:cmd") (some 1)) empty).0).0

abbrev pub with_target : E
with_target = (call quiet_nft (target_new web_target built none 1000) with_kinds).0

abbrev with_frontend : E
with_frontend = (call quiet_nft (frontend_new web_frontend built none) with_target).0

with_kinds-Reach : Reach quiet_nft with_kinds
with_kinds-Reach = calls (frontend_kind_add (codes "s:cmd") (some 1)) (
    calls (target_kind_add (codes "s:cmd") (some 1)) (
      start (fresh_connft (λ i. new_group []) 0) (λ i. blank_target)
        (λ i. made 0 http web_frontend)))

pub with_target-Reach : Reach quiet_nft with_target
with_target-Reach = calls (target_new web_target built none 1000) with_kinds-Reach

with_frontend-Reach : Reach quiet_nft with_frontend
with_frontend-Reach = calls (frontend_new web_frontend built none) with_target-Reach

engine_coherent_example : Inv with_frontend
engine_coherent_example = engine_coherent quiet_nft with_frontend-Reach

web_there : lookup (codes "web") with_target.targets ≡ some 0
unfolding new_target create_target ctor_of register_target add_target_kind add_frontend_kind
    new_connft_group new_group Targets.new lookup insert Namespace.to_string Endpoints.is_valid
    is_unspecified addr_beq
web_there = refl

web_timeout : (with_target.target_at 0).timeout ≤ ttl_max
unfolding new_target create_target ctor_of register_target add_target_kind add_frontend_kind
    new_connft_group new_group Targets.new lookup insert Namespace.to_string Endpoints.is_valid
    is_unspecified addr_beq
web_timeout = omega arith

-- 1000 seconds behind the time at which it was made.
timeouts_drain_example :
    (u : E) × (detect_timeouts (0 ∷ []) 1000000001000 with_target ≡ some u)
    × (u ≡ record with_target { target_at = u.target_at; last_seen = u.last_seen })
    × (seen : ℕ) × (lookup (codes "web") with_target.last_seen ≡ some seen)
    × Judged
        (0 ∷ [])
        1000000001000
        seen
        (with_target.target_at 0)
        (u.target_at 0)
        (lookup (codes "web") u.last_seen)
timeouts_drain_example =
    timeouts_drain quiet_nft (0 ∷ []) 1000000001000 (codes "web") 0 with_target-Reach web_there
      web_timeout

made_target : new_target quiet_nft with_kinds web_target built none 1000 ≡ (with_target, inl 0)
unfolding new_target create_target ctor_of register_target add_target_kind add_frontend_kind
    new_connft_group new_group Targets.new lookup insert Namespace.to_string Endpoints.is_valid
    is_unspecified addr_beq
made_target = refl

new_target-get_target_example :
    (with_kinds.closed ≡ false)
    × (get_target with_kinds web_target.name ≡ none)
    × (get_target with_target web_target.name ≡ some 0)
    × ((with_target.target_at 0).name ≡ web_target.name)
    × ((with_target.target_at 0).state ≡ Targets.inactive)
    × ((codes "api" ≡ web_target.name)
        ⊎ (get_target with_target (codes "api") ≡ get_target with_kinds (codes "api")))
new_target-get_target_example =
    new_target-get_target quiet_nft with_kinds with_target web_target built none 1000 0 made_target
      (codes "api")

with_target_open : with_target.closed ≡ false
unfolding new_target create_target ctor_of register_target add_target_kind add_frontend_kind
    new_connft_group new_group Targets.new lookup insert Namespace.to_string Endpoints.is_valid
    is_unspecified addr_beq
with_target_open = refl

-- A frontend without a port, which the dataplane refuses.
abbrev portless : Document.Frontend
portless = record web_frontend { listen = record { addr = v4 (10 ∷ 0 ∷ 0 ∷ 1 ∷ []); port = 0 } }

abbrev refused : E
refused = (new_frontend quiet_nft with_target portless built none).0

portless_fails :
    new_frontend quiet_nft with_target portless built none
    ≡ (refused, inr (err_frontend (err_invalid source_port) none))
unfolding new_target create_target ctor_of register_target add_target_kind add_frontend_kind
    new_connft_group new_group Targets.new lookup insert Namespace.to_string Endpoints.is_valid
    is_unspecified addr_beq to_string is_valid validate Frontend.new mapping_of add_mappings
    add_unlocked check_conflicts all_mappings new_frontend create_frontend Targets.endpoint
portless_fails = refl

new_frontend_atomic_example :
    refused
    ≡ record with_target { dplane = record with_target.dplane { conn = refused.dplane.conn } }
new_frontend_atomic_example =
    new_frontend_atomic quiet_nft with_target refused portless built none
      (err_frontend (err_invalid source_port) none) portless_fails

-- A target with an endpoint that has no name.
abbrev nameless : Document.Target
nameless = record web_target {
  endpoints = record { name = []; protocol = 6; address = http.address } ∷ [];
}

abbrev unmade : E
unmade = (new_target quiet_nft with_kinds nameless built none 1000).0

nameless_fails :
    new_target quiet_nft with_kinds nameless built none 1000
    ≡ (unmade, inr (err_target (record http { name = [] }) none none))
unfolding new_target create_target ctor_of register_target add_target_kind add_frontend_kind
    new_connft_group new_group Targets.new lookup insert Namespace.to_string Endpoints.is_valid
    is_unspecified addr_beq close_unlocked clear_unlocked del_unlocked
nameless_fails = refl

new_target_failure_example :
    (unmade ≡ record with_kinds { dplane = unmade.dplane })
    × (lookup (codes "web") unmade.dplane.groups ≡ lookup (codes "web") with_kinds.dplane.groups)
new_target_failure_example =
    new_target_failure quiet_nft with_kinds unmade nameless built none 1000
      (err_target (record http { name = [] }) none none) (codes "web") nameless_fails
