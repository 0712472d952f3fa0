-- ===== src/Config/Document.antt =====
-- pkg/config/config.go, target.go and frontend.go: the configuration document and its checks.
-- A field that Go may leave nil is an Option; the options of a handler, which no check reads, are
-- left out. An error keeps what its message names, and not the message.
pub mod Validity
use proxygw.Prelude.{
  Bool, List, Option, Text, [], any, bool_eq, codes, false, if◌then◌else◌, is_empty, nat_eq, none,
  not, some, text_eq, true, ℕ, ◌++◌, ◌+◌, ◌==◌, ◌∷◌,
}
use proxygw.Netip.{AddrPort, is_addr, zone}
use proxygw.Config.Protocol.{Protocol}
use proxygw.Config.Protocol
use proxygw.Config.Ttl.{Ttl}
use proxygw.Config.Namespace.{NamespaceReference}

pub record TargetEndpoint : Type 0 where
  pub name : Text
  pub protocol : Protocol
  pub address : AddrPort

pub record Target : Type 0 where
  pub name : Text
  pub kind : NamespaceReference
  pub idle_timeout : Ttl
  pub endpoints : List TargetEndpoint

pub record Frontend : Type 0 where
  pub name : Text
  pub kind : NamespaceReference
  pub protocol : Protocol
  pub listen : AddrPort
  pub flow_timeout : Ttl
  pub endpoint : NamespaceReference

pub record Log : Type 0 where
  pub output : Text
  pub level : ℕ

pub record Config : Type 0 where
  pub version : Text
  pub log : Log
  pub plugins : Option (List Text)
  pub targets : Option (List Target)
  pub frontends : Option (List Frontend)

abbrev pub version_v1 : Text
version_v1 = codes "v1"

pub data Error : Type 0 where
  config_required version_required log_output_required : Error
  plugins_required targets_required frontends_required : Error
  unsupported_version : Text → Error
  target_name_required : ℕ → Error
  target_redefined : ℕ → Text → Error
  target_kind_namespace target_kind_name target_idle_timeout target_endpoints : Text → Error
  endpoint_name_required : Text → ℕ → Error
  endpoint_redefined : Text → ℕ → Text → Error
  endpoint_protocol endpoint_address endpoint_zone : Text → ℕ → Error
  frontend_name_required : ℕ → Error
  frontend_redefined : ℕ → Text → Error
  frontend_kind_namespace frontend_kind_name frontend_protocol frontend_listen : Text → Error
  frontend_flow_timeout frontend_target_name frontend_endpoint_name : Text → Error
  frontend_target : Text → NamespaceReference → Error

-- `if b { return e }` in a function that returns an error; `none` is nil.
infixr 2 ◌orelse◌
abbrev ◌orelse◌ : Option Error → Option Error → Option Error
none orelse rest = rest
some e orelse rest = some e

abbrev fail_if : Bool → Error → Option Error
fail_if true e = some e
fail_if false e = none

-- `for i, x := range xs` around a round that may return an error; a round sees its index and the
-- elements of a smaller one.
module _ {A : Type 0} (round : ℕ → List A → A → Option Error) where
  check_each : ℕ → List A → List A → Option Error
  check_each i before [] = none
  check_each i before (x ∷ xs) =
      let rest = check_each (i + 1) (before ++ x ∷ []) xs in round i before x orelse rest

-- One round of the loop over a target's endpoints; `before` holds those of a smaller index.
check_endpoint : Text → ℕ → List TargetEndpoint → TargetEndpoint → Option Error
check_endpoint target j before endpoint =
    fail_if (is_empty endpoint.name) (endpoint_name_required target j)
    orelse fail_if (any (λ x. x.name == endpoint.name) before)
        (endpoint_redefined target j endpoint.name)
    orelse fail_if (not (Protocol.is_valid endpoint.protocol)) (endpoint_protocol target j)
    orelse fail_if (not (is_addr endpoint.address.addr)) (endpoint_address target j)
    orelse fail_if (not (is_empty (zone endpoint.address.addr))) (endpoint_zone target j)

abbrev is_nil {ℓ} : {A : Type ℓ} → List A → Bool
is_nil [] = true
is_nil (x ∷ xs) = false

-- One round of the loop over the targets.
check_target : ℕ → List Target → Target → Option Error
check_target i before target =
    fail_if (is_empty target.name) (target_name_required i)
    orelse fail_if (any (λ x. x.name == target.name) before) (target_redefined i target.name)
    orelse fail_if (is_empty target.kind.namespace) (target_kind_namespace target.name)
    orelse fail_if (is_empty target.kind.name) (target_kind_name target.name)
    orelse fail_if (target.idle_timeout == 0) (target_idle_timeout target.name)
    orelse fail_if (is_nil target.endpoints) (target_endpoints target.name)
    orelse check_each (check_endpoint target.name) 0 [] target.endpoints

-- Only the first target of the name is searched.
has_target_endpoint : List Target → Text → Text → Bool
has_target_endpoint [] target_name endpoint_name = false
has_target_endpoint (target ∷ targets) target_name endpoint_name =
    if not (target.name == target_name)
    then has_target_endpoint targets target_name endpoint_name
    else any (λ endpoint. endpoint.name == endpoint_name) target.endpoints

-- One round of the loop over the frontends.
check_frontend : List Target → ℕ → List Frontend → Frontend → Option Error
check_frontend targets i before frontend =
    fail_if (is_empty frontend.name) (frontend_name_required i)
    orelse fail_if (any (λ x. x.name == frontend.name) before) (frontend_redefined i frontend.name)
    orelse fail_if (is_empty frontend.kind.namespace) (frontend_kind_namespace frontend.name)
    orelse fail_if (is_empty frontend.kind.name) (frontend_kind_name frontend.name)
    orelse fail_if (not (Protocol.is_valid frontend.protocol)) (frontend_protocol frontend.name)
    orelse fail_if (not (is_addr frontend.listen.addr)) (frontend_listen frontend.name)
    orelse fail_if (frontend.flow_timeout == 0) (frontend_flow_timeout frontend.name)
    orelse fail_if (is_empty frontend.endpoint.namespace) (frontend_target_name frontend.name)
    orelse fail_if (is_empty frontend.endpoint.name) (frontend_endpoint_name frontend.name)
    orelse fail_if
        (not (has_target_endpoint targets frontend.endpoint.namespace frontend.endpoint.name))
        (frontend_target frontend.name frontend.endpoint)

check_lists : Option (List Text) → Option (List Target) → Option (List Frontend) → Option Error
check_lists none targets frontends = some plugins_required
check_lists (some plugins) none frontends = some targets_required
check_lists (some plugins) (some targets) none = some frontends_required
check_lists (some plugins) (some targets) (some frontends) =
    check_each check_target 0 [] targets orelse check_each (check_frontend targets) 0 [] frontends

pub validate : Option Config → Option Error
unfolding check_lists
validate none = some config_required
validate (some c) =
    fail_if (is_empty c.version) version_required
    orelse fail_if (not (c.version == version_v1)) (unsupported_version c.version)
    orelse fail_if (is_empty c.log.output) log_output_required
    orelse check_lists c.plugins c.targets c.frontends
