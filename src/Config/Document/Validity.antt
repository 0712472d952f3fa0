-- ===== src/Config/Document/Validity.antt =====
-- What a document that passes `Validate` of pkg/config/config.go looks like.
use proxygw.Prelude.{
  All, All-In, Bool-cases, In, In-any, List, Option, Text, [], any, any_witness, arith, bool_eq,
  eq_iff, false, inl, inr, is_empty_iff, nat_eq, none, refl, some, text_beq_iff, text_eq, true, ℕ,
  ◌++◌, ◌+◌, ◌==◌, ◌↔◌, ◌∷◌, ◌≡◌, ◌≢◌, ◌⊎◌,
}
use proxygw.Netip.{Addr, invalid, is_addr, zone}
use proxygw.Config.Protocol.{is_valid_iff, tcp, udp}
use proxygw.Config.Namespace.{NamespaceReference}
use proxygw.Config.Document.{
  Target, TargetEndpoint, Frontend, Config, version_v1, Error, check_each, is_nil, check_endpoint,
  check_target, has_target_endpoint, check_frontend, check_lists, validate,
}

module _ {A : Type 0} (name : A → Text) where
  -- No element of `before` has the name of `x`.
  abbrev Apart : List A → A → Type 0
  Apart [] x = Unit
  Apart (y ∷ before) x = (name y ≢ name x) × Apart before x

  abbrev pub Distinct : List A → Type 0
  Distinct [] = Unit
  Distinct (x ∷ xs) = All (λ y. name x ≢ name y) xs × Distinct xs

  Apart-iff :
      (before : List A) (x : A) → (any (λ y. name y == name x) before ≡ false) ↔ Apart before x
  Apart-iff [] x = ((λ h. tt), (λ h. refl))
  Apart-iff (y ∷ before) x = ground (arith, eq_iff (name y) (name x), Apart-iff before x)

  All-Apart-nil : (xs : List A) → All (Apart []) xs
  All-Apart-nil [] = tt
  All-Apart-nil (x ∷ xs) = (tt, All-Apart-nil xs)

  Apart-append :
      (before : List A) (x y : A)
      → Apart (before ++ x ∷ []) y ↔ (Apart before y × (name x ≢ name y))
  Apart-append [] x y = ground arith
  Apart-append (z ∷ before) x y = ground (arith, Apart-append before x y)

  All-Apart-append :
      (before : List A) (x : A) (xs : List A)
      → All (Apart (before ++ x ∷ [])) xs ↔ (All (Apart before) xs × All (λ y. name x ≢ name y) xs)
  All-Apart-append before x [] = ground arith
  All-Apart-append before x (y ∷ xs) =
      ground (arith, Apart-append before x y, All-Apart-append before x xs)

  module _ (Fits : A → Type 0) (round : ℕ → List A → A → Option Error)
      (round_iff : (i : ℕ) (before : List A) (x : A)
        → (round i before x ≡ none) ↔ (Apart before x × Fits x)) where
    check_each_iff :
        (i : ℕ) (before xs : List A)
        → (check_each round i before xs ≡ none)
          ↔ (All (Apart before) xs × Distinct xs × All Fits xs)
    unfolding check_each
    check_each_iff i before [] = ground arith
    check_each_iff i before (x ∷ xs) = ground (
      arith,
      round_iff i before x,
      All-Apart-append before x xs,
      check_each_iff (i + 1) (before ++ x ∷ []) xs,
    )

    -- The whole loop.
    check-All_iff : (xs : List A) → (check_each round 0 [] xs ≡ none) ↔ (Distinct xs × All Fits xs)
    check-All_iff xs = ground (arith, check_each_iff 0 [] xs, All-Apart-nil xs)

is_nil_iff : {A : Type 0} (xs : List A) → (is_nil xs ≡ false) ↔ (xs ≢ [])
is_nil_iff [] = ((λ h. cc), (λ h. absurd (h refl)))
is_nil_iff (x ∷ xs) = ((λ h e. cc), (λ h. refl))

is_addr_iff : (a : Addr) → (is_addr a ≡ true) ↔ (a ≢ invalid)
is_addr_iff a = ground arith

pub record EndpointFits (x : TargetEndpoint) : Type 0 where
  pub named : x.name ≢ []
  pub protocol_known : (x.protocol ≡ tcp) ⊎ (x.protocol ≡ udp)
  pub addressed : x.address.addr ≢ invalid
  pub no_zone : zone x.address.addr ≡ []

pub record TargetFits (x : Target) : Type 0 where
  pub named : x.name ≢ []
  pub kind_namespace : x.kind.namespace ≢ []
  pub kind_name : x.kind.name ≢ []
  pub idle_timeout_set : x.idle_timeout ≢ 0
  pub has_endpoint : x.endpoints ≢ []
  pub endpoints_distinct : Distinct (λ e. e.name) x.endpoints
  pub endpoints_fit : All EndpointFits x.endpoints

-- The reference names an endpoint of a target of the document.
abbrev pub Resolves : List Target → NamespaceReference → Type 0
Resolves targets r =
    (t : Target) × (e : TargetEndpoint) × In t targets
    × (t.name ≡ r.namespace)
    × In e t.endpoints
    × (e.name ≡ r.name)

pub record FrontendFits (targets : List Target) (x : Frontend) : Type 0 where
  pub named : x.name ≢ []
  pub kind_namespace : x.kind.namespace ≢ []
  pub kind_name : x.kind.name ≢ []
  pub protocol_known : (x.protocol ≡ tcp) ⊎ (x.protocol ≡ udp)
  pub addressed : x.listen.addr ≢ invalid
  pub flow_timeout_set : x.flow_timeout ≢ 0
  pub endpoint_target : x.endpoint.namespace ≢ []
  pub endpoint_name : x.endpoint.name ≢ []
  pub resolves : Resolves targets x.endpoint

check_endpoint_iff :
    (target : Text) (j : ℕ) (before : List TargetEndpoint) (x : TargetEndpoint)
    → (check_endpoint target j before x ≡ none) ↔ (Apart (λ e. e.name) before x × EndpointFits x)
unfolding check_endpoint
check_endpoint_iff target j before x = ground (
  arith,
  is_empty_iff x.name,
  Apart-iff (λ e. e.name) before x,
  is_valid_iff x.protocol,
  is_addr_iff x.address.addr,
  is_empty_iff (zone x.address.addr),
)

check_target_iff :
    (i : ℕ) (before : List Target) (x : Target)
    → (check_target i before x ≡ none) ↔ (Apart (λ t. t.name) before x × TargetFits x)
unfolding check_target
check_target_iff i before x = ground (
  arith,
  is_empty_iff x.name,
  Apart-iff (λ t. t.name) before x,
  is_nil_iff x.endpoints,
  is_empty_iff x.kind.namespace,
  is_empty_iff x.kind.name,
  check-All_iff (λ e. e.name) EndpointFits (check_endpoint x.name) (check_endpoint_iff x.name)
      x.endpoints,
)

has_target_endpoint_sound :
    (targets : List Target) (r : NamespaceReference)
    → has_target_endpoint targets r.namespace r.name ≡ true
    → Resolves targets r
unfolding has_target_endpoint
has_target_endpoint_sound [] r h = cc
has_target_endpoint_sound (t ∷ ts) r h = elim (Bool-cases (t.name == r.namespace)) [
  | inl q ↦
      let (e, m, k) = any_witness (λ e. e.name == r.name) t.endpoints (ground arith) in
      (t, e, inl refl, (text_beq_iff _ _).0 q, m, (text_beq_iff _ _).0 k)
  | inr q ↦
      let (u, e, m, n, k, l) = has_target_endpoint_sound ts r (ground arith) in
      (u, e, inr m, n, k, l)
]

has_target_endpoint_complete :
    (targets : List Target) (r : NamespaceReference) (t : Target) (e : TargetEndpoint)
    → Distinct (λ x. x.name) targets
    → In t targets
    → t.name ≡ r.namespace
    → In e t.endpoints
    → e.name ≡ r.name
    → has_target_endpoint targets r.namespace r.name ≡ true
unfolding has_target_endpoint
has_target_endpoint_complete [] r t e d m n k l = absurd m
has_target_endpoint_complete (x ∷ xs) r t e d (inl q) n k l = ground (
  arith,
  text_beq_iff x.name r.namespace,
  text_beq_iff e.name r.name,
  In-any (λ e. e.name == r.name) t.endpoints e,
)
has_target_endpoint_complete (x ∷ xs) r t e d (inr m) n k l = ground (
  arith,
  text_beq_iff x.name r.namespace,
  All-In (λ y. x.name ≢ y.name) xs t d.0 m,
  has_target_endpoint_complete xs r t e d.1 m,
)

has_target_endpoint_iff :
    (targets : List Target) (r : NamespaceReference)
    → Distinct (λ t. t.name) targets
    → (has_target_endpoint targets r.namespace r.name ≡ true) ↔ Resolves targets r
has_target_endpoint_iff targets r d = (
  has_target_endpoint_sound targets r,
  λ (t, e, m, n, k, l). has_target_endpoint_complete targets r t e d m n k l,
)

check_frontend_iff :
    (targets : List Target) (i : ℕ) (before : List Frontend) (x : Frontend)
    → Distinct (λ t. t.name) targets
    → (check_frontend targets i before x ≡ none)
      ↔ (Apart (λ f. f.name) before x × FrontendFits targets x)
unfolding check_frontend
check_frontend_iff targets i before x d = ground (
  arith,
  is_empty_iff x.name,
  Apart-iff (λ f. f.name) before x,
  is_empty_iff x.kind.namespace,
  is_empty_iff x.kind.name,
  is_valid_iff x.protocol,
  is_addr_iff x.listen.addr,
  is_empty_iff x.endpoint.namespace,
  is_empty_iff x.endpoint.name,
  has_target_endpoint_iff targets x.endpoint d,
)

-- All three lists are given; the names in each are distinct, and every entry fits.
pub record ListsFit (targets : List Target) (frontends : List Frontend) : Type 0 where
  pub targets_distinct : Distinct (λ t. t.name) targets
  pub targets_fit : All TargetFits targets
  pub frontends_distinct : Distinct (λ f. f.name) frontends
  pub frontends_fit : All (FrontendFits targets) frontends

abbrev pub Listed : Option (List Text) → Option (List Target) → Option (List Frontend) → Type 0
Listed (some plugins) (some targets) (some frontends) = ListsFit targets frontends
Listed _ _ _ = ⊥

check_lists_iff :
    (plugins : Option (List Text)) (targets : Option (List Target))
    (frontends : Option (List Frontend))
    → (check_lists plugins targets frontends ≡ none) ↔ Listed plugins targets frontends
unfolding check_lists
check_lists_iff none targets frontends = ground arith
check_lists_iff (some ps) none frontends = ground arith
check_lists_iff (some ps) (some ts) none = ground arith
check_lists_iff (some ps) (some ts) (some fs) =
    let t = check-All_iff (λ t. t.name) TargetFits check_target check_target_iff ts in
    let f = λ (d : Distinct (λ t. t.name) ts).
      check-All_iff (λ f. f.name) (FrontendFits ts) (check_frontend ts)
        (λ i before x. check_frontend_iff ts i before x d) fs in
    ground (arith, t, f)

pub record IsUsable (c : Config) : Type 0 where
  pub version_known : c.version ≡ version_v1
  pub log_output_set : c.log.output ≢ []
  pub listed : Listed c.plugins c.targets c.frontends

-- Validate accepts a document exactly when its version is v1, its log output is set, the three
-- lists are given, the names of the targets are distinct and not empty, so are those of the frontends
-- (the plugins' names are not looked at), and every target and frontend fits: known protocols, addresses, timeouts that are not zero, and for a frontend an
-- endpoint that its target has.
pub validate_iff : (c : Config) → (validate (some c) ≡ none) ↔ IsUsable c
unfolding validate
validate_iff c = ground (
  arith,
  is_empty_iff c.version,
  is_empty_iff c.log.output,
  text_beq_iff c.version version_v1,
  check_lists_iff c.plugins c.targets c.frontends,
)
