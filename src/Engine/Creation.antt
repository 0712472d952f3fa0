-- ===== src/Engine/Creation.antt =====
-- NewTarget and NewFrontend of pkg/engine/engine.go preserve what holds of an engine.
use proxygw.Prelude.{
  Option, Option-cases, Text, arith, bool_eq, inl, inr, lookup, nat_eq, some, subst, sym, text_eq,
  ℕ, ◌≡◌, ◌⊎◌,
}
use proxygw.Config.Document
use proxygw.Connft.Nft.{Nft}
use proxygw.Connft.State.{new_connft_group}
use proxygw.Target.{Target}
use proxygw.Target as Targets
use proxygw.Frontend.{made, new}
use proxygw.Target.Endpoints.{Endpoint}
use proxygw.Engine.{Engine, register_target, register_frontend, new_target, new_frontend}
use proxygw.Engine.Registry.{new_cases}
use proxygw.Engine.Invariant.{Inv, dplane-Inv, register_target-Inv, register_frontend-Inv}

-- What NewTarget and NewFrontend leave: the engine but for its dataplane, or one object more.
module _ (nft : Nft) {TC FC : Type 0} where
  open nft use {Conn}

  pub new_target_cases :
      (e : Engine Conn TC FC) (cfg : Document.Target) (build : TC → Option Text)
      (answer : Option Text) (now : ℕ)
      → let u = (new_target nft e cfg build answer now).0 in
        (u ≡ record e { dplane = u.dplane })
        ⊎ ((t : Target) × (Targets.new e.dplane.next cfg ≡ inl t)
            × (u ≡ register_target (record e { dplane = u.dplane }) now t))
  unfolding new_target new_connft_group
  new_target_cases e cfg build answer now = elim (new_cases e.dplane.next cfg) [
    | inl (t, h, _, _, _) ↦ elim (the_target t h) [ inl k ↦ inl k | inr k ↦ inr (t, h, k) ]
    | inr (bad, h) ↦ inl (ground arith)
  ]
    where
      the_target :
          (t : Target)
          → Targets.new e.dplane.next cfg ≡ inl t
          → let u = (new_target nft e cfg build answer now).0 in
            (u ≡ record e { dplane = u.dplane })
            ⊎ (u ≡ register_target (record e { dplane = u.dplane }) now t)
      the_target t h = ground arith

  pub new_target-Inv :
      (e : Engine Conn TC FC) (cfg : Document.Target) (build : TC → Option Text)
      (answer : Option Text) (now : ℕ)
      → Inv e
      → Inv (new_target nft e cfg build answer now).0
  new_target-Inv e cfg build answer now v =
      let u = (new_target nft e cfg build answer now).0 in
      elim (new_target_cases e cfg build answer now) [
        | inl h ↦ subst Inv (sym h) (dplane-Inv e u.dplane v)
        | inr (t, k, h) ↦ subst Inv (sym h) (
            register_target-Inv (record e { dplane = u.dplane }) now e.dplane.next cfg t
              (dplane-Inv e u.dplane v) k)
      ]

  pub new_frontend_cases :
      (e : Engine Conn TC FC) (cfg : Document.Frontend) (build : FC → Option Text)
      (answer : Option Text)
      → let u = (new_frontend nft e cfg build answer).0 in
        (u ≡ record e { dplane = u.dplane })
        ⊎ ((i : ℕ) × (endpoint : Endpoint) × (lookup cfg.endpoint.namespace e.targets ≡ some i)
            × (u ≡ register_frontend (record e { dplane = u.dplane }) (made i endpoint cfg)))
  unfolding new_frontend new
  new_frontend_cases e cfg build answer =
      elim (Option-cases (lookup cfg.endpoint.namespace e.targets)) [
        | inl z ↦ inl (ground arith)
        | inr (i, k) ↦ elim (Option-cases (Targets.endpoint (e.target_at i) cfg.endpoint.name)) [
          | inl z ↦ inl (ground arith)
          | inr (endpoint, l) ↦ elim (the_frontend i endpoint k l) [
            | inl h ↦ inl h
            | inr h ↦ inr (i, endpoint, k, h)
          ]
        ]
      ]
    where
      the_frontend :
          (i : ℕ) (endpoint : Endpoint)
          → lookup cfg.endpoint.namespace e.targets ≡ some i
          → Targets.endpoint (e.target_at i) cfg.endpoint.name ≡ some endpoint
          → let u = (new_frontend nft e cfg build answer).0 in
            (u ≡ record e { dplane = u.dplane })
            ⊎ (u ≡ register_frontend (record e { dplane = u.dplane }) (made i endpoint cfg))
      the_frontend i endpoint k l = ground arith

  pub new_frontend-Inv :
      (e : Engine Conn TC FC) (cfg : Document.Frontend) (build : FC → Option Text)
      (answer : Option Text)
      → Inv e
      → Inv (new_frontend nft e cfg build answer).0
  new_frontend-Inv e cfg build answer v =
      let u = (new_frontend nft e cfg build answer).0 in
      elim (new_frontend_cases e cfg build answer) [
        | inl h ↦ subst Inv (sym h) (dplane-Inv e u.dplane v)
        | inr (i, endpoint, k, h) ↦ subst Inv (sym h) (
            register_frontend-Inv (record e { dplane = u.dplane }) i endpoint cfg
              (dplane-Inv e u.dplane v) (v.targets cfg.endpoint.namespace i k).0)
      ]
