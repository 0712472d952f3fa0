-- ===== src/Daemon/Apply.antt =====
-- applyConfig of cmd/proxygw/main.go.
pub mod Targets
pub mod Frontends
pub mod Outcome
use proxygw.Prelude.{List, Option, Text, [], inl, inr, none, some, ℕ, ◌∷◌}
use proxygw.Config.Document.{Config}
use proxygw.Config.Document
use proxygw.Connft.Nft.{Nft}
use proxygw.Frontend
use proxygw.Engine.{Engine, Err, write, new_target, new_frontend}

-- What code outside the engine answers to the calls: the constructors of the handlers, with an error
-- or none for a handler, Close of a handler that is thrown away, and the clock.
pub record Answers (TC FC : Type 0) : Type 0 where
  pub build_target : Document.Target → TC → Option Text
  pub close_target : Document.Target → Option Text
  pub now : Document.Target → ℕ
  pub build_frontend : Document.Frontend → FC → Option Text
  pub close_frontend : Document.Frontend → Option Text

-- A slice that is nil has no elements.
abbrev pub elements : {A : Type 0} → Option (List A) → List A
elements none = []
elements (some xs) = xs

module _ {Conn TC FC : Type 0} where
  -- `frontend.Start()`; a frontend that is new has room for the request.
  unfoldable pub start_frontend : ℕ → Engine Conn TC FC → Engine Conn TC FC
  start_frontend i e = elim (Frontend.start (e.frontend_at i)) [
    | none ↦ e
    | some (f, accepted) ↦ record e { frontend_at = write e.frontend_at i f }
  ]

module _ (nft : Nft) {TC FC : Type 0} (answers : Answers TC FC) where
  open nft use {Conn}

  unfoldable pub make_targets :
      List Document.Target → Engine Conn TC FC → Engine Conn TC FC × Option Err
  make_targets [] e = (e, none)
  make_targets (cfg ∷ cfgs) e =
      let (e₁, made) =
        new_target nft e cfg (answers.build_target cfg) (answers.close_target cfg)
          (answers.now cfg) in
      elim made [ inr x ↦ (e₁, some x) | inl i ↦ make_targets cfgs e₁ ]

  -- A frontend that cannot be made is logged and left out.
  unfoldable pub make_frontends : List Document.Frontend → Engine Conn TC FC → Engine Conn TC FC
  make_frontends [] e = e
  make_frontends (cfg ∷ cfgs) e =
      let (e₁, made) =
        new_frontend nft e cfg (answers.build_frontend cfg) (answers.close_frontend cfg) in
      make_frontends cfgs (elim made [ inr x ↦ e₁ | inl i ↦ start_frontend i e₁ ])

  unfoldable pub apply_config : Config → Engine Conn TC FC → Engine Conn TC FC × Option Err
  apply_config cfg e =
      let (e₁, err) = make_targets (elements cfg.targets) e in
      elim err [ some x ↦ (e₁, some x) | none ↦ (make_frontends (elements cfg.frontends) e₁, none) ]
