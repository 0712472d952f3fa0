-- ===== src/Engine.antt =====
-- pkg/engine/engine.go. Targets and frontends are objects that the engine shares with the callers:
-- they stand in stores under numbers, to which the engine's maps lead. Each function is one section
-- of the code under the engine's lock.
pub mod Registry
pub mod Failure
pub mod Invariant
pub mod Rounds
pub mod Judgement
pub mod Timeouts
pub mod Preserve
pub mod Creation
pub mod History
pub mod Tests
pub mod Poll
use proxygw.Prelude.{
  Bool, Dict, Option, Text, bool_eq, delete, if◌then◌else◌, inl, inr, insert, lookup, nat_eq, none,
  not, some, suc, text_eq, true, ℕ, ◌==◌, ◌⊎◌,
}
use proxygw.Config.Document
use proxygw.Config.Namespace
use proxygw.Config.Namespace.{NamespaceReference}
use proxygw.Connft.Nft.{Nft}
use proxygw.Connft.State.{Connft, new_connft_group}
use proxygw.Connft.Group.{close_unlocked}
use proxygw.Connft.State
use proxygw.Target.{Target}
use proxygw.Target as Targets
use proxygw.Target.Endpoints.{Endpoint}
use proxygw.Frontend.{Frontend}
use proxygw.Frontend

-- `TC` and `FC` are the constructors of handlers, which a caller may leave nil.
pub record Engine (Conn TC FC : Type 0) : Type 0 where
  pub dplane : Connft Conn
  pub frontends : Dict Text ℕ
  pub frontend_ctors : Dict Text (Option FC)
  pub targets : Dict Text ℕ
  pub target_ctors : Dict Text (Option TC)
  pub last_seen : Dict Text ℕ
  pub cancelled : Bool
  pub closed : Bool
  pub target_at : ℕ → Target
  pub next_target : ℕ
  pub frontend_at : ℕ → Frontend
  pub next_frontend : ℕ

-- The errors of pkg/engine/errors.go, and the wrapped ones. `err_target` holds Target.New's
-- error and those of the two Close calls behind it, `err_frontend` that of frontend.New and of one.
pub data Err : Type 0 where
  err_closed err_target_kind_already_registered err_target_kind_not_registered : Err
  err_target_already_registered err_target_not_registered err_target_in_use : Err
  err_frontend_kind_already_registered err_frontend_kind_not_registered : Err
  err_frontend_already_registered err_frontend_in_use : Err
  err_handler : NamespaceReference → Text → Err
  err_flow_group : State.Err → Err
  err_target : Endpoint → Option Text → Option State.Err → Err
  err_endpoint : NamespaceReference → Err
  err_frontend : State.Err → Option Text → Err

-- A write to the object `i`.
abbrev pub write : {A : Type 0} → (ℕ → A) → ℕ → A → ℕ → A
write store i x j = if i == j then x else store j

-- A map that is read without a test reads nil for a missing key.
unfoldable pub ctor_of : {A : Type 0} → Text → Dict Text (Option A) → Option A
ctor_of name ctors = elim (lookup name ctors) [ none ↦ none | some c ↦ c ]

module _ {Conn TC FC : Type 0} where
  -- The cancellation of the engine's context, from which those of its targets and frontends come.
  unfoldable pub cancel : Engine Conn TC FC → Engine Conn TC FC
  cancel e = record e {
    cancelled = true;
    target_at = λ i. Targets.cancel (e.target_at i);
    frontend_at = λ i. Frontend.cancel (e.frontend_at i);
  }

  unfoldable pub close : Engine Conn TC FC → Engine Conn TC FC
  unfolding cancel
  close e = if e.closed then e else cancel (record e { closed = true })

  unfoldable pub add_frontend_kind :
      Engine Conn TC FC → Text → Option FC → Engine Conn TC FC × Option Err
  add_frontend_kind e name kind =
      if e.closed then (e, some err_closed) else elim (lookup name e.frontend_ctors) [
        | some c ↦ (e, some err_frontend_kind_already_registered)
        | none ↦ (record e { frontend_ctors = insert name kind e.frontend_ctors }, none)
      ]

  pub frontend_kind : Engine Conn TC FC → Text → Option FC
  unfolding ctor_of
  frontend_kind e name = ctor_of name e.frontend_ctors

  -- The loop over the frontends does nothing.
  unfoldable pub del_frontend_kind : Engine Conn TC FC → Text → Engine Conn TC FC × Option Err
  del_frontend_kind e name =
      if e.closed then (e, some err_closed) else elim (lookup name e.frontend_ctors) [
        | none ↦ (e, some err_frontend_kind_not_registered)
        | some c ↦ (record e { frontend_ctors = delete name e.frontend_ctors }, none)
      ]

  unfoldable pub add_target_kind :
      Engine Conn TC FC → Text → Option TC → Engine Conn TC FC × Option Err
  add_target_kind e name kind =
      if e.closed then (e, some err_closed) else elim (lookup name e.target_ctors) [
        | some c ↦ (e, some err_target_kind_already_registered)
        | none ↦ (record e { target_ctors = insert name kind e.target_ctors }, none)
      ]

  pub get_target_kind : Engine Conn TC FC → Text → Option TC
  unfolding ctor_of
  get_target_kind e name = ctor_of name e.target_ctors

  -- The loop over the targets does nothing.
  unfoldable pub del_target_kind : Engine Conn TC FC → Text → Engine Conn TC FC × Option Err
  del_target_kind e name =
      if e.closed then (e, some err_closed) else elim (lookup name e.target_ctors) [
        | none ↦ (e, some err_target_kind_not_registered)
        | some c ↦ (record e { target_ctors = delete name e.target_ctors }, none)
      ]

  unfoldable pub get_target : Engine Conn TC FC → Text → Option ℕ
  get_target e name = lookup name e.targets

  unfoldable pub get_frontend : Engine Conn TC FC → Text → Option ℕ
  get_frontend e name = lookup name e.frontends

  unfoldable pub del_target : Engine Conn TC FC → Text → Engine Conn TC FC × Option Err
  del_target e name = if e.closed then (e, some err_closed) else elim (lookup name e.targets) [
    | none ↦ (e, none)
    | some i ↦
        if not (Targets.is_closed (e.target_at i).state) then (e, some err_target_in_use) else (
          record e { targets = delete name e.targets; last_seen = delete name e.last_seen },
          none,
        )
  ]

  unfoldable pub del_frontend : Engine Conn TC FC → Text → Engine Conn TC FC × Option Err
  del_frontend e name = if e.closed then (e, some err_closed) else elim (lookup name e.frontends) [
    | none ↦ (e, none)
    | some i ↦
        if not (Frontend.is_closed (e.frontend_at i).state)
        then (e, some err_frontend_in_use)
        else (record e { frontends = delete name e.frontends }, none)
  ]

  -- A new object under a context whose parent may be cancelled already.
  unfoldable pub register_target : Engine Conn TC FC → ℕ → Target → Engine Conn TC FC
  register_target e now t = record e {
    targets = insert t.name e.next_target e.targets;
    last_seen = insert t.name now e.last_seen;
    target_at = write e.target_at e.next_target (record t { cancelled = e.cancelled });
    next_target = suc e.next_target;
  }

  unfoldable pub register_frontend : Engine Conn TC FC → Frontend → Engine Conn TC FC
  register_frontend e f = record e {
    frontends = insert f.name e.next_frontend e.frontends;
    frontend_at = write e.frontend_at e.next_frontend (record f { cancelled = e.cancelled });
    next_frontend = suc e.next_frontend;
  }

module _ (nft : Nft) {TC FC : Type 0} where
  open nft use {Conn}

  -- The part of NewTarget behind the handler's constructor; `closed` is what handler.Close answers.
  unfoldable pub create_target :
      Engine Conn TC FC → Document.Target → Option Text → ℕ → Engine Conn TC FC × (ℕ ⊎ Err)
  unfolding register_target
  create_target e cfg closed now =
      let (d, made) = new_connft_group e.dplane cfg.name in
      elim made [
        | inr x ↦ (record e { dplane = d }, inr (err_flow_group x))
        | inl group ↦ elim (Targets.new group cfg) [
          | inr bad ↦
              let (d₁, x) = close_unlocked nft d group in
              (record e { dplane = d₁ }, inr (err_target bad closed x))
          | inl t ↦ (register_target (record e { dplane = d }) now t, inl e.next_target)
        ]
      ]

  -- `build` is what the handler's constructor answers: an error, or none for a handler.
  unfoldable pub new_target :
      Engine Conn TC FC
      → Document.Target
      → (TC → Option Text)
      → Option Text
      → ℕ
      → Engine Conn TC FC × (ℕ ⊎ Err)
  unfolding create_target ctor_of
  new_target e cfg build closed now =
      if e.closed then (e, inr err_closed) else elim (lookup cfg.name e.targets) [
        | some i ↦ (e, inr err_target_already_registered)
        | none ↦ elim (ctor_of (Namespace.to_string cfg.kind) e.target_ctors) [
          | none ↦ (e, inr err_target_kind_not_registered)
          | some factory ↦ elim (build factory) [
            | some x ↦ (e, inr (err_handler cfg.kind x))
            | none ↦ create_target e cfg closed now
          ]
        ]
      ]

  -- The part of NewFrontend behind the handler's constructor.
  create_frontend :
      Engine Conn TC FC → Document.Frontend → ℕ → Option Text → Engine Conn TC FC × (ℕ ⊎ Err)
  unfolding register_frontend
  create_frontend e cfg i closed = elim (Targets.endpoint (e.target_at i) cfg.endpoint.name) [
    | none ↦ (e, inr (err_endpoint cfg.endpoint))
    | some endpoint ↦
        let (d, made) = Frontend.new nft e.dplane i (e.target_at i) endpoint cfg in
        elim made [
          | inr x ↦ (record e { dplane = d }, inr (err_frontend x closed))
          | inl f ↦ (register_frontend (record e { dplane = d }) f, inl e.next_frontend)
        ]
  ]

  unfoldable pub new_frontend :
      Engine Conn TC FC
      → Document.Frontend
      → (FC → Option Text)
      → Option Text
      → Engine Conn TC FC × (ℕ ⊎ Err)
  unfolding create_frontend ctor_of
  new_frontend e cfg build closed =
      if e.closed then (e, inr err_closed) else elim (lookup cfg.name e.frontends) [
        | some i ↦ (e, inr err_frontend_already_registered)
        | none ↦ elim (lookup cfg.endpoint.namespace e.targets) [
          | none ↦ (e, inr err_target_not_registered)
          | some i ↦
              if Targets.is_closed (e.target_at i).state
              then (e, inr err_target_not_registered)
              else elim (ctor_of (Namespace.to_string cfg.kind) e.frontend_ctors) [
                | none ↦ (e, inr err_frontend_kind_not_registered)
                | some ctor ↦ elim (build ctor) [
                  | some x ↦ (e, inr (err_handler cfg.kind x))
                  | none ↦ create_frontend e cfg i closed
                ]
              ]
        ]
      ]
