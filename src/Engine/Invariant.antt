-- ===== src/Engine/Invariant.antt =====
-- What holds of an engine of pkg/engine/engine.go between any calls on it, its targets and its
-- frontends.
use proxygw.Prelude.{
  Text, Unique, arith, bool_eq, eq_iff, eq_refl, inl, insert-Unique, lookup, lookup-insert, nat_eq,
  none, some, text_eq, ℕ, ◌<◌, ◌↔◌, ◌≡◌,
}
use proxygw.Config.Document
use proxygw.Connft.State.{Connft}
use proxygw.Target.{Target}
use proxygw.Target as Targets
use proxygw.Target.Loop.Invariant as TargetInvariant
use proxygw.Frontend.{Frontend, made}
use proxygw.Frontend
use proxygw.Frontend.Loop.Invariant as FrontendInvariant
use proxygw.Target.Endpoints.{Endpoint}
use proxygw.Engine.{Engine, write, cancel, register_target, register_frontend}

module _ {Conn TC FC : Type 0} where
  pub record Inv (e : Engine Conn TC FC) : Type 0 where
    pub targets :
        (name : Text) (i : ℕ)
        → lookup name e.targets ≡ some i
        → (i < e.next_target) × ((e.target_at i).name ≡ name)
    pub targets_unique : Unique e.targets
    pub frontends_unique : Unique e.frontends
    pub seen : (name : Text) → (lookup name e.targets ≡ none) ↔ (lookup name e.last_seen ≡ none)
    pub target : (i : ℕ) → i < e.next_target → TargetInvariant.Coherent (e.target_at i)
    pub frontends :
        (name : Text) (i : ℕ)
        → lookup name e.frontends ≡ some i
        → (i < e.next_frontend) × ((e.frontend_at i).name ≡ name)
    pub frontend :
        (i : ℕ)
        → i < e.next_frontend
        → FrontendInvariant.Coherent (e.frontend_at i) × ((e.frontend_at i).target < e.next_target)

  pub dplane-Inv : (e : Engine Conn TC FC) (d : Connft Conn) → Inv e → Inv (record e { dplane = d })
  dplane-Inv e d v = record {
    targets = v.targets;
    targets_unique = v.targets_unique;
    frontends_unique = v.frontends_unique;
    seen = v.seen;
    target = v.target;
    frontends = v.frontends;
    frontend = v.frontend;
  }

  pub target-Inv :
      (e : Engine Conn TC FC) (i : ℕ) (t : Target)
      → Inv e
      → (i < e.next_target → TargetInvariant.Coherent t)
      → t.name ≡ (e.target_at i).name
      → Inv (record e { target_at = write e.target_at i t })
  target-Inv e i t v c n = record {
    targets = λ name j h. ground (arith, v.targets name j h, eq_iff i j);
    targets_unique = v.targets_unique;
    frontends_unique = v.frontends_unique;
    seen = v.seen;
    target = λ j h. ground (arith, v.target j h, eq_iff i j);
    frontends = v.frontends;
    frontend = v.frontend;
  }

  pub frontend-Inv :
      (e : Engine Conn TC FC) (i : ℕ) (f : Frontend)
      → Inv e
      → (i < e.next_frontend → FrontendInvariant.Coherent f)
      → f.name ≡ (e.frontend_at i).name
      → f.target ≡ (e.frontend_at i).target
      → Inv (record e { frontend_at = write e.frontend_at i f })
  frontend-Inv e i f v c n t = record {
    targets = v.targets;
    targets_unique = v.targets_unique;
    frontends_unique = v.frontends_unique;
    seen = v.seen;
    target = v.target;
    frontends = λ name j h. ground (arith, v.frontends name j h, eq_iff i j);
    frontend = λ j h. ground (arith, v.frontend j h, eq_iff i j);
  }

  pub cancel-Inv : (e : Engine Conn TC FC) → Inv e → Inv (cancel e)
  unfolding cancel Targets.cancel Frontend.cancel
  cancel-Inv e v = record {
    targets = v.targets;
    targets_unique = v.targets_unique;
    frontends_unique = v.frontends_unique;
    seen = v.seen;
    target = λ j h.
        unfold Targets.cancel in TargetInvariant.cancel-Coherent (e.target_at j) (v.target j h);
    frontends = v.frontends;
    frontend = λ j h. (
      FrontendInvariant.cancel-Coherent (e.frontend_at j) (v.frontend j h).0,
      (v.frontend j h).1,
    );
  }

  pub register_target-Inv :
      (e : Engine Conn TC FC) (now group : ℕ) (cfg : Document.Target) (t : Target)
      → Inv e
      → Targets.new group cfg ≡ inl t
      → Inv (register_target e now t)
  unfolding register_target
  register_target-Inv e now group cfg t v h = record {
    targets = λ name j k. ground (
      arith,
      lookup-insert t.name name e.next_target e.targets,
      v.targets name j,
      eq_iff t.name name,
      eq_iff e.next_target j,
      eq_refl e.next_target,
    );
    targets_unique = insert-Unique t.name e.next_target e.targets v.targets_unique;
    frontends_unique = v.frontends_unique;
    seen = λ name. ground (
      arith,
      lookup-insert t.name name e.next_target e.targets,
      lookup-insert t.name name now e.last_seen,
      v.seen name,
    );
    target = λ j k.
        ground
          (arith, v.target j, TargetInvariant.new-Coherent group cfg t h, eq_iff e.next_target j);
    frontends = v.frontends;
    frontend = λ j k. ground (arith, v.frontend j k);
  }

  pub register_frontend-Inv :
      (e : Engine Conn TC FC) (i : ℕ) (endpoint : Endpoint) (cfg : Document.Frontend)
      → Inv e
      → i < e.next_target
      → Inv (register_frontend e (made i endpoint cfg))
  unfolding register_frontend made
  register_frontend-Inv e i endpoint cfg v l = record {
    targets = v.targets;
    targets_unique = v.targets_unique;
    frontends_unique = insert-Unique cfg.name e.next_frontend e.frontends v.frontends_unique;
    seen = v.seen;
    target = v.target;
    frontends = λ name j k. ground (
      arith,
      lookup-insert cfg.name name e.next_frontend e.frontends,
      v.frontends name j,
      eq_iff cfg.name name,
      eq_iff e.next_frontend j,
      eq_refl e.next_frontend,
    );
    frontend = λ j k. ground (
      arith,
      v.frontend j,
      FrontendInvariant.made-Coherent i endpoint cfg,
      eq_iff e.next_frontend j,
    );
  }
