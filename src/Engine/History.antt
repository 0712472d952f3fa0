-- ===== src/Engine/History.antt =====
-- The calls on an engine of pkg/engine/engine.go, its targets and its frontends, in any order.
use proxygw.Prelude.{
  List, Option-cases, Text, Unique, [], arith, bool_eq, false, inl, inr, lookup, nat_eq, some,
  subst, text_eq, ℕ, ◌≡◌, ◌≤◌,
}
use proxygw.Config.Ttl.{Ttl, ttl_max}
use proxygw.Connft.Nft.{Nft}
use proxygw.Connft.State.{Connft}
use proxygw.Target.{Target}
use proxygw.Target as Targets
use proxygw.Target.Loop as TargetLoop
use proxygw.Target.Loop.Invariant as TargetInvariant
use proxygw.Target.Loop.Identity as TargetIdentity
use proxygw.Frontend.{Frontend}
use proxygw.Frontend.Loop as FrontendLoop
use proxygw.Frontend.Loop.Invariant as FrontendInvariant
use proxygw.Frontend.Loop.Identity as FrontendIdentity
use proxygw.Engine.{Engine, write, cancel, close}
use proxygw.Engine.Registry.{
  Call, call, target_new, frontend_new, frontend_kind_add, target_kind_add, frontend_kind_del,
  target_kind_del, target_del, frontend_del,
}
use proxygw.Engine.Poll.{detect_timeouts}
use proxygw.Engine.Invariant.{Inv, dplane-Inv, target-Inv, frontend-Inv, cancel-Inv}
use proxygw.Engine.Preserve
use proxygw.Engine.Creation
use proxygw.Engine.Timeouts.{detect_timeouts_lem}
use proxygw.Engine.Rounds.{Fate}
use proxygw.Engine.Judgement.{Judged, Fate-Judged}

-- An engine as New makes it; the stores hold nothing that was made.
abbrev pub fresh_engine :
    {Conn TC FC : Type 0} → Connft Conn → (ℕ → Target) → (ℕ → Frontend) → Engine Conn TC FC
fresh_engine d ts fs = record {
  dplane = d;
  frontends = [];
  frontend_ctors = [];
  targets = [];
  target_ctors = [];
  last_seen = [];
  cancelled = false;
  closed = false;
  target_at = ts;
  next_target = 0;
  frontend_at = fs;
  next_frontend = 0;
}

module _ (nft : Nft) {TC FC : Type 0} where
  open nft use {Conn}

  call-Inv : (c : Call TC FC) (e : Engine Conn TC FC) → Inv e → Inv (call nft c e).0
  call-Inv (frontend_kind_add name k) e v =
      Preserve.Rekinded-Inv e _ (Preserve.add_frontend_kind-Inv e name k) v
  call-Inv (target_kind_add name k) e v =
      Preserve.Rekinded-Inv e _ (Preserve.add_target_kind-Inv e name k) v
  call-Inv (frontend_kind_del name) e v =
      Preserve.Rekinded-Inv e _ (Preserve.del_frontend_kind-Inv e name) v
  call-Inv (target_kind_del name) e v =
      Preserve.Rekinded-Inv e _ (Preserve.del_target_kind-Inv e name) v
  call-Inv (target_del name) e v = Preserve.del_target-Inv e name v
  call-Inv (frontend_del name) e v = Preserve.del_frontend-Inv e name v
  call-Inv (target_new cfg build answer now) e v =
      Creation.new_target-Inv nft e cfg build answer now v
  call-Inv (frontend_new cfg build answer) e v = Creation.new_frontend-Inv nft e cfg build answer v

  -- The engines that calls lead to. Targets and frontends take steps of their own, and the dataplane
  -- may become any other: its groups are called without the engine's lock.
  pub data Reach : Engine Conn TC FC → Type 0 where
    start : (d : Connft Conn) (ts : ℕ → Target) (fs : ℕ → Frontend) → Reach (fresh_engine d ts fs)
    calls : (c : Call TC FC) {e : Engine Conn TC FC} → Reach e → Reach (call nft c e).0
    detects :
        (stale : List ℕ) (now : ℕ) {e u : Engine Conn TC FC}
        → Reach e
        → detect_timeouts stale now e ≡ some u
        → Reach u
    closes : {e : Engine Conn TC FC} → Reach e → Reach (close e)
    cancels : {e : Engine Conn TC FC} → Reach e → Reach (cancel e)
    targets :
        (i : ℕ) (a : TargetLoop.Action) {e : Engine Conn TC FC} {t : Target}
        → Reach e
        → TargetLoop.step a (e.target_at i) ≡ some t
        → Reach (record e { target_at = write e.target_at i t })
    retimes :
        (i : ℕ) (ttl : Ttl) {e : Engine Conn TC FC}
        → Reach e
        → Reach
            (record e { target_at = write e.target_at i (Targets.set_timeout (e.target_at i) ttl) })
    frontends :
        (i : ℕ) (a : FrontendLoop.Action) {e : Engine Conn TC FC} {f : Frontend}
        → Reach e
        → FrontendLoop.step a (e.frontend_at i) ≡ some f
        → Reach (record e { frontend_at = write e.frontend_at i f })
    dplanes : (d : Connft Conn) {e : Engine Conn TC FC} → Reach e → Reach (record e { dplane = d })

  fresh-Inv :
      (d : Connft Conn) (ts : ℕ → Target) (fs : ℕ → Frontend)
      → Inv {TC = TC} {FC = FC} (fresh_engine d ts fs)
  unfolding lookup Unique
  fresh-Inv d ts fs = record {
    targets = λ name i h. cc;
    targets_unique = tt;
    frontends_unique = tt;
    seen = λ name. ground arith;
    target = λ i l. absurd (omega arith);
    frontends = λ name i h. cc;
    frontend = λ i l. absurd (omega arith);
  }

  -- After any calls and steps: the names of targets and frontends lead to objects that were made
  -- with the name, no name twice; exactly the registered targets have a time at which they were
  -- seen; every target and frontend is in a state that its Coherent admits; and every frontend's
  -- target is one that was made.
  pub engine_coherent : {e : Engine Conn TC FC} → Reach e → Inv e
  engine_coherent (start d ts fs) = fresh-Inv d ts fs
  engine_coherent (calls c {e} r) = call-Inv c e (engine_coherent r)
  engine_coherent (detects stale now {e} {u} r h) =
      Preserve.detect-Inv stale now e u (engine_coherent r) h
  engine_coherent (closes {e} r) = Preserve.close-Inv e (engine_coherent r)
  engine_coherent (cancels {e} r) = cancel-Inv e (engine_coherent r)
  engine_coherent (targets i a {e} {t} r h) =
      let v = engine_coherent r in
      target-Inv e i t v (λ l. TargetInvariant.step-Coherent a (e.target_at i) t (v.target i l) h)
        (TargetIdentity.step_name a (e.target_at i) t h)
  engine_coherent (retimes i ttl {e} r) =
      let v = engine_coherent r in
      target-Inv e i (Targets.set_timeout (e.target_at i) ttl) v
        (λ l. TargetInvariant.set_timeout-Coherent (e.target_at i) ttl (v.target i l))
        (TargetInvariant.set_timeout_name (e.target_at i) ttl)
  engine_coherent (frontends i a {e} {f} r h) =
      let v = engine_coherent r in
      let (n, t) = FrontendIdentity.step_name a (e.frontend_at i) f h in
      frontend-Inv e i f v
        (λ l. FrontendInvariant.step-Coherent a (e.frontend_at i) f (v.frontend i l).0 h) n t
  engine_coherent (dplanes d {e} r) = dplane-Inv e d (engine_coherent r)

  -- detectTimeouts, after any calls and steps, returns, and changes nothing but targets and times. A
  -- registered target was seen at some time. If its group is not stale, it stays as it is and that
  -- time becomes now. If its group is stale, the time stays, and the target stays as it is where no
  -- more nanoseconds have passed than its timeout has, and is drained where more have. The timeout
  -- is at most 2^32 - 1 seconds, as a uint32 is.
  pub timeouts_drain :
      (stale : List ℕ) (now : ℕ) {e : Engine Conn TC FC} (name : Text) (i : ℕ)
      → Reach e
      → lookup name e.targets ≡ some i
      → (e.target_at i).timeout ≤ ttl_max
      → (u : Engine Conn TC FC) × (detect_timeouts stale now e ≡ some u)
        × (u ≡ record e { target_at = u.target_at; last_seen = u.last_seen })
        × (seen : ℕ) × (lookup name e.last_seen ≡ some seen)
        × Judged stale now seen (e.target_at i) (u.target_at i) (lookup name u.last_seen)
  timeouts_drain stale now {e} name i r h bound =
      let v = engine_coherent r in
      let (u, k, f, _, fates) = detect_timeouts_lem stale now e v in
      elim (Option-cases (lookup name e.last_seen)) [
        | inl z ↦ absurd (ground (arith, v.seen name, h, z))
        | inr (seen, z) ↦
            let fate =
              subst
                (λ s. Fate stale now (e.target_at i) s (u.target_at i) (lookup name u.last_seen)) z
                (fates name i h) in
            (
              u,
              k,
              f.rest,
              seen,
              z,
              Fate-Judged stale now seen (e.target_at i) (u.target_at i) (lookup name u.last_seen)
                  bound fate,
            )
      ]
