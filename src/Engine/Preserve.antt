-- ===== src/Engine/Preserve.antt =====
-- The calls of pkg/engine/engine.go preserve what holds of an engine.
use proxygw.Prelude.{
  Bool, Dict, List, Option, Option-cases, Text, arith, bool_eq, delete, delete-Unique, false, inl,
  inr, lookup, lookup-delete, nat_eq, none, some, subst, sym, text_eq, true, ℕ, ◌∙◌, ◌≡◌, ◌≢◌, ◌⊎◌,
}
use proxygw.Target.{Target}
use proxygw.Engine.{
  Engine, cancel, close, add_frontend_kind, add_target_kind, del_frontend_kind, del_target_kind,
  del_target, del_frontend,
}
use proxygw.Engine.Poll.{detect_timeouts, is_expired, is_stale}
use proxygw.Engine.Invariant.{Inv, cancel-Inv}
use proxygw.Engine.Timeouts.{detect_timeouts_lem}
use proxygw.Engine.Rounds.{Outcome, Frame}

fate_seen :
    (stale expired : Bool) (now : ℕ) (t u : Target) (s r : Option ℕ)
    → Outcome stale expired now t s u r
    → s ≢ none
    → r ≢ none
fate_seen false expired now t u s r f n h = ground arith
fate_seen true false now t u s r f n h = ground arith
fate_seen true true now t u s r f n h = ground arith

module _ {Conn TC FC : Type 0} where
  Frame-Inv :
      (stale : List ℕ) (now : ℕ) (e u : Engine Conn TC FC)
      → Inv e
      → Frame e u
      → ((name : Text)
          → lookup name e.targets ≡ none
          → lookup name u.last_seen ≡ lookup name e.last_seen)
      → ((name : Text) (i : ℕ) → lookup name e.targets ≡ some i → lookup name u.last_seen ≢ none)
      → Inv (record e { target_at = u.target_at; last_seen = u.last_seen })
  Frame-Inv stale now e u v f times fates = record {
    targets = λ name i h. let (l, n) = v.targets name i h in (l, f.names i ∙ n);
    targets_unique = v.targets_unique;
    frontends_unique = v.frontends_unique;
    seen = λ name. elim (Option-cases (lookup name e.targets)) [
      | inl h ↦ ground (arith, times name h, v.seen name)
      | inr (i, h) ↦ ground (arith, fates name i h)
    ];
    target = λ i l. f.coherent i (v.target i l);
    frontends = v.frontends;
    frontend = v.frontend;
  }

  pub detect-Inv :
      (stale : List ℕ) (now : ℕ) (e u : Engine Conn TC FC)
      → Inv e
      → detect_timeouts stale now e ≡ some u
      → Inv u
  detect-Inv stale now e u v h =
      let (u', h', f, times, fates) = detect_timeouts_lem stale now e v in
      let p : u' ≡ u = ground arith in
      subst Inv p (
        subst Inv (sym f.rest) (
          Frame-Inv stale now e u' v f times (λ name i g.
            fate_seen (is_stale stale (e.target_at i))
              (is_expired (e.target_at i) (lookup name e.last_seen) now) now (e.target_at i)
              (u'.target_at i) (lookup name e.last_seen) (lookup name u'.last_seen) (fates name i g)
              (λ z. ground (arith, v.seen name)))))

  kinds-Inv :
      (e : Engine Conn TC FC) (a : Dict Text (Option TC)) (b : Dict Text (Option FC))
      → Inv e
      → Inv (record e { target_ctors = a; frontend_ctors = b })
  kinds-Inv e a b v = record {
    targets = v.targets;
    targets_unique = v.targets_unique;
    frontends_unique = v.frontends_unique;
    seen = v.seen;
    target = v.target;
    frontends = v.frontends;
    frontend = v.frontend;
  }

  closed-Inv : (e : Engine Conn TC FC) → Inv e → Inv (record e { closed = true })
  closed-Inv e v = record {
    targets = v.targets;
    targets_unique = v.targets_unique;
    frontends_unique = v.frontends_unique;
    seen = v.seen;
    target = v.target;
    frontends = v.frontends;
    frontend = v.frontend;
  }

  close_cases :
      (e : Engine Conn TC FC) → (close e ≡ e) ⊎ (close e ≡ cancel (record e { closed = true }))
  unfolding close
  close_cases e = ground arith

  pub close-Inv : (e : Engine Conn TC FC) → Inv e → Inv (close e)
  close-Inv e v = elim (close_cases e) [
    | inl h ↦ subst Inv (sym h) v
    | inr h ↦ subst Inv (sym h) (cancel-Inv (record e { closed = true }) (closed-Inv e v))
  ]

  forget_target-Inv :
      (e : Engine Conn TC FC) (name : Text)
      → Inv e
      → Inv (record e { targets = delete name e.targets; last_seen = delete name e.last_seen })
  forget_target-Inv e name v = record {
    targets = λ other i h. ground (arith, lookup-delete name other e.targets, v.targets other i);
    targets_unique = delete-Unique name e.targets v.targets_unique;
    frontends_unique = v.frontends_unique;
    seen = λ other. ground (
      arith,
      lookup-delete name other e.targets,
      lookup-delete name other e.last_seen,
      v.seen other,
    );
    target = v.target;
    frontends = v.frontends;
    frontend = v.frontend;
  }

  forget_frontend-Inv :
      (e : Engine Conn TC FC) (name : Text)
      → Inv e
      → Inv (record e { frontends = delete name e.frontends })
  forget_frontend-Inv e name v = record {
    targets = v.targets;
    targets_unique = v.targets_unique;
    frontends_unique = delete-Unique name e.frontends v.frontends_unique;
    seen = v.seen;
    target = v.target;
    frontends =
        λ other i h. ground (arith, lookup-delete name other e.frontends, v.frontends other i);
    frontend = v.frontend;
  }

  del_target_cases :
      (e : Engine Conn TC FC) (name : Text)
      → ((del_target e name).0 ≡ e)
        ⊎ ((del_target e name).0
            ≡ record e { targets = delete name e.targets; last_seen = delete name e.last_seen })
  unfolding del_target
  del_target_cases e name = ground arith

  pub del_target-Inv : (e : Engine Conn TC FC) (name : Text) → Inv e → Inv (del_target e name).0
  del_target-Inv e name v = elim (del_target_cases e name) [
    | inl h ↦ subst Inv (sym h) v
    | inr h ↦ subst Inv (sym h) (forget_target-Inv e name v)
  ]

  del_frontend_cases :
      (e : Engine Conn TC FC) (name : Text)
      → ((del_frontend e name).0 ≡ e)
        ⊎ ((del_frontend e name).0 ≡ record e { frontends = delete name e.frontends })
  unfolding del_frontend
  del_frontend_cases e name = ground arith

  pub del_frontend-Inv : (e : Engine Conn TC FC) (name : Text) → Inv e → Inv (del_frontend e name).0
  del_frontend-Inv e name v = elim (del_frontend_cases e name) [
    | inl h ↦ subst Inv (sym h) v
    | inr h ↦ subst Inv (sym h) (forget_frontend-Inv e name v)
  ]

  -- What a call on the kinds leaves.
  abbrev pub Rekinded : Engine Conn TC FC → Engine Conn TC FC → Type 0
  Rekinded e u = u ≡ record e { target_ctors = u.target_ctors; frontend_ctors = u.frontend_ctors }

  pub Rekinded-Inv : (e u : Engine Conn TC FC) → Rekinded e u → Inv e → Inv u
  Rekinded-Inv e u h v = subst Inv (sym h) (kinds-Inv e u.target_ctors u.frontend_ctors v)

  pub add_target_kind-Inv :
      (e : Engine Conn TC FC) (name : Text) (k : Option TC)
      → Rekinded e (add_target_kind e name k).0
  unfolding add_target_kind
  add_target_kind-Inv e name k = ground arith

  pub add_frontend_kind-Inv :
      (e : Engine Conn TC FC) (name : Text) (k : Option FC)
      → Rekinded e (add_frontend_kind e name k).0
  unfolding add_frontend_kind
  add_frontend_kind-Inv e name k = ground arith

  pub del_target_kind-Inv :
      (e : Engine Conn TC FC) (name : Text) → Rekinded e (del_target_kind e name).0
  unfolding del_target_kind
  del_target_kind-Inv e name = ground arith

  pub del_frontend_kind-Inv :
      (e : Engine Conn TC FC) (name : Text) → Rekinded e (del_frontend_kind e name).0
  unfolding del_frontend_kind
  del_frontend_kind-Inv e name = ground arith
