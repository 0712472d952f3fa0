-- ===== src/Daemon/Apply/Outcome.antt =====
-- What applyConfig of cmd/proxygw/main.go answers, and what it leaves in an engine.
use proxygw.Prelude.{
  All, List, Option, Option-cases, ap, bool_eq, inl, inr, lookup, nat_eq, none, refl, some, subst,
  sym, text_eq, ℕ, ◌++◌, ◌∙◌, ◌∷◌, ◌≡◌, ◌⊎◌,
}
use proxygw.Config.Document.{Config}
use proxygw.Config.Document
use proxygw.Connft.Nft.{Nft}
use proxygw.Engine.{Engine, Err, get_target}
use proxygw.Daemon.Apply.Frontends.{Treated, make_frontends-all}
use proxygw.Daemon.Apply.{Answers, elements, make_targets, make_frontends, apply_config}
use proxygw.Daemon.Apply.Targets.{
  IsRegistered, ask_target, make_targets-refused, make_targets-frontends, make_targets-All,
  make_frontends-targets,
}

module _ (nft : Nft) {TC FC : Type 0} (answers : Answers TC FC) where
  open nft use {Conn}

  -- The document with other targets or frontends.
  abbrev pub with_targets : List Document.Target → Config → Config
  with_targets ts cfg = record cfg { targets = some ts; frontends = none }

  abbrev pub with_frontends : List Document.Frontend → Config → Config
  with_frontends fs cfg = record cfg { frontends = some fs }

  -- What applyConfig answers where it makes the whole document.
  pub record Applied (cfg : Config) (e : Engine Conn TC FC) (r : Engine Conn TC FC × Option Err)
      : Type 0 where
    pub no_error : r.1 ≡ none
    pub targets : All (IsRegistered r.0) (elements cfg.targets)
    pub frontends :
        (before : List Document.Frontend) (f : Document.Frontend) (after : List Document.Frontend)
        → elements cfg.frontends ≡ before ++ f ∷ after
        → Treated nft answers f (apply_config nft answers (with_frontends before cfg) e).0 r.0

  -- What it answers where NewTarget refuses `bad`.
  pub record Refused (cfg : Config) (e : Engine Conn TC FC) (r : Engine Conn TC FC × Option Err)
      : Type 0 where
    pub before : List Document.Target
    pub bad : Document.Target
    pub after : List Document.Target
    pub why : Err
    pub split : elements cfg.targets ≡ before ++ bad ∷ after
    pub fine : (apply_config nft answers (with_targets before cfg) e).1 ≡ none
    pub refused :
        ask_target nft answers bad (apply_config nft answers (with_targets before cfg) e).0
        ≡ (r.0, inr why)
    pub error : r.1 ≡ some why
    pub no_frontends : r.0.frontends ≡ e.frontends

  apply_config-made :
      (cfg : Config) (e : Engine Conn TC FC)
      → let m = make_targets nft answers (elements cfg.targets) e in
        m.1 ≡ none
        → apply_config nft answers cfg e
          ≡ (make_frontends nft answers (elements cfg.frontends) m.0, none)
  unfolding apply_config
  apply_config-made cfg e k = rw (k, apply_config) refl

  apply_config-refused :
      (cfg : Config) (e : Engine Conn TC FC) (x : Err)
      → let m = make_targets nft answers (elements cfg.targets) e in
        m.1 ≡ some x → apply_config nft answers cfg e ≡ (m.0, some x)
  unfolding apply_config
  apply_config-refused cfg e x k = rw (k, apply_config) refl

  apply_config-Applied :
      (cfg : Config) (e : Engine Conn TC FC)
      → (make_targets nft answers (elements cfg.targets) e).1 ≡ none
      → Applied cfg e (apply_config nft answers cfg e)
  unfolding get_target
  apply_config-Applied cfg e k =
      let ts = elements cfg.targets in
      let u = (make_targets nft answers ts e).0 in
      let whole = apply_config-made cfg e k in
      subst (λ r. Applied cfg e r) (sym whole)
        (record {
          no_error = refl;
          targets =
              subst (λ m. All (λ t. (i : ℕ) × (lookup t.name m ≡ some i)) ts)
                (sym (make_frontends-targets nft answers (elements cfg.frontends) u))
                (make_targets-All nft answers ts e k);
          frontends = λ before f after split.
              let part = apply_config-made (with_frontends before cfg) e k in
              subst
                (λ r.
                  Treated nft answers f r.0 (make_frontends nft answers (elements cfg.frontends) u))
                (sym part)
                (subst
                  (λ fs.
                    Treated nft answers f (make_frontends nft answers before u)
                      (make_frontends nft answers fs u))
                  (sym split) (make_frontends-all nft answers before f after u));
        })

  apply_config-Refused :
      (cfg : Config) (e : Engine Conn TC FC) (x : Err)
      → (make_targets nft answers (elements cfg.targets) e).1 ≡ some x
      → Refused cfg e (apply_config nft answers cfg e)
  unfolding make_frontends
  apply_config-Refused cfg e x k =
      let ts = elements cfg.targets in
      let whole = apply_config-refused cfg e x k in
      let (before, bad, after, split, ok, asked) = make_targets-refused nft answers ts e x k in
      let part = apply_config-made (with_targets before cfg) e ok in
      subst (λ r. Refused cfg e r) (sym whole)
        (record {
          before = before;
          bad = bad;
          after = after;
          why = x;
          split = split;
          fine = ap (λ r. r.1) part;
          refused = ap (λ r. ask_target nft answers bad r.0) part ∙ asked;
          error = refl;
          no_frontends = make_targets-frontends nft answers ts e;
        })

  -- applyConfig makes the whole document, or stops at a target. In the first case it answers no
  -- error, every target of the document is registered, and every frontend is registered under its
  -- name and asked to start, unless NewFrontend refuses it on what the document with only the
  -- frontends before it leaves. In the second case the document with only the targets before that one
  -- is made without an error, NewTarget refuses the target on what this leaves, its error is the
  -- answer, and no frontend is made.
  pub apply_config_lem :
      (cfg : Config) (e : Engine Conn TC FC)
      → let r = apply_config nft answers cfg e in Applied cfg e r ⊎ Refused cfg e r
  apply_config_lem cfg e =
      elim (Option-cases (make_targets nft answers (elements cfg.targets) e).1) [
        | inl k ↦ inl (apply_config-Applied cfg e k)
        | inr (x, k) ↦ inr (apply_config-Refused cfg e x k)
      ]
