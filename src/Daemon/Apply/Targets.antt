-- ===== src/Daemon/Apply/Targets.antt =====
-- What applyConfig of cmd/proxygw/main.go makes of the targets of its document.
use proxygw.Prelude.{
  All, List, Text, [], ap, arith, bool_eq, eq_iff, inl, inr, lookup-insert, nat_eq, none, refl,
  some, subst, sym, text_eq, ℕ, ◌++◌, ◌∙◌, ◌∷◌, ◌≡◌, ◌⊎◌,
}
use proxygw.Config.Document.{Config}
use proxygw.Config.Document
use proxygw.Connft.Nft.{Nft}
use proxygw.Connft.State.{new_connft_group}
use proxygw.Engine.{
  Engine, Err, get_target, new_target, create_target, register_target, register_frontend,
}
use proxygw.Engine.Registry.{new_cases, sum_cases, new_target-get_target}
use proxygw.Engine.Creation.{new_target_cases, new_frontend_cases}
use proxygw.Daemon.Apply.Frontends.{ask_frontend}
use proxygw.Daemon.Apply.{Answers, make_targets, make_frontends, start_frontend}

module _ {Conn TC FC : Type 0} where
  -- The target of an element of the document is registered.
  abbrev pub IsRegistered : Engine Conn TC FC → Document.Target → Type 0
  IsRegistered u cfg = (i : ℕ) × (get_target u cfg.name ≡ some i)

module _ (nft : Nft) {TC FC : Type 0} (answers : Answers TC FC) where
  open nft use {Conn}

  -- NewTarget with the answers for a document's target.
  abbrev pub ask_target : Document.Target → Engine Conn TC FC → Engine Conn TC FC × (ℕ ⊎ Err)
  ask_target cfg e =
      new_target nft e cfg (answers.build_target cfg) (answers.close_target cfg) (answers.now cfg)

  ask_target_keeps :
      (cfg : Document.Target) (e : Engine Conn TC FC) (name : Text) (i : ℕ)
      → get_target e name ≡ some i
      → get_target (ask_target cfg e).0 name ≡ some i
  unfolding new_target create_target register_target new_connft_group get_target
  ask_target_keeps cfg e name i h = ground (
    arith,
    new_cases e.dplane.next cfg,
    lookup-insert cfg.name name e.next_target e.targets,
    eq_iff cfg.name name,
  )

  ask_target-frontends :
      (cfg : Document.Target) (e : Engine Conn TC FC) → (ask_target cfg e).0.frontends ≡ e.frontends
  unfolding register_target
  ask_target-frontends cfg e =
      elim (new_target_cases nft e cfg (answers.build_target cfg) (answers.close_target cfg)
        (answers.now cfg)) [
          | inl k ↦ ap (λ u. u.frontends) k
          | inr (t, _, k) ↦ ap (λ u. u.frontends) k
        ]

  ask_frontend-targets :
      (cfg : Document.Frontend) (e : Engine Conn TC FC)
      → (ask_frontend nft answers cfg e).0.targets ≡ e.targets
  unfolding register_frontend
  ask_frontend-targets cfg e =
      elim (new_frontend_cases nft e cfg (answers.build_frontend cfg)
        (answers.close_frontend cfg)) [
          | inl k ↦ ap (λ u. u.targets) k
          | inr (i, endpoint, _, k) ↦ ap (λ u. u.targets) k
        ]

  make_targets-cons :
      (cfg : Document.Target) (cfgs : List Document.Target) (e : Engine Conn TC FC) (j : ℕ)
      → (ask_target cfg e).1 ≡ inl j
      → make_targets nft answers (cfg ∷ cfgs) e ≡ make_targets nft answers cfgs (ask_target cfg e).0
  unfolding make_targets
  make_targets-cons cfg cfgs e j made = rw (made, make_targets) refl

  make_targets_keeps :
      (cfgs : List Document.Target) (e : Engine Conn TC FC) (name : Text) (i : ℕ)
      → get_target e name ≡ some i
      → get_target (make_targets nft answers cfgs e).0 name ≡ some i
  unfolding make_targets
  make_targets_keeps [] e name i h = h
  make_targets_keeps (cfg ∷ cfgs) e name i h =
      let k = ask_target_keeps cfg e name i h in
      elim (sum_cases (ask_target cfg e).1) [
        | inl (j, made) ↦
            rw (made, make_targets) (make_targets_keeps cfgs (ask_target cfg e).0 name i k)
        | inr (x, refused) ↦ rw (refused, make_targets) k
      ]

  pub make_targets-frontends :
      (cfgs : List Document.Target) (e : Engine Conn TC FC)
      → (make_targets nft answers cfgs e).0.frontends ≡ e.frontends
  unfolding make_targets
  make_targets-frontends [] e = refl
  make_targets-frontends (cfg ∷ cfgs) e =
      let k = ask_target-frontends cfg e in
      elim (sum_cases (ask_target cfg e).1) [
        | inl (j, made) ↦
            rw (made, make_targets) (make_targets-frontends cfgs (ask_target cfg e).0 ∙ k)
        | inr (x, refused) ↦ rw (refused, make_targets) k
      ]

  pub make_targets-All :
      (cfgs : List Document.Target) (e : Engine Conn TC FC)
      → (make_targets nft answers cfgs e).1 ≡ none
      → All (IsRegistered (make_targets nft answers cfgs e).0) cfgs
  unfolding make_targets
  make_targets-All [] e h = tt
  make_targets-All (cfg ∷ cfgs) e h = elim (sum_cases (ask_target cfg e).1) [
    | inl (j, made) ↦
        let u = (ask_target cfg e).0 in
        let (_, _, there, _, _, _) =
          new_target-get_target nft e u cfg (answers.build_target cfg) (answers.close_target cfg)
            (answers.now cfg) j (ground (arith, made)) cfg.name in
        let rest = make_targets-cons cfg cfgs e j made in
        subst (λ r. All (IsRegistered r.0) (cfg ∷ cfgs)) (sym rest)
          (
            (j, make_targets_keeps cfgs u cfg.name j there),
            make_targets-All cfgs u (ap (λ r. r.1) (sym rest) ∙ h),
          )
    | inr (x, refused) ↦ absurd (ground (arith, refused))
  ]

  pub make_frontends-targets :
      (cfgs : List Document.Frontend) (e : Engine Conn TC FC)
      → (make_frontends nft answers cfgs e).targets ≡ e.targets
  unfolding make_frontends start_frontend
  make_frontends-targets [] e = refl
  make_frontends-targets (cfg ∷ cfgs) e =
      let (u, made) = ask_frontend nft answers cfg e in
      let v : Engine Conn TC FC = elim made [ inr x ↦ u | inl i ↦ start_frontend i u ] in
      make_frontends-targets cfgs v ∙ ground (arith, ask_frontend-targets cfg e)

  -- Where the targets stop: those before are made, and NewTarget refuses the next.
  pub make_targets-refused :
      (cfgs : List Document.Target) (e : Engine Conn TC FC) (x : Err)
      → (make_targets nft answers cfgs e).1 ≡ some x
      → (before : List Document.Target) × (bad : Document.Target) × (after : List Document.Target)
        × (cfgs ≡ before ++ bad ∷ after)
        × ((make_targets nft answers before e).1 ≡ none)
        × (ask_target bad (make_targets nft answers before e).0
            ≡ ((make_targets nft answers cfgs e).0, inr x))
  unfolding make_targets
  make_targets-refused [] e x h = absurd (ground (arith, h))
  make_targets-refused (cfg ∷ cfgs) e x h = elim (sum_cases (ask_target cfg e).1) [
    | inr (y, refused) ↦ ([], cfg, cfgs, refl, refl, ground (arith, h, refused))
    | inl (j, made) ↦
        let u = (ask_target cfg e).0 in
        let rest = make_targets-cons cfg cfgs e j made in
        let (before, bad, after, split, ok, asked) =
          make_targets-refused cfgs u x (ap (λ r. r.1) (sym rest) ∙ h) in
        let first = make_targets-cons cfg before e j made in
        (
          cfg ∷ before,
          bad,
          after,
          ap (λ cs. cfg ∷ cs) split,
          ap (λ r. r.1) first ∙ ok,
          ap (λ r. ask_target bad r.0) first ∙ asked ∙ ap (λ r. (r.0, inr x)) (sym rest),
        )
  ]
