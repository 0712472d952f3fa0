-- ===== src/Engine/Rounds.antt =====
-- One round of detectTimeouts of pkg/engine/engine.go.
use proxygw.Prelude.{
  Bool, Bool-cases, List, Option, Option-cases, Text, arith, bool_eq, eq_iff, eq_refl, false, inl,
  inr, insert, lookup, lookup-insert, nat_eq, refl, some, subst, text_eq, true, ℕ, ◌==◌, ◌≡◌, ◌≢◌,
}
use proxygw.Target.{Target, drain}
use proxygw.Target.Loop as TargetLoop
use proxygw.Target.Loop.Invariant.{Coherent, step-Coherent, drain_ne}
use proxygw.Target.Loop.Identity.{step_name}
use proxygw.Engine.{Engine, write}
use proxygw.Engine.Poll.{is_expired, is_stale, detect_in}

write_all :
    {A : Type 0} (P : A → Type 0) (store : ℕ → A) (i j : ℕ) (x : A)
    → P x
    → P (store j)
    → P (write store i x j)
write_all P store i j x p q = elim (Bool-cases (i == j)) [ inl h ↦ rw h p | inr h ↦ rw h q ]

drained :
    (t u : Target) (b : Bool) → Coherent t → drain t ≡ some (u, b) → Coherent u × (u.name ≡ t.name)
drained t u b c h =
    let k : TargetLoop.step TargetLoop.drains t ≡ some u = unfold TargetLoop.step in ground arith in
    (step-Coherent TargetLoop.drains t u c k, step_name TargetLoop.drains t u k)

drain_cases :
    (t : Target)
    → Coherent t
    → (u : Target) × (b : Bool) × (drain t ≡ some (u, b)) × Coherent u × (u.name ≡ t.name)
drain_cases t c = elim (Option-cases (drain t)) [
  | inl z ↦ absurd (drain_ne t c z)
  | inr ((u, b), h) ↦ let (d, n) = drained t u b c h in (u, b, h, d, n)
]

-- What becomes of a target, and of the time at which it was seen: a group with traffic is seen now;
-- one without keeps the time, and the target is drained if that is too long ago.
abbrev pub Outcome : Bool → Bool → ℕ → Target → Option ℕ → Target → Option ℕ → Type 0
Outcome false expired now t s t' s' = (t' ≡ t) × (s' ≡ some now)
Outcome true false now t s t' s' = (t' ≡ t) × (s' ≡ s)
Outcome true true now t s t' s' = ((b : Bool) × (drain t ≡ some (t', b))) × (s' ≡ s)

abbrev pub Fate : List ℕ → ℕ → Target → Option ℕ → Target → Option ℕ → Type 0
Fate stale now t s t' s' = Outcome (is_stale stale t) (is_expired t s now) now t s t' s'

pub Fate-move :
    (stale : List ℕ) (now : ℕ) {t t₀ u u₀ : Target} {s s₀ r r₀ : Option ℕ}
    → t₀ ≡ t
    → s₀ ≡ s
    → u₀ ≡ u
    → r₀ ≡ r
    → Fate stale now t₀ s₀ u₀ r₀
    → Fate stale now t s u r
Fate-move stale now {t} {t₀} {u} {u₀} {s} {s₀} {r} {r₀} a b c d f =
    subst (λ x. Fate stale now x s u r) a
      (subst (λ x. Fate stale now t₀ x u r) b
        (subst (λ x. Fate stale now t₀ s₀ x r) c (subst (λ x. Fate stale now t₀ s₀ u₀ x) d f)))

module _ {Conn TC FC : Type 0} where
  -- What a round leaves alone.
  pub record Frame (e u : Engine Conn TC FC) : Type 0 where
    pub rest : u ≡ record e { target_at = u.target_at; last_seen = u.last_seen }
    pub names : (j : ℕ) → (u.target_at j).name ≡ (e.target_at j).name
    pub coherent : (j : ℕ) → Coherent (e.target_at j) → Coherent (u.target_at j)

  abbrev pub One : Bool → Bool → ℕ → Text → ℕ → Engine Conn TC FC → Engine Conn TC FC → Type 0
  One stale expired now name i e u =
      Outcome stale expired now (e.target_at i) (lookup name e.last_seen) (u.target_at i)
        (lookup name u.last_seen)
      × ((j : ℕ) → (i ≢ j) → u.target_at j ≡ e.target_at j)
      × ((other : Text) → (name ≢ other) → lookup other u.last_seen ≡ lookup other e.last_seen)
      × Frame e u

  busy_lem :
      (expired : Bool) (now : ℕ) (name : Text) (i : ℕ) (e : Engine Conn TC FC)
      → One false expired now name i e (record e { last_seen = insert name now e.last_seen })
  busy_lem expired now name i e = (
    (refl, ground (arith, lookup-insert name name now e.last_seen, eq_refl name)),
    λ j n. refl,
    λ other n. ground (arith, lookup-insert name other now e.last_seen, eq_iff name other),
    record { rest = refl; names = λ j. refl; coherent = λ j d. d },
  )

  idle_lem : (now : ℕ) (name : Text) (i : ℕ) (e : Engine Conn TC FC) → One true false now name i e e
  idle_lem now name i e = (
    (refl, refl),
    λ j n. refl,
    λ other n. refl,
    record { rest = refl; names = λ j. refl; coherent = λ j d. d },
  )

  drain_lem :
      (now : ℕ) (name : Text) (i : ℕ) (e : Engine Conn TC FC) (t : Target) (b : Bool)
      → Coherent (e.target_at i)
      → drain (e.target_at i) ≡ some (t, b)
      → One true true now name i e (record e { target_at = write e.target_at i t })
  drain_lem now name i e t b c h =
      let (d, n) = drained (e.target_at i) t b c h in
      (
        ((b, ground (arith, eq_refl i)), refl),
        λ j m. ground (arith, eq_iff i j),
        λ other m. refl,
        record {
          rest = refl;
          names = λ j. ground (arith, eq_iff i j);
          coherent = λ j k. write_all Coherent e.target_at i j t d k;
        },
      )

  pub detect_in_lem :
      (stale expired : Bool) (now : ℕ) (name : Text) (i : ℕ) (e : Engine Conn TC FC)
      → Coherent (e.target_at i)
      → (u : Engine Conn TC FC) × (detect_in stale expired now name i e ≡ some u)
        × One stale expired now name i e u
  unfolding detect_in
  detect_in_lem false expired now name i e c = (_, refl, busy_lem expired now name i e)
  detect_in_lem true false now name i e c = (_, refl, idle_lem now name i e)
  detect_in_lem true true now name i e c =
      let (t, b, h, _, _) = drain_cases (e.target_at i) c in
      (record e { target_at = write e.target_at i t }, ground arith, drain_lem now name i e t b c h)
