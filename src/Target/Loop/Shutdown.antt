-- ===== src/Target/Loop/Shutdown.antt =====
-- A target of pkg/target/target.go that is closed ends: its loop takes finitely many steps, and has a
-- next one until it has ended.
use proxygw.Prelude.{
  Option-cases, arith, inl, inr, length, none, some, suc, true, zero, ℕ, ◌*◌, ◌+◌, ◌<◌, ◌∙◌, ◌≡◌,
  ◌≢◌, ◌≤◌, ◌⊎◌,
}
use proxygw.Target.{Target, closed, Phase, waiting, received, handling, ending, closing, ended}
use proxygw.Target.Loop.{
  LoopAction, loop_step, receives, sees_cancel, checks, begins_end, finishes, ends,
}
use proxygw.Target.Loop.Invariant.{Coherent, Reach, target-Coherent, loop_step-Coherent}

-- How many steps the loop of a closed target can still take.
abbrev phase_rank : Phase → ℕ
phase_rank waiting = 3
phase_rank (received r) = 5
phase_rank (handling r) = 4
phase_rank ending = 2
phase_rank closing = 1
phase_rank ended = 0

abbrev pub rank : Target → ℕ
rank t = phase_rank t.loop + 3 * length t.requests

loop_rank :
    (a : LoopAction) (t u : Target)
    → t.state ≡ closed
    → loop_step a t ≡ some u
    → (u.state ≡ closed) × (u.cancelled ≡ t.cancelled) × (rank u < rank t)
unfolding loop_step
loop_rank receives t u c h = ground arith
loop_rank sees_cancel t u c h = ground arith
loop_rank checks t u c h = ground arith
loop_rank begins_end t u c h = ground arith
loop_rank (finishes e g) t u c h = ground arith
loop_rank (ends e g) t u c h = ground arith

-- Steps of the loop alone, with their number.
pub data LoopRun : ℕ → Target → Target → Type 0 where
  done : {t : Target} → LoopRun 0 t t
  next :
      {n : ℕ} {t u v : Target} (a : LoopAction)
      → loop_step a t ≡ some u
      → LoopRun n u v
      → LoopRun (suc n) t v

run_rank : {n : ℕ} {t v : Target} → LoopRun n t v → t.state ≡ closed → n + rank v ≤ rank t
run_rank done c = omega arith
run_rank (next {n} {t} {u} {v} a h r) c =
    let (k, _, l) = loop_rank a t u c h in omega (arith, run_rank r k)

-- The step that the loop of a closed and cancelled target takes next, if the handler and the group
-- answer with no error.
abbrev next_action : Phase → LoopAction
next_action waiting = sees_cancel
next_action (received r) = checks
next_action (handling r) = finishes none none
next_action ending = begins_end
next_action closing = ends none none
next_action ended = receives

next_step :
    (t : Target)
    → Coherent t
    → t.state ≡ closed
    → t.cancelled ≡ true
    → t.loop ≢ ended
    → loop_step (next_action t.loop) t ≢ none
unfolding loop_step
next_step t c s k n h = ground arith

rank_bound : (t : Target) → Coherent t → rank t ≤ 8
rank_bound t c = ground arith

phase_ended : (p : Phase) → (p ≡ ended) ⊎ (p ≢ ended)
phase_ended p = ground arith

ends_within :
    (n : ℕ) (t : Target)
    → Coherent t
    → t.state ≡ closed
    → t.cancelled ≡ true
    → rank t < n
    → (k : ℕ) × (u : Target) × LoopRun k t u × (u.loop ≡ ended)
ends_within zero t c s k r = absurd (omega (arith, r))
ends_within (suc n) t c s k r = elim (phase_ended t.loop) [
  | inl e ↦ (0, t, done, e)
  | inr e ↦ elim (Option-cases (loop_step (next_action t.loop) t)) [
    | inl z ↦ absurd (next_step t c s k e z)
    | inr (u, h) ↦
        let (s', k', l) = loop_rank (next_action t.loop) t u s h in
        let (m, v, run, e') =
          ends_within n u (loop_step-Coherent (next_action t.loop) t u c h) s' (k' ∙ k)
            (omega (arith, l, r)) in
        (suc m, v, next (next_action t.loop) h run, e')
  ]
]

-- No run of the loop of a closed target, which the steps lead to, takes more than eight steps,
-- whatever the handler and the group answer.
pub closed_runs_bounded :
    {n : ℕ} {t v : Target} → Reach t → t.state ≡ closed → LoopRun n t v → n ≤ 8
closed_runs_bounded {n} {t} r s run =
    omega (arith, run_rank run s, rank_bound t (target-Coherent r))

-- From a target that the steps lead to and that is closed with its context cancelled, some run of the
-- loop takes it to its end.
pub closed_ends :
    {t : Target}
    → Reach t
    → t.state ≡ closed
    → t.cancelled ≡ true
    → (k : ℕ) × (u : Target) × LoopRun k t u × (u.loop ≡ ended)
closed_ends {t} r s k =
    ends_within 9 t (target-Coherent r) s k (omega (arith, rank_bound t (target-Coherent r)))
