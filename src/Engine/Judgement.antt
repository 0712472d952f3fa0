-- ===== src/Engine/Judgement.antt =====
-- What becomes of a target in a round of detectTimeouts of pkg/engine/engine.go, by its group, the time
-- that has passed and its timeout.
use proxygw.Prelude.{
  Bool, In, List, Option, [], arith, bool_eq, eq_iff, false, nat_eq, refl, some, text_eq, true, ℕ,
  ◌*◌, ◌-◌, ◌<◌, ◌↔◌, ◌∷◌, ◌≡◌, ◌≤◌,
}
use proxygw.Config.Ttl.{ttl_max, second}
use proxygw.Target.{Target, drain}
use proxygw.Engine.Poll.{is_expired, is_expired_iff, is_stale}
use proxygw.Engine.Rounds.{Outcome, Fate}

-- A target of the list's groups, last seen at `seen`, and what it and that time are afterwards.
pub record Judged (stale : List ℕ) (now seen : ℕ) (t t' : Target) (s' : Option ℕ) : Type 0 where
  pub busy : ¬ In t.group stale → (t' ≡ t) × (s' ≡ some now)
  pub quiet : In t.group stale → s' ≡ some seen
  pub within : In t.group stale → now - seen ≤ t.timeout * second → t' ≡ t
  pub over :
      In t.group stale → t.timeout * second < now - seen → (b : Bool) × (drain t ≡ some (t', b))

is_stale_iff : (stale : List ℕ) (t : Target) → (is_stale stale t ≡ true) ↔ In t.group stale
is_stale_iff [] t = ((λ h. absurd (ground arith)), λ h. absurd h)
is_stale_iff (g ∷ stale) t = ground (arith, is_stale_iff stale t, eq_iff g t.group)

Outcome-Judged :
    (stale : List ℕ) (now seen : ℕ) (t t' : Target) (s' : Option ℕ) (old late : Bool)
    → (old ≡ true) ↔ In t.group stale
    → (late ≡ true) ↔ (t.timeout * second < now - seen)
    → Outcome old late now t (some seen) t' s'
    → Judged stale now seen t t' s'
Outcome-Judged stale now seen t t' s' false late i j o = record {
  busy = λ h. o;
  quiet = λ h. absurd (ground (arith, i.1 h));
  within = λ h l. absurd (ground (arith, i.1 h));
  over = λ h l. absurd (ground (arith, i.1 h));
}
Outcome-Judged stale now seen t t' s' true false i j o = record {
  busy = λ h. absurd (h (i.0 refl));
  quiet = λ h. o.1;
  within = λ h l. o.0;
  over = λ h l. absurd (ground (arith, j.1 l));
}
Outcome-Judged stale now seen t t' s' true true i j o = record {
  busy = λ h. absurd (h (i.0 refl));
  quiet = λ h. o.1;
  within = λ h l. absurd (omega (arith, j.0 refl));
  over = λ h l. o.0;
}

pub Fate-Judged :
    (stale : List ℕ) (now seen : ℕ) (t t' : Target) (s' : Option ℕ)
    → t.timeout ≤ ttl_max
    → Fate stale now t (some seen) t' s'
    → Judged stale now seen t t' s'
Fate-Judged stale now seen t t' s' b f =
    Outcome-Judged stale now seen t t' s' (is_stale stale t) (is_expired t (some seen) now)
      (is_stale_iff stale t) (is_expired_iff t seen now b) f
