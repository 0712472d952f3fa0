-- ===== src/Engine/Poll.antt =====
-- The event loop of pkg/engine/engine.go: `start` and detectTimeouts. A time is a number of
-- nanoseconds since Go's zero time, which is what a missing key reads.
use proxygw.Prelude.{
  Bool, Dict, List, Option, Text, [], any, arith, bool_eq, false, if◌then◌else◌, inl, inr, insert,
  lookup, ltb, nat_eq, none, some, text_eq, true, ℕ, ◌*◌, ◌-◌, ◌<◌, ◌==◌, ◌^◌, ◌↔◌, ◌∷◌, ◌≡◌, ◌≤◌,
  ◌⊎◌,
}
use proxygw.Config.Ttl.{to_duration, ttl_max, second, parse-to_duration}
use proxygw.Connft.State.{Connft}
use proxygw.Connft.State
use proxygw.Connft.Stale.{Flow, stale_groups}
use proxygw.Target.{Target, drain}
use proxygw.Engine.{Engine, write, close}

-- `t.Sub(u)`, which stops at the largest duration; a negative result is never longer than a timeout
-- and stands as 0.
sub : ℕ → ℕ → ℕ
sub t u = if ltb (t - u) (2 ^ 63) then t - u else 2 ^ 63 - 1

abbrev or_zero : Option ℕ → ℕ
or_zero none = 0
or_zero (some t) = t

-- The target was last seen at `seen`.
unfoldable pub is_expired : Target → Option ℕ → ℕ → Bool
unfolding sub
is_expired t seen now = ltb (to_duration t.timeout) (sub now (or_zero seen))

-- A target is expired exactly when more nanoseconds have passed than its timeout has, in seconds.
pub is_expired_iff :
    (t : Target) (seen now : ℕ)
    → t.timeout ≤ ttl_max
    → (is_expired t (some seen) now ≡ true) ↔ (t.timeout * second < now - seen)
unfolding is_expired sub
is_expired_iff t seen now h = ground (arith, parse-to_duration t.timeout h)

-- `slices.Contains(stale, target.Group())`
abbrev pub is_stale : List ℕ → Target → Bool
is_stale stale t = any (λ g. g == t.group) stale

module _ {Conn TC FC : Type 0} where
  -- One round over a target, with the two tests: the group is stale, and the target was not seen
  -- for longer than its timeout. `none` where Drain blocks.
  unfoldable pub detect_in :
      Bool → Bool → ℕ → Text → ℕ → Engine Conn TC FC → Option (Engine Conn TC FC)
  detect_in false expired now name i e = some (record e { last_seen = insert name now e.last_seen })
  detect_in true false now name i e = some e
  detect_in true true now name i e = elim (drain (e.target_at i)) [
    | none ↦ none
    | some (t, ok) ↦ some (record e { target_at = write e.target_at i t })
  ]

  unfoldable pub detect_one : List ℕ → ℕ → Text → ℕ → Engine Conn TC FC → Option (Engine Conn TC FC)
  detect_one stale now name i e =
      detect_in (is_stale stale (e.target_at i))
        (is_expired (e.target_at i) (lookup name e.last_seen) now) now name i e

  -- A round over all targets. The engine is locked, and the lock of a target is free before and behind
  -- its turn: a step that a target takes in the middle of a round stands here before or behind it.
  unfoldable pub detect_each :
      List ℕ → ℕ → Dict Text ℕ → Engine Conn TC FC → Option (Engine Conn TC FC)
  detect_each stale now [] e = some e
  detect_each stale now ((name, i) ∷ targets) e = elim (detect_one stale now name i e) [
    | none ↦ none
    | some e' ↦ detect_each stale now targets e'
  ]

  unfoldable pub detect_timeouts : List ℕ → ℕ → Engine Conn TC FC → Option (Engine Conn TC FC)
  detect_timeouts stale now e = detect_each stale now e.targets e

  -- One tick: an error of StaleGroups is only logged. No lock is held around the whole, so the
  -- dataplane may change within StaleGroups, and behind it.
  poll :
      Connft Conn
      → List Flow ⊎ State.Err
      → Connft Conn
      → ℕ
      → Engine Conn TC FC
      → Option (Engine Conn TC FC)
  poll before dump after now e = elim (stale_groups before dump after) [
    | inr x ↦ some e
    | inl stale ↦ detect_timeouts stale now e
  ]

  -- The branch on the cancelled context, and the deferred Close.
  see_cancel : Engine Conn TC FC → Option (Engine Conn TC FC)
  see_cancel e = if e.cancelled then some (close e) else none
