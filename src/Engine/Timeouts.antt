-- ===== src/Engine/Timeouts.antt =====
-- detectTimeouts of pkg/engine/engine.go: what it does to each target.
use proxygw.Prelude.{
  Dict, List, Text, Unique, [], ap, arith, bool_eq, eq_iff, eq_refl, inl, inr, lookup, nat_eq, none,
  refl, some, subst, sym, text_eq, ℕ, ◌∙◌, ◌∷◌, ◌≡◌, ◌≢◌, ◌⊎◌,
}
use proxygw.Target.Loop.Invariant.{Coherent}
use proxygw.Engine.{Engine}
use proxygw.Engine.Poll.{is_expired, is_stale, detect_in, detect_one, detect_each, detect_timeouts}
use proxygw.Engine.Invariant.{Inv}
use proxygw.Engine.Rounds.{Fate, Fate-move, Frame, detect_in_lem}

outside :
    (n name : Text) (k : ℕ) (m : Dict Text ℕ)
    → lookup name ((n, k) ∷ m) ≡ none
    → (n ≢ name) × (lookup name m ≡ none)
unfolding lookup
outside n name k m h = ground (arith, eq_iff n name)

inside :
    (n name : Text) (k i : ℕ) (m : Dict Text ℕ)
    → lookup name ((n, k) ∷ m) ≡ some i
    → ((n ≡ name) × (k ≡ i)) ⊎ (lookup name m ≡ some i)
unfolding lookup
inside n name k i m h = ground (arith, eq_iff n name)

module _ {Conn TC FC : Type 0} where
  -- The entries of `m` lead to targets that have the name.
  abbrev Listed : Dict Text ℕ → Engine Conn TC FC → Type 0
  Listed m e =
      (name : Text) (i : ℕ)
      → lookup name m ≡ some i
      → Coherent (e.target_at i) × ((e.target_at i).name ≡ name)

  -- Another entry of the map has another name and another target.
  apart :
      (n : Text) (k : ℕ) (m : Dict Text ℕ) (e : Engine Conn TC FC)
      → Listed ((n, k) ∷ m) e
      → Unique ((n, k) ∷ m)
      → (name : Text) (i : ℕ) → lookup name m ≡ some i
      → (n ≢ name) × (k ≢ i) × (lookup name ((n, k) ∷ m) ≡ some i)
  unfolding lookup Unique
  apart n k m e l q name i h =
      let ne : n ≢ name = λ p. cc in
      let there : lookup name ((n, k) ∷ m) ≡ some i = ground (arith, eq_iff n name) in
      let here : lookup n ((n, k) ∷ m) ≡ some k = ground (arith, eq_refl n) in
      let (_, a) = l name i there in
      let (_, b) = l n k here in
      (ne, (λ p. ne (sym b ∙ ap (λ x. (e.target_at x).name) p ∙ a)), there)

  Frame-trans : (e e' u : Engine Conn TC FC) → Frame e e' → Frame e' u → Frame e u
  Frame-trans e e' u f g = record {
    rest =
        g.rest
        ∙ ap {A = Engine Conn TC FC}
            (λ x. record x { target_at = u.target_at; last_seen = u.last_seen }) f.rest;
    names = λ j. g.names j ∙ f.names j;
    coherent = λ j c. g.coherent j (f.coherent j c);
  }

  detect_cons :
      (stale : List ℕ) (now : ℕ) (n : Text) (k : ℕ) (m : Dict Text ℕ) (e e' u : Engine Conn TC FC)
      → detect_in
          (is_stale stale (e.target_at k))
          (is_expired (e.target_at k) (lookup n e.last_seen) now)
          now
          n
          k
          e
        ≡ some e'
      → detect_each stale now m e' ≡ some u
      → detect_each stale now ((n, k) ∷ m) e ≡ some u
  unfolding detect_each detect_one
  detect_cons stale now n k m e e' u h g = rw (detect_each, detect_one, h) g

  detect_each_lem :
      (stale : List ℕ) (now : ℕ) (m : Dict Text ℕ) (e : Engine Conn TC FC)
      → Listed m e
      → Unique m
      → (u : Engine Conn TC FC) × (detect_each stale now m e ≡ some u)
        × Frame e u
        × ((j : ℕ) → lookup (e.target_at j).name m ≡ none → u.target_at j ≡ e.target_at j)
        × ((name : Text) → lookup name m ≡ none → lookup name u.last_seen ≡ lookup name e.last_seen)
        × ((name : Text) (i : ℕ)
            → lookup name m ≡ some i
            → Fate stale now
                (e.target_at i)
                (lookup name e.last_seen)
                (u.target_at i)
                (lookup name u.last_seen))
  unfolding detect_each lookup Unique
  detect_each_lem stale now [] e l q = (
    e,
    refl,
    record { rest = refl; names = λ j. refl; coherent = λ j d. d },
    λ j h. refl,
    λ name h. refl,
    λ name i h. cc,
  )
  detect_each_lem stale now ((n, k) ∷ m) e l q =
      let (c, at_k) = l n k (ground (arith, eq_refl n)) in
      let (e', h, (fate, objects, times, frame)) =
        detect_in_lem (is_stale stale (e.target_at k))
          (is_expired (e.target_at k) (lookup n e.last_seen) now) now n k e c in
      let listed : Listed m e' = λ name i g.
        let (_, _, there) = apart n k m e l q name i g in
        let (d, a) = l name i there in (frame.coherent i d, frame.names i ∙ a) in
      let (u, h', frame', objects', times', fates) = detect_each_lem stale now m e' listed q.1 in
      (
        u,
        detect_cons stale now n k m e e' u h h',
        Frame-trans e e' u frame frame',
        λ j z.
            let (ne, out) = outside n (e.target_at j).name k m z in
            objects' j (ap (λ x. lookup x m) (frame.names j) ∙ out)
            ∙ objects j (λ p. ne (sym at_k ∙ ap (λ x. (e.target_at x).name) p)),
        λ name z. let (ne, out) = outside n name k m z in times' name out ∙ times name ne,
        λ name i z. elim (inside n name k i m z) [
          | inl (p, r) ↦
              subst
                (λ x.
                  Fate stale now (e.target_at i) (lookup x e.last_seen) (u.target_at i)
                    (lookup x u.last_seen))
                p
                (subst
                  (λ x.
                    Fate stale now (e.target_at x) (lookup n e.last_seen) (u.target_at x)
                      (lookup n u.last_seen))
                  r
                  (Fate-move stale now refl refl
                    (sym (objects' k (ap (λ x. lookup x m) (frame.names k ∙ at_k) ∙ q.0)))
                    (sym (times' n q.0)) fate))
          | inr g ↦
              let (ne, nk, _) = apart n k m e l q name i g in
              Fate-move stale now (objects i nk) (times name ne) refl refl (fates name i g)
        ],
      )

  -- detectTimeouts of an engine in which names lead to targets of that name, each in a state that
  -- Coherent admits: it returns, with every target as Fate says, and nothing else changed.
  pub detect_timeouts_lem :
      (stale : List ℕ) (now : ℕ) (e : Engine Conn TC FC)
      → Inv e
      → (u : Engine Conn TC FC) × (detect_timeouts stale now e ≡ some u)
        × Frame e u
        × ((name : Text)
            → lookup name e.targets ≡ none
            → lookup name u.last_seen ≡ lookup name e.last_seen)
        × ((name : Text) (i : ℕ)
            → lookup name e.targets ≡ some i
            → Fate stale now
                (e.target_at i)
                (lookup name e.last_seen)
                (u.target_at i)
                (lookup name u.last_seen))
  unfolding detect_timeouts
  detect_timeouts_lem stale now e v =
      let (u, h, frame, _, times, fates) =
        detect_each_lem stale now e.targets e
          (λ name i k. let (l, n) = v.targets name i k in (v.target i l, n)) v.targets_unique in
      (u, h, frame, times, fates)
