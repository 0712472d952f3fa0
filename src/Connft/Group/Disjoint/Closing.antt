-- ===== src/Connft/Group/Disjoint/Closing.antt =====
-- Close of pkg/dataplane/connft/connft.go closes every group.
use proxygw.Prelude.{
  Bool-cases, Dict, In, List, Option, Text, [], arith, bool_eq, eq_iff, eq_refl, false, inl, inr,
  lookup-In, nat_eq, none, refl, subst, sym, text_eq, true, values, ℕ, ◌∙◌, ◌∷◌, ◌≡◌,
}
use proxygw.Dataplane.Mapping.{Mapping}
use proxygw.Connft.Nft.{Nft, ensure_dnat_deleted}
use proxygw.Connft.State.{Connft, Err, join_err, new_connft_group}
use proxygw.Connft.Group.{
  when_enabled, add_unlocked, del_unlocked, clear_unlocked, close_unlocked, close_each, close,
  add_mappings, del_mappings, clear_mappings, set_timeout, enable, disable,
}
use proxygw.Connft.Group.Removal.{uninstall_keeps}
use proxygw.Connft.Group.Disjoint.{IsLive, Inv}
use proxygw.Connft.Group.Disjoint.History.{
  Reach, connft_coherent, start, new, add, del, clear, retime, on, off, close_group, close_all,
}

module _ (nft : Nft) where
  open nft use {Conn}

  -- The store of `u` has the groups of `d`, and at least those closed that `d` has.
  record Closes (d u : Connft Conn) : Type 0 where
    next : u.next ≡ d.next
    kept : (j : ℕ) → (d.store j).closed ≡ true → (u.store j).closed ≡ true

  del_unlocked-closed :
      (d : Connft Conn) (i j : ℕ) (ms : List Mapping)
      → ((del_unlocked nft d i ms).0.store j).closed ≡ (d.store j).closed
  unfolding del_unlocked
  del_unlocked-closed d i j [] = refl
  del_unlocked-closed d i j (m ∷ ms) =
      let act = when_enabled nft (d.store i).enabled (ensure_dnat_deleted nft (m ∷ ms)) d.conn in
      ground (arith, uninstall_keeps nft (d.store i) (m ∷ ms) act.0, eq_iff i j)

  del_unlocked-next :
      (d : Connft Conn) (i : ℕ) (ms : List Mapping) → (del_unlocked nft d i ms).0.next ≡ d.next
  unfolding del_unlocked
  del_unlocked-next d i [] = refl
  del_unlocked-next d i (m ∷ ms) = ground arith

  close_unlocked-Closes : (d : Connft Conn) (i : ℕ) → Closes d (close_unlocked nft d i).0
  unfolding close_unlocked clear_unlocked
  close_unlocked-Closes d i =
      let ms = values (d.store i).mappings_by_src in
      record {
        next = ground (arith, del_unlocked-next d i ms);
        kept = λ j h. ground (arith, del_unlocked-closed d i j ms);
      }

  close_unlocked-closed :
      (d : Connft Conn) (i : ℕ) → ((close_unlocked nft d i).0.store i).closed ≡ true
  unfolding close_unlocked
  close_unlocked-closed d i = ground (arith, eq_refl i)

  close_each-Closes :
      (d : Connft Conn) (groups : Dict Text ℕ) (err : Option Err)
      → Closes d (close_each nft d groups err).0
  unfolding close_each
  close_each-Closes d [] err = record { next = refl; kept = λ j h. h }
  close_each-Closes d ((name, i) ∷ groups) err =
      let (d₁, e) = close_unlocked nft d i in
      let one = close_unlocked-Closes d i in
      let rest = close_each-Closes d₁ groups (join_err err e) in
      record { next = rest.next ∙ one.next; kept = λ j h. rest.kept j (one.kept j h) }

  close_each-closed :
      (d : Connft Conn) (groups : Dict Text ℕ) (err : Option Err) (i : ℕ)
      → In i (values groups)
      → ((close_each nft d groups err).0.store i).closed ≡ true
  unfolding close_each
  close_each-closed d [] err i m = absurd m
  close_each-closed d ((name, j) ∷ groups) err i (inl e) =
      let (d₁, x) = close_unlocked nft d j in
      (close_each-Closes d₁ groups (join_err err x)).kept i
        (subst (λ k. (d₁.store k).closed ≡ true) (sym e) (close_unlocked-closed d j))
  close_each-closed d ((name, j) ∷ groups) err i (inr m) =
      let (d₁, x) = close_unlocked nft d j in close_each-closed d₁ groups (join_err err x) i m

  close_open : (d : Connft Conn) → Inv d → d.closed ≡ false → (i : ℕ) → ¬ IsLive (close nft d).0 i
  unfolding close
  close_open d v o i live =
      let shut : Connft Conn = record d { closed = true } in
      let all = close_each-Closes shut d.groups none in
      elim (Bool-cases (d.store i).closed) [
        | inl c ↦ absurd (ground (arith, all.kept i c))
        | inr c ↦ absurd (
            ground (
              arith,
              close_each-closed shut d.groups none i
                  (lookup-In (d.store i).name i d.groups (v.live i (ground (arith, all.next), c))),
            ))
      ]

  -- A closed dataplane has no open group.
  abbrev Shut : Connft Conn → Type 0
  Shut d = d.closed ≡ true → (i : ℕ) → ¬ IsLive d i

  -- A call that a closed dataplane refuses.
  refused-Shut :
      (d u : Connft Conn) → Shut d → (d.closed ≡ true → u ≡ d) → u.closed ≡ d.closed → Shut u
  refused-Shut d u s same keep c =
      subst (λ x. (i : ℕ) → ¬ IsLive x i) (sym (same (sym keep ∙ c))) (s (sym keep ∙ c))

  add_unlocked_closed :
      (d : Connft Conn) (k : ℕ) (ms : List Mapping) → (add_unlocked nft d k ms).0.closed ≡ d.closed
  unfolding add_unlocked
  add_unlocked_closed d k [] = refl
  add_unlocked_closed d k (m ∷ ms) = ground arith

  del_unlocked_closed :
      (d : Connft Conn) (k : ℕ) (ms : List Mapping) → (del_unlocked nft d k ms).0.closed ≡ d.closed
  unfolding del_unlocked
  del_unlocked_closed d k [] = refl
  del_unlocked_closed d k (m ∷ ms) = ground arith

  reach-Shut : {d : Connft Conn} → Reach nft d → Shut d
  unfolding new_connft_group add_mappings del_mappings clear_mappings clear_unlocked set_timeout
      enable disable close_unlocked close
  reach-Shut (start store c) = λ h. cc
  reach-Shut (new {d} name r) =
      refused-Shut d (new_connft_group d name).0 (reach-Shut r) (λ h. ground arith) (ground arith)
  reach-Shut (add {d} k ms l r) =
      refused-Shut d (add_mappings nft d k ms).0 (reach-Shut r) (λ h. ground arith)
        (ground (arith, add_unlocked_closed d k ms))
  reach-Shut (del {d} k ms l r) =
      refused-Shut d (del_mappings nft d k ms).0 (reach-Shut r) (λ h. ground arith)
        (ground (arith, del_unlocked_closed d k ms))
  reach-Shut (clear {d} k l r) =
      refused-Shut d (clear_mappings nft d k).0 (reach-Shut r) (λ h. ground arith)
        (ground (arith, del_unlocked_closed d k (values (d.store k).mappings_by_src)))
  reach-Shut (retime {d} k protocol source ttl l r) =
      refused-Shut d (set_timeout nft d k protocol source ttl).0 (reach-Shut r) (λ h. ground arith)
        (ground arith)
  reach-Shut (on {d} k l r) =
      refused-Shut d (enable nft d k).0 (reach-Shut r) (λ h. ground arith) (ground arith)
  reach-Shut (off {d} k l r) =
      refused-Shut d (disable nft d k).0 (reach-Shut r) (λ h. ground arith) (ground arith)
  reach-Shut (close_group {d} k l r) =
      refused-Shut d (close_unlocked nft d k).0 (reach-Shut r)
        (λ h. elim (Bool-cases (d.store k).closed) [
          | inl c ↦ ground arith
          | inr c ↦ absurd (reach-Shut r h k (l, c))
        ])
        (ground (arith, del_unlocked_closed d k (values (d.store k).mappings_by_src)))
  reach-Shut (close_all {d} r) = elim (Bool-cases d.closed) [
    | inl c ↦ refused-Shut d (close nft d).0 (reach-Shut r) (λ h. ground arith) (ground arith)
    | inr c ↦ λ h. close_open d (connft_coherent nft r) c
  ]

  close_each_shut :
      (d : Connft Conn) (groups : Dict Text ℕ) (err : Option Err)
      → (close_each nft d groups err).0.closed ≡ d.closed
  unfolding close_each close_unlocked clear_unlocked
  close_each_shut d [] err = refl
  close_each_shut d ((name, k) ∷ groups) err =
      let (d₁, e) = close_unlocked nft d k in
      close_each_shut d₁ groups (join_err err e)
      ∙ ground (arith, del_unlocked_closed d k (values (d.store k).mappings_by_src))

  pub close-closed : (d : Connft Conn) → (close nft d).0.closed ≡ true
  unfolding close
  close-closed d =
      let shut : Connft Conn = record d { closed = true } in
      ground (arith, close_each_shut shut d.groups none)

  -- Close of a dataplane, after any calls on it and its groups, closes it and every group that it
  -- has made, whatever the kernel answers.
  pub close_closes_all :
      {d : Connft Conn}
      → Reach nft d
      → ((close nft d).0.closed ≡ true) × ((i : ℕ) → ¬ IsLive (close nft d).0 i)
  close_closes_all {d} r = (close-closed d, reach-Shut (close_all r) (close-closed d))
