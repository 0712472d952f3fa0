-- ===== src/Connft/Group/Disjoint/Lifecycle.antt =====
-- Making and closing groups, and closing the dataplane, keep its invariant.
use proxygw.Prelude.{
  All, All-delete, All-insert, Bool-cases, Dict, List, Option, Option-cases, Text, [], arith,
  bool_eq, delete, false, inl, inr, lookup, lookup-delete, lookup-insert, lookup-insert_self,
  nat_beq, nat_beq_iff, nat_eq, none, refl, subst, suc, sym, text_beq_iff, text_eq, true, values, ℕ,
  ◌<◌, ◌∷◌, ◌≡◌,
}
use proxygw.Dataplane.Mapping.{Mapping}
use proxygw.Connft.Nft.{Nft, DnatKey, dnat_key_eq, ensure_dnat_deleted, ensure_table_deleted}
use proxygw.Connft.State.{Connft, Err, join_err, new_group, new_connft_group, update}
use proxygw.Connft.Group.{
  when_enabled, close_unlocked, close_each, close, del_unlocked, clear_unlocked,
}
use proxygw.Connft.Group.Sync.{Sync}
use proxygw.Connft.Group.Removal.{uninstall_keeps}
use proxygw.Connft.Group.Disjoint.{IsLive, Inv}
use proxygw.Connft.Group.Disjoint.Install.{conn-Inv, del_unlocked-Inv}

module _ (nft : Nft) where
  open nft use {Conn}

  -- Closing forgets the group under its name.
  closed-Inv :
      (d : Connft Conn) (i : ℕ)
      → Inv d
      → IsLive d i
      → Inv (record d {
        store = update d.store i (record (d.store i) { closed = true });
        groups = delete (d.store i).name d.groups;
      })
  closed-Inv d i inv here = record {
    registered = λ name j h. ground (
      arith,
      lookup-delete (d.store i).name name d.groups,
      inv.registered name j,
      nat_beq_iff i j,
      text_beq_iff (d.store i).name name,
    );
    ranged = All-delete (λ e. e.1 < d.next) (d.store i).name d.groups inv.ranged;
    live = λ j h. ground (
      arith,
      lookup-delete (d.store i).name (d.store j).name d.groups,
      inv.live j,
      inv.live i here,
      nat_beq_iff i j,
      text_beq_iff (d.store i).name (d.store j).name,
    );
    sync = λ j h. elim (Bool-cases (nat_beq i j)) [
      | inl e ↦
          rw e (let s = inv.sync i here.0 in record { src = s.src; dst = s.dst; valid = s.valid })
      | inr e ↦ rw e (inv.sync j h)
    ];
    apart = λ j₁ j₂ k l m n h₁ h₂ p q o.
        ground (arith, inv.apart j₁ j₂ k l m n, nat_beq_iff i j₁, nat_beq_iff i j₂);
  }

  All-mono :
      (n : ℕ) (groups : Dict Text ℕ) → All (λ e. e.1 < n) groups → All (λ e. e.1 < suc n) groups
  All-mono n [] h = tt
  All-mono n (e ∷ groups) h = (omega arith, All-mono n groups h.1)

  new_group-Sync : (name : Text) → Sync (new_group name)
  unfolding new_group lookup
  new_group-Sync name = record { src = λ k m h. cc; dst = λ k m h. cc; valid = λ k m h. cc }

  new_group_empty : (name : Text) (k : DnatKey) → lookup k (new_group name).mappings_by_src ≡ none
  unfolding new_group lookup
  new_group_empty name k = refl

  new_group_fields :
      (name : Text) → ((new_group name).name ≡ name) × ((new_group name).closed ≡ false)
  unfolding new_group
  new_group_fields name = (refl, refl)

  pub new-Inv : (d : Connft Conn) (name : Text) → Inv d → Inv (new_connft_group d name).0
  unfolding new_connft_group
  new-Inv d name inv = elim (Bool-cases d.closed) [
    | inl e ↦ simp (e, new_connft_group) inv
    | inr e ↦
        rw (e, new_connft_group)
          (elim (Option-cases (lookup name d.groups)) [
            | inr (i, f) ↦ rw (f, new_connft_group) inv
            | inl f ↦
                rw (f, new_connft_group)
                  (record {
                    registered = λ other j h. ground (
                      arith,
                      lookup-insert name other d.next d.groups,
                      inv.registered other j,
                      new_group_fields name,
                      nat_beq_iff d.next j,
                      text_beq_iff name other,
                    );
                    ranged =
                        All-insert (λ e. e.1 < suc d.next) name d.next d.groups (omega arith)
                          (All-mono d.next d.groups inv.ranged);
                    live = λ j h. ground (
                      arith,
                      new_group_fields name,
                      nat_beq_iff d.next j,
                      inv.live j,
                      lookup-insert name (d.store j).name d.next d.groups,
                      lookup-insert_self name d.next d.groups,
                      text_beq_iff name (d.store j).name,
                    );
                    sync = λ j h. elim (Bool-cases (nat_beq d.next j)) [
                      | inl q ↦ rw q (new_group-Sync name)
                      | inr q ↦ rw q (inv.sync j (ground (arith, nat_beq_iff d.next j)))
                    ];
                    apart = λ j₁ j₂ k l m n h₁ h₂ p q o. ground (
                      arith,
                      inv.apart j₁ j₂ k l m n,
                      new_group_empty name k,
                      new_group_empty name l,
                      nat_beq_iff d.next j₁,
                      nat_beq_iff d.next j₂,
                    );
                  })
          ])
  ]

  del_unlocked_keeps :
      (d : Connft Conn) (i : ℕ) (ms : List Mapping)
      → let r = (del_unlocked nft d i ms).0 in
        (r.next ≡ d.next) × (r.groups ≡ d.groups) × ((r.store i).closed ≡ (d.store i).closed)
  unfolding del_unlocked
  del_unlocked_keeps d i [] = (refl, refl, refl)
  del_unlocked_keeps d i (m ∷ ms) =
      let act = when_enabled nft (d.store i).enabled (ensure_dnat_deleted nft (m ∷ ms)) d.conn in
      ground (arith, uninstall_keeps nft (d.store i) (m ∷ ms) act.0, nat_beq_iff i i)

  pub close_unlocked-Inv :
      (d : Connft Conn) (i : ℕ) → Inv d → i < d.next → Inv (close_unlocked nft d i).0
  unfolding close_unlocked clear_unlocked
  close_unlocked-Inv d i inv l =
      let ms = values (d.store i).mappings_by_src in
      elim (Bool-cases (d.store i).closed) [
        | inl e ↦ rw (e, close_unlocked) inv
        | inr e ↦
            rw (e, close_unlocked)
              (closed-Inv (del_unlocked nft d i ms).0 i (del_unlocked-Inv nft d i ms inv l)
                (ground (arith, del_unlocked_keeps d i ms)))
      ]

  close_unlocked_next : (d : Connft Conn) (i : ℕ) → (close_unlocked nft d i).0.next ≡ d.next
  unfolding close_unlocked clear_unlocked
  close_unlocked_next d i =
      ground (arith, del_unlocked_keeps d i (values (d.store i).mappings_by_src))

  close_each-Inv :
      (d : Connft Conn) (groups : Dict Text ℕ) (err : Option Err)
      → Inv d
      → All (λ e. e.1 < d.next) groups
      → Inv (close_each nft d groups err).0
  unfolding close_each
  close_each-Inv d [] err inv h = inv
  close_each-Inv d ((name, i) ∷ groups) err inv h =
      let (d₁, e) = close_unlocked nft d i in
      close_each-Inv d₁ groups (join_err err e) (close_unlocked-Inv d i inv h.0)
        (subst (λ n. All (λ e. e.1 < n) groups) (sym (close_unlocked_next d i)) h.1)

  pub close-Inv : (d : Connft Conn) → Inv d → Inv (close nft d).0
  unfolding close
  close-Inv d inv =
      let shut : Connft Conn = record d { closed = true } in
      let closing = close_each nft shut d.groups none in
      elim (Bool-cases d.closed) [
        | inl e ↦ simp (e, close) inv
        | inr e ↦
            simp (e, close)
              (conn-Inv nft closing.0 (ensure_table_deleted nft closing.0.conn).0 (
                close_each-Inv shut d.groups none
                  (record {
                    registered = inv.registered;
                    ranged = inv.ranged;
                    live = inv.live;
                    sync = inv.sync;
                    apart = inv.apart;
                  })
                  inv.ranged))
      ]
