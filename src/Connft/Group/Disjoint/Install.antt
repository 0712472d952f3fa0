-- ===== src/Connft/Group/Disjoint/Install.antt =====
-- addMappings and delMappings, and the smaller writes, keep the invariant of a dataplane.
use proxygw.Prelude.{
  Bool, In, List, Option-cases, [], ap, arith, bool_eq, false, inl, inr, lookup, nat_eq, none, refl,
  some, sym, text_eq, ℕ, ◌<◌, ◌∙◌, ◌∷◌, ◌≡◌, ◌⊎◌,
}
use proxygw.Dataplane.Mapping.{Mapping, overlaps}
use proxygw.Connft.Nft.{Nft, Flows, DnatKey, dnat_key_eq, ensure_dnat_added, ensure_dnat_deleted}
use proxygw.Connft.State.{Connft, check_conflicts, check_present, all_mappings, update, src_key}
use proxygw.Connft.Group.{install, uninstall, when_enabled, add_unlocked, del_unlocked}
use proxygw.Connft.Group.Conflicts.{check_conflicts-Clearance}
use proxygw.Connft.Group.Sync.{install-lookup, install_keeps, install-Sync}
use proxygw.Connft.Group.Removal.{
  lookup-uninstall, uninstall_keeps, uninstall-Sync, check_present-Removable,
}
use proxygw.Connft.Group.Disjoint.{IsLive, Inv}
use proxygw.Connft.Group.Disjoint.Replace.{Origin, kept, fresh, replace-Inv, all_mappings-In}

module _ (nft : Nft) where
  open nft use {Conn}

  -- The connection stands in no part of the invariant.
  pub conn-Inv : (d : Connft Conn) (c : Conn) → Inv d → Inv (record d { conn = c })
  conn-Inv d c inv = record {
    registered = inv.registered;
    ranged = inv.ranged;
    live = inv.live;
    sync = inv.sync;
    apart = inv.apart;
  }

  module _ (d : Connft Conn) (i : ℕ) (ms : List Mapping) (inv : Inv d) (here : IsLive d i)
      (clear : check_conflicts (all_mappings d d.groups) [] ms ≡ none) where
    apart_from_old :
        (m : Mapping) (j : ℕ) (k : DnatKey) (n : Mapping)
        → In m ms
        → IsLive d j
        → lookup k (d.store j).mappings_by_src ≡ some n
        → overlaps m n ≡ false
    apart_from_old m j k n im lj e =
        (check_conflicts-Clearance (all_mappings d d.groups) ms clear).apart m n im
          (all_mappings-In d d.groups (d.store j).name j k n (inv.live j lj) e)

    install_origin :
        (c : Conn) (k : DnatKey) (x : Mapping)
        → lookup k (install nft (d.store i) ms c).0.mappings_by_src ≡ some x
        → (lookup k (d.store i).mappings_by_src ≡ some x) ⊎ (In x ms × (k ≡ src_key x))
        → Origin d i (install nft (d.store i) ms c).0 k x
    install_origin c k x e (inl h) = kept x h (λ z. refl)
    install_origin c k x e (inr (m, q)) =
        fresh (λ j l n lj f. apart_from_old x j l n m lj f)
          (λ l n f o. elim (install-lookup nft (d.store i) ms c l n f) [
            | inl h ↦ ground (arith, apart_from_old x i l n m here h)
            | inr (m', q') ↦
                q
                ∙ ap src_key
                    ((check_conflicts-Clearance (all_mappings d d.groups) ms clear).pair x n m m' o)
                ∙ sym q'
          ])

    installed-Inv :
        (c c' : Conn)
        → Inv (record d { store = update d.store i (install nft (d.store i) ms c).0; conn = c' })
    installed-Inv c c' =
        let free = check_conflicts-Clearance (all_mappings d d.groups) ms clear in
        let (same_name, same_closed, _) = install_keeps nft (d.store i) ms c in
        replace-Inv d i (install nft (d.store i) ms c).0 c' inv here.0 same_name same_closed
          (λ k x e. install_origin c k x e (install-lookup nft (d.store i) ms c k x e))
          (install-Sync nft (d.store i) ms c (inv.sync i here.0) free.valid free.pair
            (λ m k x im e o. ground (arith, apart_from_old m i k x im here e)))

  uninstalled-Inv :
      (d : Connft Conn) (i : ℕ) (ms : List Mapping) (c c' : Conn)
      → Inv d
      → i < d.next
      → check_present (d.store i) ms ≡ none
      → Inv (record d { store = update d.store i (uninstall nft (d.store i) ms c).0; conn = c' })
  uninstalled-Inv d i ms c c' inv l h =
      let (same_name, same_closed, _) = uninstall_keeps nft (d.store i) ms c in
      replace-Inv d i (uninstall nft (d.store i) ms c).0 c' inv l same_name same_closed
        (λ k x e. kept x (lookup-uninstall nft (d.store i) ms c k x e) (λ z. refl))
        (uninstall-Sync nft (d.store i) ms c (inv.sync i l)
          (check_present-Removable (d.store i) ms h))

  -- A write that leaves the two maps of the group alone.
  pub flag-Inv :
      (d : Connft Conn) (i : ℕ) (b : Bool) (flows : Flows) (c : Conn)
      → Inv d
      → i < d.next
      → Inv (record d {
        store = update d.store i (record (d.store i) { enabled = b; flow_info_by_src = flows });
        conn = c;
      })
  flag-Inv d i b flows c inv l =
      let s = inv.sync i l in
      replace-Inv d i (record (d.store i) { enabled = b; flow_info_by_src = flows }) c inv l refl
        refl (λ k x e. kept x e (λ z. refl)) (record { src = s.src; dst = s.dst; valid = s.valid })

  pub add_unlocked-Inv :
      (d : Connft Conn) (i : ℕ) (ms : List Mapping)
      → Inv d
      → IsLive d i
      → Inv (add_unlocked nft d i ms).0
  unfolding add_unlocked
  add_unlocked-Inv d i [] inv l = inv
  add_unlocked-Inv d i (m ∷ ms) inv l =
      let act = when_enabled nft (d.store i).enabled (ensure_dnat_added nft (m ∷ ms)) d.conn in
      elim (Option-cases (check_conflicts (all_mappings d d.groups) [] (m ∷ ms))) [
        | inr (x, e) ↦ rw (e, add_unlocked) inv
        | inl e ↦
            rw (e, add_unlocked)
              (elim (Option-cases act.1) [
                | inr (x, f) ↦ rw f (conn-Inv d act.0 inv)
                | inl f ↦ rw f (
                    installed-Inv d i (m ∷ ms) inv l e act.0
                      (install nft (d.store i) (m ∷ ms) act.0).1)
              ])
      ]

  pub del_unlocked-Inv :
      (d : Connft Conn) (i : ℕ) (ms : List Mapping)
      → Inv d
      → i < d.next
      → Inv (del_unlocked nft d i ms).0
  unfolding del_unlocked
  del_unlocked-Inv d i [] inv l = inv
  del_unlocked-Inv d i (m ∷ ms) inv l =
      let act = when_enabled nft (d.store i).enabled (ensure_dnat_deleted nft (m ∷ ms)) d.conn in
      elim (Option-cases (check_present (d.store i) (m ∷ ms))) [
        | inr (x, e) ↦ rw (e, del_unlocked) inv
        | inl e ↦
            rw (e, del_unlocked)
              (elim (Option-cases act.1) [
                | inr (x, f) ↦ rw f (conn-Inv d act.0 inv)
                | inl f ↦ rw f (
                    uninstalled-Inv d i (m ∷ ms) act.0 (uninstall nft (d.store i) (m ∷ ms) act.0).1
                      inv l e)
              ])
      ]
