-- ===== src/Connft/Stale/Traffic.antt =====
-- A group is stale exactly when no flow goes to a destination of it.
use proxygw.Prelude.{
  All, Bool, Dict, In, In-filter, List, Option-cases, Text, [], ap, arith, bool_eq, false, filter,
  inl, inr, lookup, lookup-entry, nat_eq, not, refl, some, subst, text_eq, true, values, ℕ, ◌↔◌,
  ◌∷◌, ◌≡◌, ◌≢◌, ◌⊎◌,
}
use proxygw.Dataplane.Mapping.{Mapping}
use proxygw.Connft.Nft.{dnat_key_eq}
use proxygw.Connft.State.{Connft, Group, src_key}
use proxygw.Connft.Group.Sync.{Sync}
use proxygw.Connft.Group.Disjoint.{IsLive, Inv}
use proxygw.Connft.Stale.{Flow, flow_key, is_seen, not_seen, stale_groups}

-- The flow goes to the destination of a mapping of the group.
abbrev pub Hits : Flow → Group → Type 0
Hits f g =
    (m : Mapping) × (lookup (src_key m) g.mappings_by_src ≡ some m)
    × (m.destination ≡ f.address)
    × (m.protocol ≡ f.proto)

module _ {Conn : Type 0} (d : Connft Conn) where
  is_seen-Hits : (f : Flow) (i : ℕ) → Sync (d.store i) → is_seen d f i ≡ true → Hits f (d.store i)
  unfolding is_seen
  is_seen-Hits f i s h = elim (Option-cases (lookup (flow_key f) (d.store i).mappings_by_dst)) [
    | inl e ↦ absurd (ground (arith, e))
    | inr (m, e) ↦
        let (k, l) = s.dst (flow_key f) m e in (m, l, ground (arith, k), ground (arith, k))
  ]

  Hits-is_seen : (f : Flow) (i : ℕ) → Sync (d.store i) → Hits f (d.store i) → is_seen d f i ≡ true
  unfolding is_seen
  Hits-is_seen f i s (m, l, p, q) = ground (arith, s.src (src_key m) m l)

  In-values : (groups : Dict Text ℕ) (i : ℕ) → In i (values groups) → (n : Text) × In (n, i) groups
  In-values [] i m = absurd m
  In-values ((n, j) ∷ groups) i (inl e) = (n, inl (ap (λ k. (n, k)) e))
  In-values ((n, j) ∷ groups) i (inr m) = let (k, l) = In-values groups i m in (k, inr l)

  values-In : (groups : Dict Text ℕ) (n : Text) (i : ℕ) → In (n, i) groups → In i (values groups)
  values-In (e ∷ groups) n i (inl q) = inl (ap (λ e. e.1) q)
  values-In (e ∷ groups) n i (inr m) = inr (values-In groups n i m)
  values-In [] n i m = absurd m

  not_seen_iff :
      (flows : List Flow) (groups : Dict Text ℕ) (e : Text × ℕ)
      → In e (not_seen d flows groups) ↔ (In e groups × All (λ f. is_seen d f e.1 ≡ false) flows)
  unfolding not_seen
  not_seen_iff [] groups e = ground arith
  not_seen_iff (f ∷ flows) [] e = ((λ m. absurd m), λ m. m.0)
  not_seen_iff (f ∷ flows) (g ∷ groups) e = ground (
    arith,
    not_seen_iff flows (filter (λ e. not (is_seen d f e.1)) (g ∷ groups)) e,
    In-filter (λ e. not (is_seen d f e.1)) (g ∷ groups) e,
  )

  unseen_iff :
      (flows : List Flow) (i : ℕ)
      → Sync (d.store i)
      → All (λ f. is_seen d f i ≡ false) flows ↔ All (λ f. ¬ Hits f (d.store i)) flows
  unseen_iff [] i s = ((λ h. tt), λ h. tt)
  unseen_iff (f ∷ flows) i s =
      let rest = unseen_iff flows i s in
      (
        (λ h. ((λ hit. ground (arith, Hits-is_seen f i s hit)), rest.0 h.1)),
        λ h. (unhit (is_seen d f i) refl h.0, rest.1 h.1),
      )
    where
      unhit : (b : Bool) → is_seen d f i ≡ b → ¬ Hits f (d.store i) → is_seen d f i ≡ false
      unhit true e n = absurd (n (is_seen-Hits f i s e))
      unhit false e n = e

  stale_ids_iff :
      (flows : List Flow) (i : ℕ)
      → Inv d
      → IsLive d i
      → In i (values (not_seen d flows d.groups)) ↔ All (λ f. ¬ Hits f (d.store i)) flows
  stale_ids_iff flows i inv live =
      let s = inv.sync i live.0 in
      let name = (d.store i).name in
      let there = lookup-entry name i d.groups (inv.live i live) in
      (
        (λ m.
            let (n, e) = In-values (not_seen d flows d.groups) i m in
            (unseen_iff flows i s).0 ((not_seen_iff flows d.groups (n, i)).0 e).1),
        λ h.
            values-In (not_seen d flows d.groups) name i
              ((not_seen_iff flows d.groups (name, i)).1 (there, (unseen_iff flows i s).1 h)),
      )

inl-injective : {A B : Type 0} {x y : A} → ◌≡◌ {A = A ⊎ B} (inl x) (inl y) → x ≡ y
inl-injective h = cc

-- StaleGroups, over a dump of flows without an error, returns an open group exactly if no flow
-- of the dump goes to the destination of one of the group's mappings; the dataplane had a group
-- when the call began, and holds the invariant of connft_coherent when it looks at the flows.
pub stale_iff :
    {Conn : Type 0} (d d' : Connft Conn) (flows : List Flow) (ids : List ℕ) (i : ℕ)
    → Inv d'
    → IsLive d' i
    → d.groups ≢ []
    → stale_groups d (inl flows) d' ≡ inl ids
    → In i ids ↔ All (λ f. ¬ Hits f (d'.store i)) flows
unfolding stale_groups lookup
stale_iff d d' flows ids i inv live some_group h =
    let e : values (not_seen d' flows d'.groups) ≡ ids = ground (arith, inv.live i live) in
    subst (λ l. In i l ↔ All (λ f. ¬ Hits f (d'.store i)) flows) e
      (stale_ids_iff d' flows i inv live)
