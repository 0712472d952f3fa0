-- ===== src/Connft/Group/Removal.antt =====
-- Deleting mappings keeps the two maps of a group in pkg/dataplane/connft/connft_group.go the same.
use proxygw.Prelude.{
  All, List, Option-cases, [], arith, bool_eq, delete, inl, inr, lookup, lookup-delete, nat_eq,
  none, refl, some, text_eq, ◌∷◌, ◌≡◌,
}
use proxygw.Netip.{addr_port_beq_iff}
use proxygw.Dataplane.Mapping.{Mapping}
use proxygw.Connft.Nft.{Nft, DnatKey, dnat_key_eq, dnat_key_beq_iff, Flows, ensure_timeout_deleted}
use proxygw.Connft.State.{Group, src_key, dst_key, check_present}
use proxygw.Connft.Group.{uninstall}
use proxygw.Connft.Group.Sync.{Sync}

-- One round of the last loop of delMappings.
abbrev pub remove : Mapping → Flows → Group → Group
remove m flows g = record g {
  mappings_by_src = delete (src_key m) g.mappings_by_src;
  mappings_by_dst = delete (dst_key m) g.mappings_by_dst;
  flow_info_by_src = flows;
}

-- The entry of the source of `m` has its destination too, or neither is there.
pub record Removable (g : Group) (m : Mapping) : Type 0 where
  exact :
      (x : Mapping) → lookup (src_key m) g.mappings_by_src ≡ some x → x.destination ≡ m.destination
  gone : lookup (src_key m) g.mappings_by_src ≡ none → lookup (dst_key m) g.mappings_by_dst ≡ none

remove-Sync :
    (m : Mapping) (flows : Flows) (g : Group) → Sync g → Removable g m → Sync (remove m flows g)
remove-Sync m flows g s r = record {
  src = λ k x h. elim (Option-cases (lookup (src_key m) g.mappings_by_src)) [
    | inl e ↦ ground (
      arith,
      lookup-delete (src_key m) k g.mappings_by_src,
      lookup-delete (dst_key m) (dst_key x) g.mappings_by_dst,
      dnat_key_beq_iff (src_key m) k,
      dnat_key_beq_iff (dst_key m) (dst_key x),
      s.src k x,
      r.gone e,
    )
    | inr (y, e) ↦ ground (
      arith,
      lookup-delete (src_key m) k g.mappings_by_src,
      lookup-delete (dst_key m) (dst_key x) g.mappings_by_dst,
      dnat_key_beq_iff (src_key m) k,
      dnat_key_beq_iff (dst_key m) (dst_key x),
      s.src k x,
      s.src (src_key m) y e,
      r.exact y e,
    )
  ];
  dst = λ k x h. ground (
    arith,
    lookup-delete (dst_key m) k g.mappings_by_dst,
    lookup-delete (src_key m) (src_key x) g.mappings_by_src,
    dnat_key_beq_iff (dst_key m) k,
    dnat_key_beq_iff (src_key m) (src_key x),
    s.dst k x,
    r.exact x,
  );
  valid = λ k x h. ground (arith, lookup-delete (src_key m) k g.mappings_by_src, s.valid k x);
}

remove-Removable :
    (m n : Mapping) (flows : Flows) (g : Group)
    → Removable g m
    → Removable g n
    → Removable (remove m flows g) n
remove-Removable m n flows g r q = record {
  exact = λ x h. ground (arith, lookup-delete (src_key m) (src_key n) g.mappings_by_src, q.exact x);
  gone = λ h. elim (Option-cases (lookup (src_key n) g.mappings_by_src)) [
    | inl e ↦ ground (arith, lookup-delete (dst_key m) (dst_key n) g.mappings_by_dst, q.gone e)
    | inr (y, e) ↦ ground (
      arith,
      lookup-delete (src_key m) (src_key n) g.mappings_by_src,
      lookup-delete (dst_key m) (dst_key n) g.mappings_by_dst,
      dnat_key_beq_iff (src_key m) (src_key n),
      dnat_key_beq_iff (dst_key m) (dst_key n),
      q.exact y e,
      r.exact y,
    )
  ];
}

pub check_present-Removable :
    (g : Group) (ms : List Mapping) → check_present g ms ≡ none → All (Removable g) ms
unfolding check_present
check_present-Removable g [] h = tt
check_present-Removable g (m ∷ ms) h = (
  record {
    exact = λ x e. ground (arith, addr_port_beq_iff x.destination m.destination);
    gone = λ e. ground arith;
  },
  check_present-Removable g ms (ground arith),
)

All-Removable-remove :
    (m : Mapping) (flows : Flows) (g : Group) (ms : List Mapping)
    → Removable g m
    → All (Removable g) ms
    → All (Removable (remove m flows g)) ms
All-Removable-remove m flows g [] r q = tt
All-Removable-remove m flows g (n ∷ ms) r q =
    (remove-Removable m n flows g r q.0, All-Removable-remove m flows g ms r q.1)

module _ (nft : Nft) where
  open nft use {Conn}

  pub lookup-uninstall :
      (g : Group) (ms : List Mapping) (c : Conn) (k : DnatKey) (x : Mapping)
      → lookup k (uninstall nft g ms c).0.mappings_by_src ≡ some x
      → lookup k g.mappings_by_src ≡ some x
  unfolding uninstall
  lookup-uninstall g [] c k x h = h
  lookup-uninstall g (m ∷ ms) c k x h =
      let (flows, c₁, _) = ensure_timeout_deleted nft g.flow_info_by_src m.protocol m.source c in
      ground (
        arith,
        lookup-uninstall (remove m flows g) ms c₁ k x h,
        lookup-delete (src_key m) k g.mappings_by_src,
      )

  pub uninstall_keeps :
      (g : Group) (ms : List Mapping) (c : Conn)
      → let r = (uninstall nft g ms c).0 in
        (r.name ≡ g.name) × (r.closed ≡ g.closed) × (r.enabled ≡ g.enabled)
  unfolding uninstall
  uninstall_keeps g [] c = (refl, refl, refl)
  uninstall_keeps g (m ∷ ms) c =
      let (flows, c₁, _) = ensure_timeout_deleted nft g.flow_info_by_src m.protocol m.source c in
      uninstall_keeps (remove m flows g) ms c₁

  pub uninstall-Sync :
      (g : Group) (ms : List Mapping) (c : Conn)
      → Sync g
      → All (Removable g) ms
      → Sync (uninstall nft g ms c).0
  unfolding uninstall
  uninstall-Sync g [] c s r = s
  uninstall-Sync g (m ∷ ms) c s r =
      let (flows, c₁, _) = ensure_timeout_deleted nft g.flow_info_by_src m.protocol m.source c in
      uninstall-Sync (remove m flows g) ms c₁ (remove-Sync m flows g s r.0)
        (All-Removable-remove m flows g ms r.0 r.1)
