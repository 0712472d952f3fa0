-- ===== src/Connft/Group/Sync.antt =====
-- The two maps of a group in pkg/dataplane/connft/connft_group.go hold the same mappings.
use proxygw.Prelude.{
  In, List, [], ap, arith, bool_eq, inl, inr, insert, lookup, lookup-insert, nat_eq, refl, some,
  sym, text_eq, true, ◌∙◌, ◌∷◌, ◌≡◌, ◌⊎◌,
}
use proxygw.Netip.{is4}
use proxygw.Dataplane.Mapping.{Mapping, overlaps}
use proxygw.Dataplane.Mapping.Overlap.{IsValid, overlaps_iff}
use proxygw.Connft.Nft.{Nft, DnatKey, dnat_key_eq, dnat_key_beq_iff, Flows, ensure_timeout_set}
use proxygw.Connft.State.{Group, src_key, dst_key}
use proxygw.Connft.Group.{install}

-- Each map leads to the same mappings, under their own keys, and the mappings are valid.
pub record Sync (g : Group) : Type 0 where
  pub src :
      (k : DnatKey) (m : Mapping)
      → lookup k g.mappings_by_src ≡ some m
      → (k ≡ src_key m) × (lookup (dst_key m) g.mappings_by_dst ≡ some m)
  pub dst :
      (k : DnatKey) (m : Mapping)
      → lookup k g.mappings_by_dst ≡ some m
      → (k ≡ dst_key m) × (lookup (src_key m) g.mappings_by_src ≡ some m)
  pub valid : (k : DnatKey) (m : Mapping) → lookup k g.mappings_by_src ≡ some m → IsValid m

overlaps-src_key : (m n : Mapping) → src_key m ≡ src_key n → overlaps m n ≡ true
overlaps-src_key m n e =
    (overlaps_iff m n).1
      (ap (λ k. k.proto) e, ap (λ k. is4 k.addr.addr) e, inl (ap (λ k. k.addr) e))

overlaps-dst_key :
    (m n : Mapping) → IsValid m → IsValid n → dst_key m ≡ dst_key n → overlaps m n ≡ true
overlaps-dst_key m n v w e = (overlaps_iff m n).1 (
  ap (λ k. k.proto) e,
  v.one_family ∙ ap (λ k. is4 k.addr.addr) e ∙ sym w.one_family,
  inr (inr (inl (ap (λ k. k.addr) e))),
)

-- One round of the last loop of addMappings.
abbrev pub put : Mapping → Flows → Group → Group
put m flows g = record g {
  mappings_by_src = insert (src_key m) m g.mappings_by_src;
  mappings_by_dst = insert (dst_key m) m g.mappings_by_dst;
  flow_info_by_src = flows;
}

pub put-Sync :
    (m : Mapping) (flows : Flows) (g : Group)
    → Sync g
    → IsValid m
    → ((k : DnatKey) (x : Mapping)
        → lookup k g.mappings_by_src ≡ some x
        → overlaps m x ≡ true
        → (src_key m ≡ src_key x) × (dst_key m ≡ dst_key x))
    → Sync (put m flows g)
put-Sync m flows g s v compat = record {
  src = λ k x h. ground (
    arith,
    lookup-insert (src_key m) k m g.mappings_by_src,
    lookup-insert (dst_key m) (dst_key x) m g.mappings_by_dst,
    dnat_key_beq_iff (src_key m) k,
    dnat_key_beq_iff (dst_key m) (dst_key x),
    s.src k x,
    s.valid k x,
    compat k x,
    overlaps-dst_key m x v,
  );
  dst = λ k x h. ground (
    arith,
    lookup-insert (dst_key m) k m g.mappings_by_dst,
    lookup-insert (src_key m) (src_key x) m g.mappings_by_src,
    dnat_key_beq_iff (dst_key m) k,
    dnat_key_beq_iff (src_key m) (src_key x),
    s.dst k x,
    compat (src_key x) x,
    overlaps-src_key m x,
  );
  valid = λ k x h. ground (
    arith,
    lookup-insert (src_key m) k m g.mappings_by_src,
    dnat_key_beq_iff (src_key m) k,
    s.valid k x,
    v,
  );
}

module _ (nft : Nft) where
  open nft use {Conn}

  -- What a lookup finds after the loop.
  pub install-lookup :
      (g : Group) (ms : List Mapping) (c : Conn) (k : DnatKey) (x : Mapping)
      → lookup k (install nft g ms c).0.mappings_by_src ≡ some x
      → (lookup k g.mappings_by_src ≡ some x) ⊎ (In x ms × (k ≡ src_key x))
  unfolding install
  install-lookup g [] c k x h = inl h
  install-lookup g (m ∷ ms) c k x h =
      let (flows, c₁, _) =
        ensure_timeout_set nft g.flow_info_by_src m.protocol m.source m.timeout c in
      ground (
        arith,
        install-lookup (put m flows g) ms c₁ k x h,
        lookup-insert (src_key m) k m g.mappings_by_src,
        dnat_key_beq_iff (src_key m) k,
      )

  pub install_keeps :
      (g : Group) (ms : List Mapping) (c : Conn)
      → let r = (install nft g ms c).0 in
        (r.name ≡ g.name) × (r.closed ≡ g.closed) × (r.enabled ≡ g.enabled)
  unfolding install
  install_keeps g [] c = (refl, refl, refl)
  install_keeps g (m ∷ ms) c =
      let (flows, c₁, _) =
        ensure_timeout_set nft g.flow_info_by_src m.protocol m.source m.timeout c in
      install_keeps (put m flows g) ms c₁

  pub install-Sync :
      (g : Group) (ms : List Mapping) (c : Conn)
      → Sync g
      → ((m : Mapping) → In m ms → IsValid m)
      → ((m n : Mapping) → In m ms → In n ms → overlaps m n ≡ true → m ≡ n)
      → ((m : Mapping) (k : DnatKey) (x : Mapping)
          → In m ms
          → lookup k g.mappings_by_src ≡ some x
          → overlaps m x ≡ true
          → m ≡ x)
      → Sync (install nft g ms c).0
  unfolding install
  install-Sync g [] c s v p q = s
  install-Sync g (m ∷ ms) c s v p q =
      let (flows, c₁, _) =
        ensure_timeout_set nft g.flow_info_by_src m.protocol m.source m.timeout c in
      install-Sync (put m flows g) ms c₁
        (put-Sync m flows g s (v m (inl refl))
          (λ k x h o. let e = q m k x (inl refl) h o in (ap src_key e, ap dst_key e)))
        (λ n i. v n (inr i)) (λ n n' i j. p n n' (inr i) (inr j))
        (λ n k x i h o. ground (
          arith,
          lookup-insert (src_key m) k m g.mappings_by_src,
          q n k x (inr i),
          p n m (inr i) (inl refl),
        ))
