-- ===== src/Connft/Group/Disjoint/Retime.antt =====
-- The write of SetTimeout keeps the invariant of a dataplane.
use proxygw.Prelude.{
  Bool-cases, arith, bool_eq, inl, inr, insert, lookup, lookup-insert, nat_eq, refl, some, subst,
  sym, text_eq, true, ℕ, ◌∙◌, ◌≡◌,
}
use proxygw.Config.Ttl.{Ttl}
use proxygw.Dataplane.Mapping.{Mapping, overlaps}
use proxygw.Dataplane.Mapping.Overlap.{IsValid}
use proxygw.Connft.Nft.{dnat_key_beq, dnat_key_beq_iff, Nft, Flows, DnatKey, dnat_key_eq}
use proxygw.Connft.State.{Connft, update, src_key, dst_key}
use proxygw.Connft.Group.Sync.{put, put-Sync}
use proxygw.Connft.Group.Disjoint.{IsLive, Inv}
use proxygw.Connft.Group.Disjoint.Replace.{Origin, kept, replace-Inv}

module _ (nft : Nft) where
  open nft use {Conn}

  -- The write of SetTimeout: one mapping, with a new timeout.
  module _ (d : Connft Conn) (i : ℕ) (m : Mapping) (ttl : Ttl) (inv : Inv d) (here : IsLive d i)
      (e : lookup (src_key m) (d.store i).mappings_by_src ≡ some m) where
    pub retimed : Mapping
    retimed = record m { timeout = ttl }

    retimed-IsValid : IsValid retimed
    unfolding retimed
    retimed-IsValid =
        let v = (inv.sync i here.0).valid (src_key m) m e in
        record {
          protocol_known = v.protocol_known;
          source_addressed = v.source_addressed;
          destination_addressed = v.destination_addressed;
          source_port = v.source_port;
          destination_port = v.destination_port;
          source_zone = v.source_zone;
          destination_zone = v.destination_zone;
          destination_specified = v.destination_specified;
          one_family = v.one_family;
          distinct = v.distinct;
        }

    retimed-overlaps : (x : Mapping) → overlaps retimed x ≡ overlaps m x
    unfolding retimed overlaps
    retimed-overlaps x = refl

    retimed_keys :
        (k : DnatKey) (x : Mapping)
        → lookup k (d.store i).mappings_by_src ≡ some x
        → overlaps retimed x ≡ true
        → (src_key m ≡ src_key x) × (dst_key m ≡ dst_key x)
    retimed_keys k x h o =
        let same =
          (inv.apart i i (src_key m) k m x here here e h (sym (retimed-overlaps x) ∙ o)).1 in
        ground (arith, same)

    retimed_origin :
        (flows : Flows) (k : DnatKey) (x : Mapping)
        → lookup k (put retimed flows (d.store i)).mappings_by_src ≡ some x
        → Origin d i (put retimed flows (d.store i)) k x
    unfolding retimed
    retimed_origin flows k x h = elim (Bool-cases (dnat_key_beq (src_key m) k)) [
      | inl q ↦ kept m (ground (arith, dnat_key_beq_iff (src_key m) k)) (λ z.
          subst (λ y. overlaps y z ≡ overlaps m z)
            (ground (arith, lookup-insert (src_key m) k retimed (d.store i).mappings_by_src))
            (retimed-overlaps z))
      | inr q ↦
          kept x (ground (arith, lookup-insert (src_key m) k retimed (d.store i).mappings_by_src))
            (λ z. refl)
    ]

    pub retimed-Inv :
        (flows : Flows) (c : Conn)
        → Inv (record d { store = update d.store i (put retimed flows (d.store i)); conn = c })
    retimed-Inv flows c =
        replace-Inv d i (put retimed flows (d.store i)) c inv here.0 refl refl
          (retimed_origin flows)
          (put-Sync retimed flows (d.store i) (inv.sync i here.0) retimed-IsValid
            (unfold retimed in retimed_keys))

  pub retimed_at-Inv :
      (d : Connft Conn) (i : ℕ) (m : Mapping) (ttl : Ttl)
      → Inv d
      → IsLive d i
      → (k : DnatKey) → k ≡ src_key m
      → lookup k (d.store i).mappings_by_src ≡ some m
      → (flows : Flows) (c : Conn)
      → let m' : Mapping = record m { timeout = ttl } in
        Inv (record d {
          store = update d.store i (record (d.store i) {
            mappings_by_src = insert k m' (d.store i).mappings_by_src;
            mappings_by_dst = insert (dst_key m) m' (d.store i).mappings_by_dst;
            flow_info_by_src = flows;
          });
          conn = c;
        })
  unfolding retimed
  retimed_at-Inv d i m ttl inv here k same e flows c =
      let e' = subst (λ j. lookup j (d.store i).mappings_by_src ≡ some m) same e in
      let written = λ (j : DnatKey) (n : Mapping). record (d.store i) {
        mappings_by_src = insert j n (d.store i).mappings_by_src;
        mappings_by_dst = insert (dst_key m) n (d.store i).mappings_by_dst;
        flow_info_by_src = flows;
      } in
      subst
        (λ j. Inv (record d {
          store = update d.store i (written j (record m { timeout = ttl }));
          conn = c;
        }))
        (sym same) (retimed-Inv d i m ttl inv here e' flows c)
