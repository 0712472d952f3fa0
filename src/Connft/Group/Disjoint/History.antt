-- ===== src/Connft/Group/Disjoint/History.antt =====
-- What holds of a dataplane after any calls on it and its groups: the promise that the comment on
-- Mapping in pkg/dataplane/mapping.go makes.
use proxygw.Prelude.{
  List, Text, [], ap, arith, bool_eq, false, inl, inr, lookup, nat_eq, some, sym, text_eq, true, ℕ,
  ◌<◌, ◌∙◌, ◌≡◌, ◌≢◌,
}
use proxygw.Netip.{AddrPort, is4, is_unspecified}
use proxygw.Config.Protocol.{Protocol}
use proxygw.Config.Ttl.{Ttl}
use proxygw.Dataplane.Mapping.{Mapping, overlaps}
use proxygw.Dataplane.Mapping.Overlap.{overlaps_iff}
use proxygw.Connft.Nft.{Nft, DnatKey, dnat_key_eq}
use proxygw.Connft.State.{Group, Connft, new_connft_group}
use proxygw.Connft.Group.{
  add_mappings, del_mappings, clear_mappings, set_timeout, enable, disable, close_unlocked, close,
}
use proxygw.Connft.Group.Disjoint.{IsLive, Inv}
use proxygw.Connft.Group.Disjoint.Operations.{
  add_mappings-Inv, del_mappings-Inv, clear_mappings-Inv, enable-Inv, disable-Inv, set_timeout-Inv,
}
use proxygw.Connft.Group.Disjoint.Lifecycle.{new-Inv, close_unlocked-Inv, close-Inv}

-- A dataplane with no group; the store holds nothing that was made.
abbrev pub fresh_connft : {Conn : Type 0} → (ℕ → Group) → Conn → Connft Conn
fresh_connft store c = record { groups = []; store = store; next = 0; conn = c; closed = false }

module _ (nft : Nft) where
  open nft use {Conn}

  -- The dataplanes that calls lead to, from a fresh one. A call on a group has the number that
  -- NewGroup returned.
  pub data Reach : Connft Conn → Type 0 where
    start : (store : ℕ → Group) (c : Conn) → Reach (fresh_connft store c)
    new : {d : Connft Conn} (name : Text) → Reach d → Reach (new_connft_group d name).0
    add :
        {d : Connft Conn} (i : ℕ) (ms : List Mapping)
        → i < d.next
        → Reach d
        → Reach (add_mappings nft d i ms).0
    del :
        {d : Connft Conn} (i : ℕ) (ms : List Mapping)
        → i < d.next
        → Reach d
        → Reach (del_mappings nft d i ms).0
    clear : {d : Connft Conn} (i : ℕ) → i < d.next → Reach d → Reach (clear_mappings nft d i).0
    retime :
        {d : Connft Conn} (i : ℕ) (protocol : Protocol) (source : AddrPort) (ttl : Ttl)
        → i < d.next
        → Reach d
        → Reach (set_timeout nft d i protocol source ttl).0
    on : {d : Connft Conn} (i : ℕ) → i < d.next → Reach d → Reach (enable nft d i).0
    off : {d : Connft Conn} (i : ℕ) → i < d.next → Reach d → Reach (disable nft d i).0
    close_group :
        {d : Connft Conn} (i : ℕ) → i < d.next → Reach d → Reach (close_unlocked nft d i).0
    close_all : {d : Connft Conn} → Reach d → Reach (close nft d).0

  fresh-Inv : (store : ℕ → Group) (c : Conn) → Inv (fresh_connft store c)
  unfolding lookup
  fresh-Inv store c = record {
    registered = λ name i h. cc;
    ranged = tt;
    live = λ i h. absurd (omega arith);
    sync = λ i h. absurd (omega arith);
    apart = λ i j k l m n h₁ h₂ p q o. absurd (omega arith);
  }

  -- After any calls on a dataplane and its groups: names lead to open groups, and every open
  -- group has its name; the two maps of a group agree and hold valid mappings; and overlapping
  -- mappings of open groups are one and the same.
  pub connft_coherent : {d : Connft Conn} → Reach d → Inv d
  connft_coherent (start store c) = fresh-Inv store c
  connft_coherent (new {d} name r) = new-Inv nft d name (connft_coherent r)
  connft_coherent (add {d} i ms l r) = add_mappings-Inv nft d i ms (connft_coherent r) l
  connft_coherent (del {d} i ms l r) = del_mappings-Inv nft d i ms (connft_coherent r) l
  connft_coherent (clear {d} i l r) = clear_mappings-Inv nft d i (connft_coherent r) l
  connft_coherent (retime {d} i protocol source ttl l r) =
      set_timeout-Inv nft d i protocol source ttl (connft_coherent r) l
  connft_coherent (on {d} i l r) = enable-Inv nft d i (connft_coherent r) l
  connft_coherent (off {d} i l r) = disable-Inv nft d i (connft_coherent r) l
  connft_coherent (close_group {d} i l r) = close_unlocked-Inv nft d i (connft_coherent r) l
  connft_coherent (close_all {d} r) = close-Inv nft d (connft_coherent r)

  module _ {d : Connft Conn} (r : Reach d) (i j : ℕ) (k l : DnatKey) (m n : Mapping)
      (open_i : IsLive d i) (open_j : IsLive d j)
      (at_i : lookup k (d.store i).mappings_by_src ≡ some m)
      (at_j : lookup l (d.store j).mappings_by_src ≡ some n) where
    -- Overlapping mappings stand in the same place.
    same_place : overlaps m n ≡ true → (i ≡ j) × (m ≡ n)
    same_place o =
        let (e, f) = (connft_coherent r).apart i j k l m n open_i open_j at_i at_j o in
        (e, ground (arith, e, f))

    same_family : m.destination ≡ n.destination → is4 m.source.addr ≡ is4 n.source.addr
    same_family e =
        (((connft_coherent r).sync i open_i.0).valid k m at_i).one_family
        ∙ ap (λ a. is4 a.addr) e
        ∙ sym (((connft_coherent r).sync j open_j.0).valid l n at_j).one_family

    -- No address is the source of one mapping and the destination of another or the same, in one
    -- protocol, after any calls.
    pub sources-ne-destinations : m.protocol ≡ n.protocol → m.source ≢ n.destination
    sources-ne-destinations p e =
        let v = ((connft_coherent r).sync i open_i.0).valid k m at_i in
        let w = ((connft_coherent r).sync j open_j.0).valid l n at_j in
        let f = ap (λ a. is4 a.addr) e ∙ sym w.one_family in
        let (_, q) = same_place ((overlaps_iff m n).1 (p, f, inr (inl e))) in
        v.distinct (e ∙ ap (λ x. x.destination) (sym q))

    -- Two different mappings of one protocol, in open groups of a dataplane after any calls,
    -- have different sources and different destinations, and in one address family no wildcard
    -- source owns the port of another source.
    pub mappings_one_to_one :
        m.protocol ≡ n.protocol
        → ¬ ((i ≡ j) × (m ≡ n))
        → (m.source ≢ n.source)
          × (m.destination ≢ n.destination)
          × ¬ (
              (is4 m.source.addr ≡ is4 n.source.addr)
              × (m.source.port ≡ n.source.port)
              × (is_unspecified m.source.addr ≡ true))
    mappings_one_to_one p apart = (
      (λ e. apart (same_place ((overlaps_iff m n).1 (p, ap (λ a. is4 a.addr) e, inl e)))),
      (λ e. apart (same_place ((overlaps_iff m n).1 (p, same_family e, inr (inr (inl e)))))),
      λ (f, q, u).
          apart (same_place ((overlaps_iff m n).1 (p, f, inr (inr (inr (inr (q, inl u))))))),
    )
