-- ===== src/Connft/Group/Abstract.antt =====
-- The calls on a group in pkg/dataplane/connft/connft_group.go, as its owner sees them: a group is
-- a function from keys to mappings and whether it is enabled. Which order its maps are in, what
-- they know of flows and what the kernel was asked are forgotten.
use proxygw.Prelude.{
  Bool, Dict, In-any, List, Option, Option-cases, [], any, ap, arith, bool_eq, eq_iff, false,
  if◌then◌else◌, inl, inr, insert, lookup, lookup-In, lookup-delete, lookup-insert, nat_eq, none,
  refl, some, sym, text_eq, true, values, ℕ, ◌<◌, ◌==◌, ◌∙◌, ◌∷◌, ◌≡◌,
}
use mathlib.Core.Path.{fun_ext}
use proxygw.Netip.{AddrPort}
use proxygw.Config.Protocol.{Protocol}
use proxygw.Config.Ttl.{Ttl}
use proxygw.Dataplane.Mapping.{Mapping}
use proxygw.Connft.Nft.{
  Nft, DnatKey, Flows, dnat_key_eq, ensure_timeout_set, ensure_timeout_deleted, ensure_dnat_added,
  ensure_dnat_deleted,
}
use proxygw.Connft.State.{Group, Connft, Err, src_key, dst_key}
use proxygw.Connft.Group.{
  install, uninstall, when_enabled, add_mappings, add_unlocked, del_mappings, del_unlocked,
  clear_mappings, clear_unlocked, set_timeout, enable, disable,
}
use proxygw.Connft.Group.Sync.{Sync, put}
use proxygw.Connft.Group.Removal.{remove}
use proxygw.Connft.Group.Disjoint.History.{Reach, connft_coherent}

-- A group as its owner sees it.
pub record Table : Type 0 where
  pub find : DnatKey → Option Mapping
  pub on : Bool

pub data Call : Type 0 where
  add del : List Mapping → Call
  clear switch_on switch_off : Call
  retime : Protocol → AddrPort → Ttl → Call

abbrev pub put_each : List Mapping → (DnatKey → Option Mapping) → DnatKey → Option Mapping
put_each [] f = f
put_each (m ∷ ms) f = put_each ms (λ k. if src_key m == k then some m else f k)

abbrev pub drop_each : List Mapping → (DnatKey → Option Mapping) → DnatKey → Option Mapping
drop_each [] f = f
drop_each (m ∷ ms) f = drop_each ms (λ k. if src_key m == k then none else f k)

abbrev pub with_timeout : Ttl → Option Mapping → Option Mapping
with_timeout ttl none = none
with_timeout ttl (some m) = some (record m { timeout = ttl })

-- What a call that succeeds does to a group.
abbrev pub promised : Call → Table → Table
promised (add ms) t = record t { find = put_each ms t.find }
promised (del ms) t = record t { find = drop_each ms t.find }
promised clear t = record t { find = λ k. none }
promised switch_on t = record t { on = true }
promised switch_off t = record t { on = false }
promised (retime protocol source ttl) t = record t {
  find = λ k.
      if record { addr = source; proto = protocol } == k
      then with_timeout ttl (t.find k)
      else t.find k;
}

-- What the owner sees of all groups after a call on the group `i`.
abbrev pub after : Option Err → Call → ℕ → (ℕ → Table) → ℕ → Table
after (some e) ch i view j = view j
after none ch i view j = if i == j then promised ch (view i) else view j

abbrev pub table : Group → Table
table g = record { find = λ k. lookup k g.mappings_by_src; on = g.enabled }

drop_each-none :
    (ms : List Mapping) (f : DnatKey → Option Mapping) (k : DnatKey)
    → ((m : Mapping) → f k ≡ some m → any (λ x. src_key x == k) ms ≡ true)
    → drop_each ms f k ≡ none
drop_each-none [] f k h = elim (Option-cases (f k)) [
  | inl e ↦ e
  | inr (m, e) ↦ absurd (ground (arith, h m e))
]
drop_each-none (m ∷ ms) f k h =
    drop_each-none ms (λ l. if src_key m == l then none else f l) k (λ x e. ground (arith, h x))

-- Deleting every mapping of a group leaves none.
drop_values :
    (g : Group)
    → Sync g
    → promised (del (values g.mappings_by_src)) (table g) ≡ promised clear (table g)
drop_values g s =
    ap (λ f. record { find = f; on = g.enabled })
      (fun_ext (λ k.
        drop_each-none (values g.mappings_by_src) (λ l. lookup l g.mappings_by_src) k
          (λ m h.
            In-any (λ x. src_key x == k) (values g.mappings_by_src) m
              (ground (arith, (s.src k m h).0, eq_iff (src_key m) k))
              (lookup-In k m g.mappings_by_src h))))

-- A timeout that is there already is not changed.
same_timeout :
    (m : Mapping) (ttl : Ttl) → (m.timeout == ttl) ≡ true → record m { timeout = ttl } ≡ m
same_timeout m ttl h = ap (λ t. record m { timeout = t }) (sym ((eq_iff m.timeout ttl).0 h))

module _ (g : Group) (protocol : Protocol) (source : AddrPort) (ttl : Ttl) (m : Mapping)
    (there : lookup (record { addr = source; proto = protocol }) g.mappings_by_src ≡ some m) where
  retime_same :
      (m.timeout == ttl) ≡ true → promised (retime protocol source ttl) (table g) ≡ table g
  retime_same h =
      ap (λ f. record { find = f; on = g.enabled })
        (fun_ext (λ k. ground (
          arith,
          eq_iff (record { addr = source; proto = protocol }) k,
          same_timeout m ttl h,
          there,
        )))

  retime_insert :
      (flows : Flows) (by_dst : Dict DnatKey Mapping)
      → table (record g {
        mappings_by_src =
            insert
              (record { addr = source; proto = protocol })
              (record m { timeout = ttl })
              g.mappings_by_src;
        mappings_by_dst = by_dst;
        flow_info_by_src = flows;
      })
        ≡ promised (retime protocol source ttl) (table g)
  retime_insert flows by_dst =
      ap (λ f. record { find = f; on = g.enabled })
        (fun_ext (λ k. ground (
          arith,
          eq_iff (record { addr = source; proto = protocol }) k,
          there,
          lookup-insert (record { addr = source; proto = protocol }) k (record m { timeout = ttl })
              g.mappings_by_src,
        )))

module _ (nft : Nft) where
  open nft use {Conn}

  abbrev pub call : Call → Connft Conn → ℕ → Connft Conn × Option Err
  call (add ms) d i = add_mappings nft d i ms
  call (del ms) d i = del_mappings nft d i ms
  call clear d i = clear_mappings nft d i
  call switch_on d i = enable nft d i
  call switch_off d i = disable nft d i
  call (retime protocol source ttl) d i = set_timeout nft d i protocol source ttl

  install-put_each :
      (g : Group) (ms : List Mapping) (c : Conn)
      → table (install nft g ms c).0 ≡ promised (add ms) (table g)
  unfolding install
  install-put_each g [] c = refl
  install-put_each g (m ∷ ms) c =
      let (flows, c₁, _) =
        ensure_timeout_set nft g.flow_info_by_src m.protocol m.source m.timeout c in
      install-put_each (put m flows g) ms c₁
      ∙ ap (λ f. promised (add ms) (record { find = f; on = g.enabled }))
          (fun_ext (λ k. lookup-insert (src_key m) k m g.mappings_by_src))

  uninstall-drop_each :
      (g : Group) (ms : List Mapping) (c : Conn)
      → table (uninstall nft g ms c).0 ≡ promised (del ms) (table g)
  unfolding uninstall
  uninstall-drop_each g [] c = refl
  uninstall-drop_each g (m ∷ ms) c =
      let (flows, c₁, _) = ensure_timeout_deleted nft g.flow_info_by_src m.protocol m.source c in
      uninstall-drop_each (remove m flows g) ms c₁
      ∙ ap (λ f. promised (del ms) (record { find = f; on = g.enabled }))
          (fun_ext (λ k. lookup-delete (src_key m) k g.mappings_by_src))

  module _ (d : Connft Conn) (i j : ℕ) where
    add_unlocked-table :
        (ms : List Mapping)
        → table ((add_unlocked nft d i ms).0.store j)
          ≡ after (add_unlocked nft d i ms).1 (add ms) i (λ j. table (d.store j)) j
    unfolding add_unlocked
    add_unlocked-table [] = ground (arith, eq_iff i j)
    add_unlocked-table (m ∷ ms) =
        let (c, e) = when_enabled nft (d.store i).enabled (ensure_dnat_added nft (m ∷ ms)) d.conn in
        ground (arith, install-put_each (d.store i) (m ∷ ms) c)

    del_unlocked-table :
        (ms : List Mapping)
        → table ((del_unlocked nft d i ms).0.store j)
          ≡ after (del_unlocked nft d i ms).1 (del ms) i (λ j. table (d.store j)) j
    unfolding del_unlocked
    del_unlocked-table [] = ground (arith, eq_iff i j)
    del_unlocked-table (m ∷ ms) =
        let (c, e) =
          when_enabled nft (d.store i).enabled (ensure_dnat_deleted nft (m ∷ ms)) d.conn in
        ground (arith, uninstall-drop_each (d.store i) (m ∷ ms) c)

    set_timeout-table :
        (protocol : Protocol) (source : AddrPort) (ttl : Ttl)
        → table ((set_timeout nft d i protocol source ttl).0.store j)
          ≡ after
              (set_timeout nft d i protocol source ttl).1
              (retime protocol source ttl)
              i
              (λ j. table (d.store j))
              j
    unfolding set_timeout
    set_timeout-table protocol source ttl =
        elim (Option-cases
          (lookup (record { addr = source; proto = protocol }) (d.store i).mappings_by_src)) [
            | inl e ↦ ground (arith)
            | inr (m, e) ↦
                let g = d.store i in
                let flows =
                  (ensure_timeout_set nft g.flow_info_by_src protocol source ttl d.conn).0 in
                let by_dst = insert (dst_key m) (record m { timeout = ttl }) g.mappings_by_dst in
                ground (
                  arith,
                  retime_same g protocol source ttl m e,
                  retime_insert g protocol source ttl m e flows by_dst,
                  eq_iff i j,
                )
          ]

    -- A call on one group of a dataplane, after any calls, does to what its owner sees what it
    -- promises: it puts or drops the mappings given, drops all, enables, disables or changes the
    -- timeout of one mapping. A call that fails changes nothing there, and no call changes what
    -- another group holds.
    pub call_refines :
        Reach nft d
        → i < d.next
        → (ch : Call)
        → table ((call ch d i).0.store j) ≡ after (call ch d i).1 ch i (λ j. table (d.store j)) j
    unfolding add_mappings del_mappings clear_mappings clear_unlocked enable disable
    call_refines r l (add ms) = ground (arith, add_unlocked-table ms)
    call_refines r l (del ms) = ground (arith, del_unlocked-table ms)
    call_refines r l clear = ground (
      arith,
      del_unlocked-table (values (d.store i).mappings_by_src),
      drop_values (d.store i) ((connft_coherent nft r).sync i l),
    )
    call_refines r l switch_on = ground (arith, eq_iff i j)
    call_refines r l switch_off = ground (arith, eq_iff i j)
    call_refines r l (retime protocol source ttl) = set_timeout-table protocol source ttl
