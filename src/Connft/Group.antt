-- ===== src/Connft/Group.antt =====
-- The operations of pkg/dataplane/connft/connft_group.go that write, and Close of connft.go.
pub mod Sync
pub mod Removal
pub mod Disjoint
pub mod Atomic
pub mod Abstract
pub mod Tests
mod Conflicts
use proxygw.Prelude.{
  Bool, Dict, List, Option, Text, [], bool_eq, delete, false, if◌then◌else◌, insert, lookup, nat_eq,
  none, not, some, text_eq, true, values, ℕ, ◌==◌, ◌∷◌,
}
use proxygw.Netip.{AddrPort, addr_port_eq}
use proxygw.Config.Protocol.{Protocol}
use proxygw.Config.Ttl.{Ttl}
use proxygw.Dataplane.Mapping.{Mapping, Invalid, validate, overlaps}
use proxygw.Connft.Nft.{
  Nft, Errno, DnatKey, dnat_key_eq, Flows, ensure_timeout_set, ensure_timeout_deleted,
  ensure_dnat_added, ensure_dnat_deleted, ensure_table_deleted,
}
use proxygw.Connft.State.{
  Connft, Err, Group, all_mappings, check_conflicts, check_present, dst_key, err_closed, err_kernel,
  err_no_such_mapping, is_closed, join_err, kernel_err, mappings, src_key, timeout, update,
}

module _ (nft : Nft) where
  open nft use {Conn}

  -- The last loop of addMappings; the error of the timeout is dropped.
  unfoldable pub install : Group → List Mapping → Conn → Group × Conn
  install g [] c = (g, c)
  install g (m ∷ ms) c =
      let (flows, c₁, _) =
        ensure_timeout_set nft g.flow_info_by_src m.protocol m.source m.timeout c in
      install
        (record g {
          mappings_by_src = insert (src_key m) m g.mappings_by_src;
          mappings_by_dst = insert (dst_key m) m g.mappings_by_dst;
          flow_info_by_src = flows;
        })
        ms c₁

  -- The last loop of delMappings.
  unfoldable pub uninstall : Group → List Mapping → Conn → Group × Conn
  uninstall g [] c = (g, c)
  uninstall g (m ∷ ms) c =
      let (flows, c₁, _) = ensure_timeout_deleted nft g.flow_info_by_src m.protocol m.source c in
      uninstall
        (record g {
          mappings_by_src = delete (src_key m) g.mappings_by_src;
          mappings_by_dst = delete (dst_key m) g.mappings_by_dst;
          flow_info_by_src = flows;
        })
        ms c₁

  -- `if dg.enabled { err := ...; if err != nil { return err } }`
  abbrev pub when_enabled : Bool → (Conn → Conn × Option Errno) → Conn → Conn × Option Errno
  when_enabled true act c = act c
  when_enabled false act c = (c, none)

  unfoldable pub add_unlocked : Connft Conn → ℕ → List Mapping → Connft Conn × Option Err
  add_unlocked d i [] = (d, none)
  add_unlocked d i (m ∷ ms) = elim (check_conflicts (all_mappings d d.groups) [] (m ∷ ms)) [
    | some e ↦ (d, some e)
    | none ↦
        let (c, e) = when_enabled (d.store i).enabled (ensure_dnat_added nft (m ∷ ms)) d.conn in
        elim e [
          | some x ↦ (record d { conn = c }, some (err_kernel x))
          | none ↦
              let (g, c₁) = install (d.store i) (m ∷ ms) c in
              (record d { store = update d.store i g; conn = c₁ }, none)
        ]
  ]

  unfoldable pub del_unlocked : Connft Conn → ℕ → List Mapping → Connft Conn × Option Err
  del_unlocked d i [] = (d, none)
  del_unlocked d i (m ∷ ms) = elim (check_present (d.store i) (m ∷ ms)) [
    | some e ↦ (d, some e)
    | none ↦
        let (c, e) = when_enabled (d.store i).enabled (ensure_dnat_deleted nft (m ∷ ms)) d.conn in
        elim e [
          | some x ↦ (record d { conn = c }, some (err_kernel x))
          | none ↦
              let (g, c₁) = uninstall (d.store i) (m ∷ ms) c in
              (record d { store = update d.store i g; conn = c₁ }, none)
        ]
  ]

  -- clearMappings
  unfoldable pub clear_unlocked : Connft Conn → ℕ → Connft Conn × Option Err
  clear_unlocked d i = del_unlocked d i (values (d.store i).mappings_by_src)

  unfoldable pub add_mappings : Connft Conn → ℕ → List Mapping → Connft Conn × Option Err
  add_mappings d i ms = if is_closed d i then (d, some err_closed) else add_unlocked d i ms

  unfoldable pub del_mappings : Connft Conn → ℕ → List Mapping → Connft Conn × Option Err
  del_mappings d i ms = if is_closed d i then (d, some err_closed) else del_unlocked d i ms

  unfoldable pub clear_mappings : Connft Conn → ℕ → Connft Conn × Option Err
  clear_mappings d i = if is_closed d i then (d, some err_closed) else clear_unlocked d i

  unfoldable pub set_timeout :
      Connft Conn → ℕ → Protocol → AddrPort → Ttl → Connft Conn × Option Err
  set_timeout d i protocol source ttl =
      let g = d.store i in
      if is_closed d i
      then (d, some err_closed)
      else elim (lookup (record { addr = source; proto = protocol }) g.mappings_by_src) [
        | none ↦ (d, some err_no_such_mapping)
        | some m ↦
            if m.timeout == ttl
            then (d, none)
            else let (flows, c, e) =
                ensure_timeout_set nft g.flow_info_by_src protocol source ttl d.conn in
              elim e [
                | some x ↦ (
                  record d {
                    store = update d.store i (record g { flow_info_by_src = flows });
                    conn = c;
                  },
                  some (err_kernel x),
                )
                | none ↦
                    let m' : Mapping = record m { timeout = ttl } in
                    (
                      record d {
                        store = update d.store i (record g {
                          mappings_by_src =
                              insert (record { addr = source; proto = protocol }) m'
                                g.mappings_by_src;
                          mappings_by_dst = insert (dst_key m) m' g.mappings_by_dst;
                          flow_info_by_src = flows;
                        });
                        conn = c;
                      },
                      none,
                    )
              ]
      ]

  unfoldable pub enable : Connft Conn → ℕ → Connft Conn × Option Err
  enable d i =
      let g = d.store i in
      if is_closed d i
      then (d, some err_closed)
      else if g.enabled
      then (d, none)
      else let (c, e) = ensure_dnat_added nft (values g.mappings_by_src) d.conn in
        elim e [
          | some x ↦ (record d { conn = c }, some (err_kernel x))
          | none ↦
              (record d { store = update d.store i (record g { enabled = true }); conn = c }, none)
        ]

  unfoldable pub disable : Connft Conn → ℕ → Connft Conn × Option Err
  disable d i =
      let g = d.store i in
      if is_closed d i
      then (d, some err_closed)
      else if not g.enabled
      then (d, none)
      else let (c, e) = ensure_dnat_deleted nft (values g.mappings_by_src) d.conn in
        elim e [
          | some x ↦ (record d { conn = c }, some (err_kernel x))
          | none ↦
              (record d { store = update d.store i (record g { enabled = false }); conn = c }, none)
        ]

  -- close: the group is closed and forgotten also when its mappings could not be cleared.
  unfoldable pub close_unlocked : Connft Conn → ℕ → Connft Conn × Option Err
  close_unlocked d i =
      if (d.store i).closed
      then (d, none)
      else let (d₁, e) = clear_unlocked d i in
        let g = d₁.store i in
        (
          record d₁ {
            store = update d₁.store i (record g { closed = true });
            groups = delete g.name d₁.groups;
          },
          e,
        )

  -- The loop of Close of connft.go over a copy of the groups.
  unfoldable pub close_each : Connft Conn → Dict Text ℕ → Option Err → Connft Conn × Option Err
  close_each d [] err = (d, err)
  close_each d ((name, i) ∷ groups) err =
      let (d₁, e) = close_unlocked d i in close_each d₁ groups (join_err err e)

  unfoldable pub close : Connft Conn → Connft Conn × Option Err
  close d =
      if d.closed
      then (d, none)
      else let (d₁, e) = close_each (record d { closed = true }) d.groups none in
        let (c, e') = ensure_table_deleted nft d₁.conn in
        (record d₁ { conn = c }, join_err e (kernel_err e'))
