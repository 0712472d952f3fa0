-- ===== src/Connft/Group/Disjoint/Operations.antt =====
-- Every operation of a group and of its dataplane keeps their invariant.
use proxygw.Prelude.{
  Bool-cases, List, Option-cases, bool_eq, false, inl, inr, lookup, nat_beq, nat_eq, or_false,
  text_eq, true, values, ℕ, ◌<◌,
}
use proxygw.Netip.{AddrPort}
use proxygw.Config.Protocol.{Protocol}
use proxygw.Config.Ttl.{Ttl}
use proxygw.Dataplane.Mapping.{Mapping}
use proxygw.Connft.Nft.{
  Nft, dnat_key_eq, ensure_dnat_added, ensure_dnat_deleted, ensure_timeout_set,
}
use proxygw.Connft.State.{Connft, is_closed}
use proxygw.Connft.Group.{
  add_mappings, del_mappings, clear_mappings, set_timeout, enable, disable, clear_unlocked,
}
use proxygw.Connft.Group.Disjoint.{Inv}
use proxygw.Connft.Group.Disjoint.Install.{conn-Inv, flag-Inv, add_unlocked-Inv, del_unlocked-Inv}
use proxygw.Connft.Group.Disjoint.Retime.{retimed_at-Inv}

module _ (nft : Nft) where
  open nft use {Conn}

  pub add_mappings-Inv :
      (d : Connft Conn) (i : ℕ) (ms : List Mapping)
      → Inv d
      → i < d.next
      → Inv (add_mappings nft d i ms).0
  unfolding add_mappings
  add_mappings-Inv d i ms inv l = elim (Bool-cases (is_closed d i)) [
    | inl e ↦ rw (e, add_mappings) inv
    | inr e ↦ rw (e, add_mappings) (add_unlocked-Inv nft d i ms inv (l, ((or_false _ _).0 e).0))
  ]

  pub del_mappings-Inv :
      (d : Connft Conn) (i : ℕ) (ms : List Mapping)
      → Inv d
      → i < d.next
      → Inv (del_mappings nft d i ms).0
  unfolding del_mappings
  del_mappings-Inv d i ms inv l = elim (Bool-cases (is_closed d i)) [
    | inl e ↦ rw (e, del_mappings) inv
    | inr e ↦ rw (e, del_mappings) (del_unlocked-Inv nft d i ms inv l)
  ]

  pub clear_mappings-Inv :
      (d : Connft Conn) (i : ℕ) → Inv d → i < d.next → Inv (clear_mappings nft d i).0
  unfolding clear_mappings clear_unlocked
  clear_mappings-Inv d i inv l = elim (Bool-cases (is_closed d i)) [
    | inl e ↦ rw (e, clear_mappings) inv
    | inr e ↦ rw (e, clear_mappings) (del_unlocked-Inv nft d i _ inv l)
  ]

  pub enable-Inv : (d : Connft Conn) (i : ℕ) → Inv d → i < d.next → Inv (enable nft d i).0
  unfolding enable
  enable-Inv d i inv l =
      let act = ensure_dnat_added nft (values (d.store i).mappings_by_src) d.conn in
      elim (Bool-cases (is_closed d i)) [
        | inl e ↦ rw (e, enable) inv
        | inr e ↦
            rw (e, enable)
              (elim (Bool-cases (d.store i).enabled) [
                | inl e' ↦ rw (e', enable) inv
                | inr e' ↦
                    rw (e', enable)
                      (elim (Option-cases act.1) [
                        | inr (x, f) ↦ rw (f, enable) (conn-Inv nft d act.0 inv)
                        | inl f ↦
                            rw (f, enable)
                              (flag-Inv nft d i true (d.store i).flow_info_by_src act.0 inv l)
                      ])
              ])
      ]

  pub disable-Inv : (d : Connft Conn) (i : ℕ) → Inv d → i < d.next → Inv (disable nft d i).0
  unfolding disable
  disable-Inv d i inv l =
      let act = ensure_dnat_deleted nft (values (d.store i).mappings_by_src) d.conn in
      elim (Bool-cases (is_closed d i)) [
        | inl e ↦ rw (e, disable) inv
        | inr e ↦
            rw (e, disable)
              (elim (Bool-cases (d.store i).enabled) [
                | inr e' ↦ rw (e', disable) inv
                | inl e' ↦
                    rw (e', disable)
                      (elim (Option-cases act.1) [
                        | inr (x, f) ↦ rw (f, disable) (conn-Inv nft d act.0 inv)
                        | inl f ↦
                            rw (f, disable)
                              (flag-Inv nft d i false (d.store i).flow_info_by_src act.0 inv l)
                      ])
              ])
      ]

  pub set_timeout-Inv :
      (d : Connft Conn) (i : ℕ) (protocol : Protocol) (source : AddrPort) (ttl : Ttl)
      → Inv d
      → i < d.next
      → Inv (set_timeout nft d i protocol source ttl).0
  unfolding set_timeout
  set_timeout-Inv d i protocol source ttl inv l =
      let g = d.store i in
      let act = ensure_timeout_set nft g.flow_info_by_src protocol source ttl d.conn in
      elim (Bool-cases (is_closed d i)) [
        | inl e ↦ rw (e, set_timeout) inv
        | inr e ↦
            rw (e, set_timeout)
              (elim (Option-cases
                (lookup (record { addr = source; proto = protocol }) g.mappings_by_src)) [
                  | inl q ↦ rw (q, set_timeout) inv
                  | inr (m, q) ↦
                      rw (q, set_timeout)
                        (elim (Bool-cases (nat_beq m.timeout ttl)) [
                          | inl t ↦ rw (t, set_timeout) inv
                          | inr t ↦
                              rw (t, set_timeout)
                                (elim (Option-cases act.2) [
                                  | inr (x, f) ↦
                                      rw (f, set_timeout)
                                        (flag-Inv nft d i g.enabled act.0 act.1 inv l)
                                  | inl f ↦
                                      rw (f, set_timeout)
                                        (retimed_at-Inv nft d i m ttl inv
                                          (l, ((or_false _ _).0 e).0)
                                          (record { addr = source; proto = protocol })
                                          ((inv.sync i l).src _ m q).0 q act.0 act.1)
                                ])
                        ])
                ])
      ]
