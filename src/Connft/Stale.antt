-- ===== src/Connft/Stale.antt =====
-- StaleGroups of pkg/dataplane/connft/connft_ct.go. The dump of the flows by
-- github.com/ti-mo/conntrack is an argument; the lock is free while it runs, so the dataplane before
-- it and the one after it are two.
pub mod Traffic
mod Tests
use proxygw.Prelude.{
  Bool, Dict, List, Text, [], bool_eq, false, filter, if◌then◌else◌, inl, inr, is_empty_map, lookup,
  nat_eq, none, not, some, text_eq, true, values, ℕ, ◌∷◌, ◌⊎◌,
}
use proxygw.Netip.{AddrPort}
use proxygw.Connft.Nft.{DnatKey, dnat_key_eq}
use proxygw.Connft.State.{Connft, Err, err_closed}

-- The source of a flow's reply, which is where the flow was forwarded to.
pub record Flow : Type 0 where
  pub address : AddrPort
  pub proto : ℕ

abbrev pub flow_key : Flow → DnatKey
flow_key f = record { addr = f.address; proto = f.proto }

module _ {Conn : Type 0} where
  -- `_, seen := group.mappingsByDst[...]`
  is_seen : Connft Conn → Flow → ℕ → Bool
  is_seen d f i = elim (lookup (flow_key f) (d.store i).mappings_by_dst) [
    | none ↦ false
    | some m ↦ true
  ]

  -- The loop over the flows: each takes the groups out that it is seen in.
  not_seen : Connft Conn → List Flow → Dict Text ℕ → Dict Text ℕ
  not_seen d [] groups = groups
  not_seen d (f ∷ flows) [] = []
  not_seen d (f ∷ flows) (g ∷ groups) =
      not_seen d flows (filter (λ e. not (is_seen d f e.1)) (g ∷ groups))

  pub stale_groups : Connft Conn → List Flow ⊎ Err → Connft Conn → List ℕ ⊎ Err
  stale_groups d dump d' =
      if d.closed then inr err_closed else if is_empty_map d.groups then inl [] else elim dump [
        | inr e ↦ inr e
        | inl flows ↦
            if d'.closed
            then inr err_closed
            else if is_empty_map d'.groups
            then inl []
            else inl (values (not_seen d' flows d'.groups))
      ]
