-- ===== src/Connft/Stale/Tests.antt =====
-- StaleGroups of pkg/dataplane/connft/connft_ct.go over one flow that no group knows.
use proxygw.Prelude.{
  All, In, List, [], bool_eq, inl, insert, lookup, nat_eq, refl, text_eq, ℕ, ◌↔◌, ◌∷◌, ◌≡◌, ◌≢◌,
}
use proxygw.Netip.{is_unspecified, addr_beq, addr_port_beq}
use proxygw.Config.Protocol.{tcp, is_valid, to_string}
use proxygw.Dataplane.Mapping.{validate, overlaps}
use proxygw.Connft.Nft.{ensure_timeout_set, dnat_key_beq}
use proxygw.Connft.State.{new_group, new_connft_group, all_mappings, check_conflicts, first_overlap}
use proxygw.Connft.Group.{add_mappings, add_unlocked, install}
use proxygw.Connft.Group.Disjoint.History.{connft_coherent}
use proxygw.Connft.Group.Tests.{
  quiet_nft, host, two_mappings, two_mappings-Reach, two_mappings-IsLive,
}
use proxygw.Connft.Stale.{Flow, stale_groups, not_seen, is_seen}
use proxygw.Connft.Stale.Traffic.{Hits, stale_iff}

abbrev passing : List Flow
passing = record { address = host 9 9; proto = tcp } ∷ []

passing_stale : stale_groups two_mappings (inl passing) two_mappings ≡ inl (0 ∷ [])
unfolding add_mappings add_unlocked new_connft_group new_group lookup all_mappings check_conflicts
    first_overlap validate overlaps install insert is_valid to_string addr_port_beq addr_beq
    ensure_timeout_set is_unspecified dnat_key_beq stale_groups not_seen is_seen
passing_stale = refl

some_group : two_mappings.groups ≢ []
unfolding add_mappings add_unlocked new_connft_group new_group lookup all_mappings check_conflicts
    first_overlap validate overlaps install insert is_valid to_string addr_port_beq addr_beq
    ensure_timeout_set is_unspecified dnat_key_beq
some_group e = cc

stale_iff_example : In {A = ℕ} 0 (0 ∷ []) ↔ All (λ f. ¬ Hits f (two_mappings.store 0)) passing
stale_iff_example =
    stale_iff two_mappings two_mappings passing (0 ∷ []) 0
      (connft_coherent quiet_nft two_mappings-Reach) two_mappings-IsLive some_group passing_stale
