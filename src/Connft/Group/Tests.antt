-- ===== src/Connft/Group/Tests.antt =====
-- Runs of the operations of pkg/dataplane/connft/connft_group.go on a dataplane with one group.
use proxygw.Prelude.{
  [], arith, bool_eq, codes, insert, lookup, nat_eq, none, refl, some, suc, text_eq, true, ℕ, ◌∷◌,
  ◌≡◌, ◌≢◌,
}
use proxygw.Netip.{AddrPort, v4, is_unspecified, is4, addr_beq, addr_port_beq}
use proxygw.Config.Protocol.{tcp, is_valid, to_string}
use proxygw.Dataplane.Mapping.{Mapping, validate, overlaps}
use proxygw.Connft.Nft.{Nft, ensure_timeout_set, dnat_key_eq, dnat_key_beq}
use proxygw.Connft.Group.Disjoint.Closing.{close_closes_all}
use proxygw.Connft.Group.{close}
use proxygw.Connft.Group.Abstract
use proxygw.Connft.Group.Abstract.{table, after, call_refines}
use proxygw.Connft.State.{
  Group, Connft, new_group, new_connft_group, all_mappings, check_conflicts, first_overlap, src_key,
  err_overlap,
}
use proxygw.Connft.Group.{add_mappings, add_unlocked, install}
use proxygw.Connft.Group.Atomic.{add, apply, change_atomic}
use proxygw.Connft.Group.Disjoint.{IsLive, Inv}
use proxygw.Connft.Group.Disjoint.History.{
  Reach, fresh_connft, start, new, add as add_to, connft_coherent, sources-ne-destinations,
  mappings_one_to_one,
}

-- A kernel that accepts everything.
abbrev pub quiet_nft : Nft
quiet_nft = record {
  Conn = ℕ;
  set_add_elements = λ set e c. (suc c, none);
  set_delete_elements = λ set e c. (suc c, none);
  add_obj = λ o c. suc c;
  delete_object = λ o c. suc c;
  add_rule = λ r c. suc c;
  del_rule = λ r c. (suc c, none);
  del_table = λ c. suc c;
  flush = λ c. (c, none);
}

abbrev pub host : ℕ → ℕ → AddrPort
host n p = record { addr = v4 (10 ∷ 0 ∷ 0 ∷ n ∷ []); port = p }

abbrev pub web : Mapping
web = record { source = host 1 80; destination = host 2 8080; timeout = 60; protocol = tcp }

abbrev pub api : Mapping
api = record { source = host 1 443; destination = host 3 8443; timeout = 60; protocol = tcp }

abbrev pub empty_store : ℕ → Group
empty_store i = new_group []

abbrev pub one_group : Connft ℕ
one_group = (new_connft_group (fresh_connft empty_store 0) (codes "web")).0

abbrev pub two_mappings : Connft ℕ
two_mappings = (add_mappings quiet_nft one_group 0 (web ∷ api ∷ [])).0

one_group_next : one_group.next ≡ 1
unfolding new_connft_group lookup
one_group_next = refl

one_group-Reach : Reach quiet_nft one_group
one_group-Reach = new (codes "web") (start empty_store 0)

pub two_mappings-Reach : Reach quiet_nft two_mappings
two_mappings-Reach = add_to 0 (web ∷ api ∷ []) (rw one_group_next (omega arith)) one_group-Reach

pub two_mappings-IsLive : IsLive two_mappings 0
unfolding add_mappings add_unlocked new_connft_group new_group lookup all_mappings check_conflicts
    first_overlap validate overlaps install insert is_valid to_string addr_port_beq addr_beq
    ensure_timeout_set is_unspecified dnat_key_beq
two_mappings-IsLive = (omega arith, refl)

pub web_there : lookup (src_key web) (two_mappings.store 0).mappings_by_src ≡ some web
unfolding add_mappings add_unlocked new_connft_group new_group lookup all_mappings check_conflicts
    first_overlap validate overlaps install insert is_valid to_string addr_port_beq addr_beq
    ensure_timeout_set is_unspecified dnat_key_beq
web_there = refl

pub api_there : lookup (src_key api) (two_mappings.store 0).mappings_by_src ≡ some api
unfolding add_mappings add_unlocked new_connft_group new_group lookup all_mappings check_conflicts
    first_overlap validate overlaps install insert is_valid to_string addr_port_beq addr_beq
    ensure_timeout_set is_unspecified dnat_key_beq
api_there = refl

web_ne_api : web ≢ api
web_ne_api e = cc

sources-ne-destinations_example : web.source ≢ api.destination
sources-ne-destinations_example =
    sources-ne-destinations quiet_nft two_mappings-Reach 0 0 (src_key web) (src_key api) web api
      two_mappings-IsLive two_mappings-IsLive web_there api_there refl

mappings_one_to_one_example :
    (web.source ≢ api.source)
    × (web.destination ≢ api.destination)
    × ¬ (
        (is4 web.source.addr ≡ is4 api.source.addr)
        × (web.source.port ≡ api.source.port)
        × (is_unspecified web.source.addr ≡ true))
mappings_one_to_one_example =
    mappings_one_to_one quiet_nft two_mappings-Reach 0 0 (src_key web) (src_key api) web api
      two_mappings-IsLive two_mappings-IsLive web_there api_there refl (λ e. web_ne_api e.1)

connft_coherent_example : Inv two_mappings
connft_coherent_example = connft_coherent quiet_nft two_mappings-Reach

twice_refused : (apply quiet_nft (add (web ∷ web ∷ [])) one_group 0).1 ≡ some (err_overlap web web)
unfolding add_mappings add_unlocked new_connft_group new_group lookup all_mappings check_conflicts
    first_overlap validate overlaps install insert is_valid to_string addr_port_beq addr_beq
    ensure_timeout_set is_unspecified dnat_key_beq
twice_refused = refl

change_atomic_example :
    (apply quiet_nft (add (web ∷ web ∷ [])) one_group 0).0
    ≡ record one_group { conn = (apply quiet_nft (add (web ∷ web ∷ [])) one_group 0).0.conn }
change_atomic_example =
    change_atomic quiet_nft (add (web ∷ web ∷ [])) one_group 0 (err_overlap web web) twice_refused

call_refines_example :
    table ((Abstract.call quiet_nft (Abstract.del (web ∷ [])) two_mappings 0).0.store 0)
    ≡ after
        (Abstract.call quiet_nft (Abstract.del (web ∷ [])) two_mappings 0).1
        (Abstract.del (web ∷ []))
        0
        (λ j. table (two_mappings.store j))
        0
call_refines_example =
    call_refines quiet_nft two_mappings 0 0 two_mappings-Reach two_mappings-IsLive.0
      (Abstract.del (web ∷ []))

close_closes_all_example :
    ((close quiet_nft two_mappings).0.closed ≡ true)
    × ((i : ℕ) → ¬ IsLive (close quiet_nft two_mappings).0 i)
close_closes_all_example = close_closes_all quiet_nft two_mappings-Reach
