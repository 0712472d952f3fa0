-- ===== src/Connft/State.antt =====
-- The state of pkg/dataplane/connft/connft_group.go and of connft.go, its reads, and the checks that
-- addMappings and delMappings make. A group is an object that the dataplane and its owner share: it
-- stands in a store under a number, which is what the owner holds and what the dataplane's map of
-- names leads to.
use proxygw.Prelude.{
  Bool, Dict, List, Option, Text, [], bool_eq, false, if◌then◌else◌, inl, inr, insert, lookup,
  nat_eq, none, not, some, suc, text_eq, values, ℕ, ◌++◌, ◌==◌, ◌||◌, ◌∷◌, ◌⊎◌,
}
use proxygw.Netip.{AddrPort, addr_port_eq}
use proxygw.Config.Protocol.{Protocol}
use proxygw.Config.Ttl.{Ttl}
use proxygw.Dataplane.Mapping.{Mapping, Invalid, validate, overlaps}
use proxygw.Connft.Nft.{Errno, DnatKey, dnat_key_eq, Flows}

pub record Group : Type 0 where
  pub name : Text
  pub mappings_by_src : Dict DnatKey Mapping
  pub mappings_by_dst : Dict DnatKey Mapping
  pub flow_info_by_src : Flows
  pub enabled : Bool
  pub closed : Bool

-- ErrClosed, ErrGroupAlreadyRegistered, ErrNoSuchMapping, an error of Validate, the overlap of two
-- mappings, an error of the kernel, and errors.Join of two errors.
pub data Err : Type 0 where
  err_closed err_group_already_registered err_no_such_mapping : Err
  err_invalid : Invalid → Err
  err_overlap : Mapping → Mapping → Err
  err_kernel : Errno → Err
  err_conntrack : Err
  err_both : Err → Err → Err

abbrev pub join_err : Option Err → Option Err → Option Err
join_err none e = e
join_err (some x) none = some x
join_err (some x) (some y) = some (err_both x y)

pub record Connft (Conn : Type 0) : Type 0 where
  pub groups : Dict Text ℕ
  pub store : ℕ → Group
  pub next : ℕ
  pub conn : Conn
  pub closed : Bool

abbrev pub src_key : Mapping → DnatKey
src_key m = record { addr = m.source; proto = m.protocol }

abbrev pub dst_key : Mapping → DnatKey
dst_key m = record { addr = m.destination; proto = m.protocol }

-- A write to the object `i`.
abbrev pub update : (ℕ → Group) → ℕ → Group → ℕ → Group
update store i g j = if i == j then g else store j

unfoldable pub new_group : Text → Group
new_group name = record {
  name = name;
  mappings_by_src = [];
  mappings_by_dst = [];
  flow_info_by_src = [];
  enabled = false;
  closed = false;
}

abbrev pub kernel_err : Option Errno → Option Err
kernel_err none = none
kernel_err (some x) = some (err_kernel x)

module _ {Conn : Type 0} where
  abbrev pub set_group : Connft Conn → ℕ → Group → Connft Conn
  set_group d i g = record d { store = update d.store i g }

  -- `dg.closed || dg.dplane.closed`
  abbrev pub is_closed : Connft Conn → ℕ → Bool
  is_closed d i = (d.store i).closed || d.closed

  unfoldable pub new_connft_group : Connft Conn → Text → Connft Conn × (ℕ ⊎ Err)
  unfolding new_group
  new_connft_group d name = if d.closed then (d, inr err_closed) else elim (lookup name d.groups) [
    | some i ↦ (d, inr err_group_already_registered)
    | none ↦ (
      record d {
        groups = insert name d.next d.groups;
        store = update d.store d.next (new_group name);
        next = suc d.next;
      },
      inl d.next,
    )
  ]

  unfoldable pub is_enabled : Connft Conn → ℕ → Bool
  is_enabled d i = if is_closed d i then false else (d.store i).enabled

  unfoldable pub timeout : Connft Conn → ℕ → Protocol → AddrPort → Ttl ⊎ Err
  timeout d i protocol source =
      if is_closed d i
      then inr err_closed
      else elim (lookup (record { addr = source; proto = protocol }) (d.store i).mappings_by_src) [
        | none ↦ inr err_no_such_mapping
        | some m ↦ inl m.timeout
      ]

  unfoldable pub mappings : Connft Conn → ℕ → List Mapping
  mappings d i = if is_closed d i then [] else values (d.store i).mappings_by_src

  -- The mappings of every group that the dataplane names, as the loops of addMappings meet them.
  unfoldable pub all_mappings : Connft Conn → Dict Text ℕ → List Mapping
  all_mappings d [] = []
  all_mappings d ((name, i) ∷ groups) = values (d.store i).mappings_by_src ++ all_mappings d groups

-- The first of `xs` that `m` overlaps.
unfoldable pub first_overlap : Mapping → List Mapping → Option Err
first_overlap m [] = none
first_overlap m (x ∷ xs) =
    let rest = first_overlap m xs in if overlaps m x then some (err_overlap m x) else rest

-- The check for conflicts: each new mapping against those before it and those that are there.
unfoldable pub check_conflicts : List Mapping → List Mapping → List Mapping → Option Err
unfolding first_overlap
check_conflicts old before [] = none
check_conflicts old before (m ∷ ms) =
    let rest = check_conflicts old (before ++ m ∷ []) ms in
    elim (validate m) [
      | some x ↦ some (err_invalid x)
      | none ↦ elim (first_overlap m before) [
        | some x ↦ some x
        | none ↦ elim (first_overlap m old) [ some x ↦ some x | none ↦ rest ]
      ]
    ]

-- The check that the mappings to delete are there, exactly.
unfoldable pub check_present : Group → List Mapping → Option Err
check_present g [] = none
check_present g (m ∷ ms) =
    let rest = check_present g ms in
    elim (validate m) [
      | some x ↦ some (err_invalid x)
      | none ↦ elim (lookup (src_key m) g.mappings_by_src) [
        | none ↦ some err_no_such_mapping
        | some x ↦ if not (x.destination == m.destination) then some err_no_such_mapping else rest
      ]
    ]
