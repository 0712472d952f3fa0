-- ===== src/Connft/Group/Disjoint.antt =====
-- The mappings of all groups of one dataplane (pkg/dataplane/connft/connft_group.go) do not
-- overlap, and its map of names leads to the groups that are open.
mod Replace
mod Install
mod Retime
mod Operations
mod Lifecycle
pub mod History
pub mod Closing
pub mod Traffic
use proxygw.Prelude.{All, Text, bool_eq, false, lookup, nat_eq, some, text_eq, true, ℕ, ◌<◌, ◌≡◌}
use proxygw.Dataplane.Mapping.{Mapping, overlaps}
use proxygw.Connft.Nft.{DnatKey, dnat_key_eq}
use proxygw.Connft.State.{Connft}
use proxygw.Connft.Group.Sync.{Sync}

module _ {Conn : Type 0} where
  -- The group `i` was made by this dataplane and is not closed.
  abbrev pub IsLive : Connft Conn → ℕ → Type 0
  IsLive d i = (i < d.next) × ((d.store i).closed ≡ false)

  pub record Inv (d : Connft Conn) : Type 0 where
    pub registered :
        (name : Text) (i : ℕ)
        → lookup name d.groups ≡ some i
        → (i < d.next) × ((d.store i).closed ≡ false) × ((d.store i).name ≡ name)
    pub ranged : All (λ e. e.1 < d.next) d.groups
    pub live : (i : ℕ) → IsLive d i → lookup (d.store i).name d.groups ≡ some i
    pub sync : (i : ℕ) → i < d.next → Sync (d.store i)
    pub apart :
        (i j : ℕ) (k l : DnatKey) (m n : Mapping)
        → IsLive d i
        → IsLive d j
        → lookup k (d.store i).mappings_by_src ≡ some m
        → lookup l (d.store j).mappings_by_src ≡ some n
        → overlaps m n ≡ true
        → (i ≡ j) × (k ≡ l)
