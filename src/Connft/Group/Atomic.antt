-- ===== src/Connft/Group/Atomic.antt =====
-- The operations of a group in pkg/dataplane/connft/connft_group.go are atomic, as the comments on
-- Group in pkg/dataplane/group.go say.
use proxygw.Prelude.{List, Option, [], arith, some, values, ℕ, ◌∷◌, ◌≡◌}
use proxygw.Dataplane.Mapping.{Mapping}
use proxygw.Connft.Nft.{Nft}
use proxygw.Connft.State.{Connft, Err}
use proxygw.Connft.Group.{
  add_mappings, del_mappings, clear_mappings, enable, disable, add_unlocked, del_unlocked,
  clear_unlocked,
}

-- The calls that change which mappings there are, or whether they are enabled.
pub data Change : Type 0 where
  add del : List Mapping → Change
  clear on off : Change

module _ (nft : Nft) where
  open nft use {Conn}

  abbrev pub apply : Change → Connft Conn → ℕ → Connft Conn × Option Err
  apply (add ms) d i = add_mappings nft d i ms
  apply (del ms) d i = del_mappings nft d i ms
  apply clear d i = clear_mappings nft d i
  apply on d i = enable nft d i
  apply off d i = disable nft d i

  add_unlocked_error :
      (d : Connft Conn) (i : ℕ) (ms : List Mapping) (e : Err)
      → (add_unlocked nft d i ms).1 ≡ some e
      → (add_unlocked nft d i ms).0 ≡ record d { conn = (add_unlocked nft d i ms).0.conn }
  unfolding add_unlocked
  add_unlocked_error d i [] e h = cc
  add_unlocked_error d i (m ∷ ms) e h = ground arith

  del_unlocked_error :
      (d : Connft Conn) (i : ℕ) (ms : List Mapping) (e : Err)
      → (del_unlocked nft d i ms).1 ≡ some e
      → (del_unlocked nft d i ms).0 ≡ record d { conn = (del_unlocked nft d i ms).0.conn }
  unfolding del_unlocked
  del_unlocked_error d i [] e h = cc
  del_unlocked_error d i (m ∷ ms) e h = ground arith

  -- A call that adds, deletes or clears mappings, or that enables or disables a group, and that
  -- fails, leaves the dataplane as it was, but for what the kernel was asked.
  pub change_atomic :
      (ch : Change) (d : Connft Conn) (i : ℕ) (e : Err)
      → (apply ch d i).1 ≡ some e
      → (apply ch d i).0 ≡ record d { conn = (apply ch d i).0.conn }
  unfolding add_mappings del_mappings clear_mappings clear_unlocked enable disable
  change_atomic (add ms) d i e h = ground (arith, add_unlocked_error d i ms e)
  change_atomic (del ms) d i e h = ground (arith, del_unlocked_error d i ms e)
  change_atomic clear d i e h =
      ground (arith, del_unlocked_error d i (values (d.store i).mappings_by_src) e)
  change_atomic on d i e h = ground arith
  change_atomic off d i e h = ground arith
