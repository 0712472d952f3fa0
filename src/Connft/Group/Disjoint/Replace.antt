-- ===== src/Connft/Group/Disjoint/Replace.antt =====
-- A write to one group keeps the invariant, if what is new in it clashes with nothing.
use proxygw.Prelude.{
  Bool-cases, Dict, In, In-append_left, In-append_right, Text, [], arith, bool_eq, false, inl, inr,
  lookup, lookup-In, nat_beq, nat_beq_iff, nat_eq, refl, some, subst, sym, text_eq, true, values, ℕ,
  ◌<◌, ◌==◌, ◌∙◌, ◌∷◌, ◌≡◌,
}
use proxygw.Dataplane.Mapping.{Mapping, overlaps}
use proxygw.Dataplane.Mapping.Overlap.{overlaps_comm}
use proxygw.Connft.Nft.{DnatKey, dnat_key_eq}
use proxygw.Connft.State.{Group, Connft, update, all_mappings}
use proxygw.Connft.Group.Sync.{Sync}
use proxygw.Connft.Group.Disjoint.{IsLive, Inv}

module _ {Conn : Type 0} where
  pub all_mappings-In :
      (d : Connft Conn) (groups : Dict Text ℕ) (name : Text) (i : ℕ) (k : DnatKey) (m : Mapping)
      → lookup name groups ≡ some i
      → lookup k (d.store i).mappings_by_src ≡ some m
      → In m (all_mappings d groups)
  unfolding all_mappings lookup
  all_mappings-In d [] name i k m h e = cc
  all_mappings-In d ((other, j) ∷ groups) name i k m h e = elim (Bool-cases (other == name)) [
    | inl q ↦
        In-append_left m (values (d.store j).mappings_by_src) (all_mappings d groups)
          (lookup-In k m (d.store j).mappings_by_src (ground arith))
    | inr q ↦
        In-append_right m (values (d.store j).mappings_by_src) (all_mappings d groups)
          (all_mappings-In d groups name i k m (ground arith) e)
  ]

-- Where an entry of the group `i`, rewritten to `g`, comes from: it was there, up to its timeout,
-- or it clashes with nothing.
pub data Origin {Conn : Type 0} (d : Connft Conn) (i : ℕ) (g : Group) (k : DnatKey) (x : Mapping)
    : Type 0 where
  kept :
      (y : Mapping)
      → lookup k (d.store i).mappings_by_src ≡ some y
      → ((z : Mapping) → overlaps x z ≡ overlaps y z)
      → Origin d i g k x
  fresh :
      ((j : ℕ) (l : DnatKey) (n : Mapping)
        → IsLive d j
        → lookup l (d.store j).mappings_by_src ≡ some n
        → overlaps x n ≡ false)
      → ((l : DnatKey) (n : Mapping)
          → lookup l g.mappings_by_src ≡ some n
          → overlaps x n ≡ true
          → k ≡ l)
      → Origin d i g k x

-- The same, for an entry of any group after the write.
data Entry {Conn : Type 0} (d : Connft Conn) (i : ℕ) (g : Group) (j : ℕ) (k : DnatKey) (x : Mapping)
    : Type 0 where
  kept :
      (y : Mapping)
      → lookup k (d.store j).mappings_by_src ≡ some y
      → ((z : Mapping) → overlaps x z ≡ overlaps y z)
      → Entry d i g j k x
  fresh :
      i ≡ j
      → ((j : ℕ) (l : DnatKey) (n : Mapping)
          → IsLive d j
          → lookup l (d.store j).mappings_by_src ≡ some n
          → overlaps x n ≡ false)
      → ((l : DnatKey) (n : Mapping)
          → lookup l g.mappings_by_src ≡ some n
          → overlaps x n ≡ true
          → k ≡ l)
      → Entry d i g j k x

module _ {Conn : Type 0} (d : Connft Conn) (i : ℕ) (g : Group) (c : Conn) (inv : Inv d)
    (made : i < d.next) (same_name : g.name ≡ (d.store i).name)
    (same_closed : g.closed ≡ (d.store i).closed)
    (origin : (k : DnatKey) (x : Mapping)
      → lookup k g.mappings_by_src ≡ some x
      → Origin d i g k x) where
  abbrev replaced : Connft Conn
  replaced = record d { store = update d.store i g; conn = c }

  was-IsLive : (j : ℕ) → IsLive replaced j → IsLive d j
  was-IsLive j h = ground (arith, nat_beq_iff i j)

  apart_of :
      (j₁ j₂ : ℕ) (k l : DnatKey) (m n : Mapping)
      → IsLive replaced j₁
      → IsLive replaced j₂
      → Entry d i g j₁ k m
      → Entry d i g j₂ l n
      → lookup l (replaced.store j₂).mappings_by_src ≡ some n
      → overlaps m n ≡ true
      → (j₁ ≡ j₂) × (k ≡ l)
  apart_of j₁ j₂ k l m n h₁ h₂ (kept y p same) (kept z q same') e o =
      inv.apart j₁ j₂ k l y z (was-IsLive j₁ h₁) (was-IsLive j₂ h₂) p q
        (sym (same z) ∙ overlaps_comm m z ∙ sym (same' m) ∙ overlaps_comm n m ∙ o)
  apart_of j₁ j₂ k l m n h₁ h₂ (kept y p same) (fresh e₂ old new) e o =
      ground (arith, old j₁ k y (was-IsLive j₁ h₁) p, same n, overlaps_comm n y)
  apart_of j₁ j₂ k l m n h₁ h₂ (fresh e₁ old new) (kept z q same') e o =
      ground (arith, old j₂ l z (was-IsLive j₂ h₂) q, same' m, overlaps_comm m n, overlaps_comm m z)
  apart_of j₁ j₂ k l m n h₁ h₂ (fresh e₁ old new) (fresh e₂ old' new') e o =
      (sym e₁ ∙ e₂, new l n (ground (arith, nat_beq_iff i j₂)) o)

  of_origin : (j : ℕ) (k : DnatKey) (x : Mapping) → i ≡ j → Origin d i g k x → Entry d i g j k x
  of_origin j k x e (kept y p same) =
      kept y (subst (λ i. lookup k (d.store i).mappings_by_src ≡ some y) e p) same
  of_origin j k x e (fresh old new) = fresh e old new

  entry_at :
      (j : ℕ) (k : DnatKey) (x : Mapping)
      → lookup k (replaced.store j).mappings_by_src ≡ some x
      → Entry d i g j k x
  entry_at j k x h = elim (Bool-cases (nat_beq i j)) [
    | inl e ↦ of_origin j k x ((nat_beq_iff i j).0 e) (origin k x (ground (arith, e)))
    | inr e ↦ kept x (ground (arith, e)) (λ z. refl)
  ]

  pub replace-Inv : Sync g → Inv replaced
  replace-Inv s = record {
    registered = λ name j h. ground (arith, inv.registered name j h, nat_beq_iff i j);
    ranged = inv.ranged;
    live = λ j h. ground (arith, inv.live j (was-IsLive j h), nat_beq_iff i j);
    sync = λ j h. elim (Bool-cases (nat_beq i j)) [ inl e ↦ rw e s | inr e ↦ rw e (inv.sync j h) ];
    apart = λ j₁ j₂ k l m n h₁ h₂ p q o.
        apart_of j₁ j₂ k l m n h₁ h₂ (entry_at j₁ k m p) (entry_at j₂ l n q) q o;
  }
