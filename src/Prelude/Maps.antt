-- ===== src/Prelude/Maps.antt =====
-- Go's `map[K]V` as an association list with one entry for a key; the order stands for the order
-- in which one `range` happens to walk the map.
use mathlib.Core.Path.{◌≡◌, refl, subst}
use mathlib.Core.Bool.{Bool, true, false}
use mathlib.Core.Logic.{inl, inr}
use mathlib.Core.List.{List, [], ◌∷◌, map}
use mathlib.Core.Option.{Option, none, some}
use native.Mathlib.Omega.{arith}
use proxygw.Prelude.Tests.{if◌then◌else◌, Eq, ◌==◌, eq_iff, eq_refl, Bool-cases}
use proxygw.Prelude.Lists.{In, All}

abbrev pub Dict {ℓ κ} : Type ℓ → Type κ → Type (ℓ ⊔ κ)
Dict K V = List (K × V)

module _ {ℓ κ} {K : Type ℓ} {V : Type κ} where
  -- `len(m) == 0`
  abbrev pub is_empty_map : Dict K V → Bool
  is_empty_map [] = true
  is_empty_map (e ∷ dict) = false

  abbrev pub values : Dict K V → List V
  values = map (λ e. e.1)

module _ {ℓ κ} {K : Type ℓ} {V : Type κ} ⦃e : Eq K⦄ where
  -- `m[k]` with its second result.
  unfoldable pub lookup : K → Dict K V → Option V
  lookup key [] = none
  lookup key ((at, v) ∷ dict) = if at == key then some v else lookup key dict

  -- `m[k] = v`.
  unfoldable pub insert : K → V → Dict K V → Dict K V
  insert key v [] = (key, v) ∷ []
  insert key v ((at, old) ∷ dict) =
      if at == key then (key, v) ∷ dict else (at, old) ∷ insert key v dict

  -- `delete(m, k)`.
  unfoldable pub delete : K → Dict K V → Dict K V
  delete key [] = []
  delete key ((at, old) ∷ dict) = if at == key then delete key dict else (at, old) ∷ delete key dict

  pub lookup-insert :
      (key at : K) (v : V) (dict : Dict K V)
      → lookup at (insert key v dict) ≡ (if key == at then some v else lookup at dict)
  unfolding lookup insert
  lookup-insert key at v [] = refl
  lookup-insert key at v ((here, old) ∷ dict) =
      ground (arith, eq_iff key at, eq_iff here key, eq_iff here at, lookup-insert key at v dict)

  pub lookup-delete :
      (key at : K) (dict : Dict K V)
      → lookup at (delete key dict) ≡ (if key == at then none else lookup at dict)
  unfolding lookup delete
  lookup-delete key at [] = ground arith
  lookup-delete key at ((here, old) ∷ dict) =
      ground (arith, eq_iff key at, eq_iff here key, eq_iff here at, lookup-delete key at dict)

  pub lookup-insert_self :
      (key : K) (v : V) (dict : Dict K V) → lookup key (insert key v dict) ≡ some v
  lookup-insert_self key v dict = simp (lookup-insert, eq_refl)

  pub lookup-delete_self : (key : K) (dict : Dict K V) → lookup key (delete key dict) ≡ none
  lookup-delete_self key dict = simp (lookup-delete, eq_refl)

module _ {ℓ} {K : Type ℓ} {V : Type 0} ⦃e : Eq K⦄ where
  pub lookup-In :
      (key : K) (v : V) (dict : Dict K V) → lookup key dict ≡ some v → In v (values dict)
  unfolding lookup
  lookup-In key v [] h = cc
  lookup-In key v ((at, old) ∷ dict) h = ground (arith, lookup-In key v dict)

  -- A property of every entry outlives a write and a deletion.
  pub All-insert {κ} :
      (P : K × V → Type κ) (key : K) (v : V) (dict : Dict K V)
      → P (key, v)
      → All P dict
      → All P (insert key v dict)
  unfolding insert
  All-insert P key v [] p h = (p, tt)
  All-insert P key v ((at, old) ∷ dict) p h = elim (Bool-cases (at == key)) [
    | inl e ↦ rw e (p, h.1)
    | inr e ↦ rw e (h.0, All-insert P key v dict p h.1)
  ]

  pub All-delete {κ} :
      (P : K × V → Type κ) (key : K) (dict : Dict K V) → All P dict → All P (delete key dict)
  unfolding delete
  All-delete P key [] h = tt
  All-delete P key ((at, old) ∷ dict) h = elim (Bool-cases (at == key)) [
    | inl e ↦ rw e (All-delete P key dict h.1)
    | inr e ↦ rw e (h.0, All-delete P key dict h.1)
  ]

module _ {ℓ} {K : Type ℓ} {V : Type 0} ⦃e : Eq K⦄ where
  -- No key has two entries.
  unfoldable pub Unique : Dict K V → Type 0
  Unique [] = Unit {0}
  Unique ((key, v) ∷ dict) = (lookup key dict ≡ none) × Unique dict

  pub insert-Unique : (key : K) (v : V) (dict : Dict K V) → Unique dict → Unique (insert key v dict)
  unfolding Unique insert lookup
  insert-Unique key v [] u = (refl, tt)
  insert-Unique key v ((at, old) ∷ dict) u = elim (Bool-cases (at == key)) [
    | inl h ↦ rw h (subst (λ x. lookup x dict ≡ none) ((eq_iff at key).0 h) u.0, u.1)
    | inr h ↦ rw h (
      ground (arith, lookup-insert key at v dict, eq_iff key at, eq_iff at key),
      insert-Unique key v dict u.1,
    )
  ]

  pub delete-Unique : (key : K) (dict : Dict K V) → Unique dict → Unique (delete key dict)
  unfolding Unique delete
  delete-Unique key [] u = tt
  delete-Unique key ((at, old) ∷ dict) u = elim (Bool-cases (at == key)) [
    | inl h ↦ rw h (delete-Unique key dict u.1)
    | inr h ↦ rw h (ground (arith, lookup-delete key at dict), delete-Unique key dict u.1)
  ]

module _ {V : Type 0} {K : Type 0} ⦃e : Eq K⦄ where
  pub lookup-entry :
      (key : K) (v : V) (dict : Dict K V) → lookup key dict ≡ some v → In (key, v) dict
  unfolding lookup
  lookup-entry key v [] h = cc
  lookup-entry key v ((at, old) ∷ dict) h = ground (arith, lookup-entry key v dict, eq_iff at key)
