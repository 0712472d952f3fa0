-- ===== src/Ctl/Status/Order.antt =====
-- The answer of statusResponse of plugin/ctl/server.go does not show in which order Go walks the maps of
-- pkg/engine/engine.go.
use proxygw.Prelude.{
  All, Dict, List, Text, Unique, [], arith, bool_eq, eq_iff, eq_refl, false, lookup, map, nat_eq,
  none, some, sym, text_eq, values, ℕ, ◌==◌, ◌∷◌, ◌≡◌,
}
use proxygw.Engine.{Engine}
use proxygw.Engine.Invariant.{Inv}
use proxygw.Ctl.Sorting.{Reorder, map-Reorder, Distinct, sort_by, sort_by-Reorder}
use proxygw.Ctl.Status.{Printer, status_response}

module _ {A : Type 0} (name : A → Text) (at : ℕ → A) where
  -- Each object that the map leads to has its key's name.
  abbrev Named : Dict Text ℕ → Type 0
  Named dict = (key : Text) (i : ℕ) → lookup key dict ≡ some i → name (at i) ≡ key

  rest-Named :
      (key : Text) (i : ℕ) (dict : Dict Text ℕ)
      → lookup key dict ≡ none
      → Named ((key, i) ∷ dict)
      → Named dict
  unfolding lookup
  rest-Named key i dict u n at_key j h = n at_key j (ground (arith, eq_iff key at_key))

  others_apart :
      (key : Text) (dict : Dict Text ℕ)
      → lookup key dict ≡ none
      → Unique dict
      → Named dict
      → All (λ y. (key == name y) ≡ false) (map at (values dict))
  unfolding lookup Unique
  others_apart key [] h u n = tt
  others_apart key ((here, i) ∷ dict) h u n = (
    ground
        (arith, n here i (ground (arith, eq_refl here)), eq_iff key (name (at i)), eq_iff here key),
    others_apart key dict (ground arith) u.1 (rest-Named here i dict u.0 n),
  )

  -- The objects of a map with one entry for a key have different names.
  values-Distinct :
      (dict : Dict Text ℕ) → Unique dict → Named dict → Distinct name (map at (values dict))
  unfolding Unique lookup
  values-Distinct [] u n = tt
  values-Distinct ((key, i) ∷ dict) u n = (
    rw (n key i (ground (arith, eq_refl key)))
        (others_apart key dict u.0 u.1 (rest-Named key i dict u.0 n)),
    values-Distinct dict u.1 (rest-Named key i dict u.0 n),
  )

  -- Sorted by name, they are the same in whichever order they come.
  sort_values :
      (dict : Dict Text ℕ) (order : List ℕ)
      → Unique dict
      → Named dict
      → Reorder (values dict) order
      → sort_by name (map at order) ≡ sort_by name (map at (values dict))
  sort_values dict order u n r =
      sym (sort_by-Reorder name (map-Reorder at r) (values-Distinct dict u n))

module _ (print : Printer) {Conn TC FC : Type 0} where
  -- Two ways in which Go may walk the maps of targets and of frontends of one engine give one
  -- status, if the engine is as calls on it leave it.
  pub status_response_order :
      (e : Engine Conn TC FC) (ts fs : Dict Text ℕ)
      → Inv e
      → Reorder (values e.targets) (values ts)
      → Reorder (values e.frontends) (values fs)
      → status_response print (record e { targets = ts; frontends = fs }) ≡ status_response print e
  unfolding status_response
  status_response_order e ts fs v r s =
      let targets_same =
        sort_values (λ t. t.name) e.target_at e.targets (values ts) v.targets_unique
          (λ key i h. (v.targets key i h).1) r in
      let frontends_same =
        sort_values (λ f. f.name) e.frontend_at e.frontends (values fs) v.frontends_unique
          (λ key i h. (v.frontends key i h).1) s in
      cc
