-- ===== src/Ctl/Sorting.antt =====
-- What plugin/ctl/server.go uses of Go's slices.SortFunc: values in the order of their names. Names are
-- different there, and then there is one such order.
use proxygw.Prelude.{
  All, Bool, List, Text, [], ap, arith, bool_eq, eq_comm, eq_iff, false, if◌then◌else◌, ltb, map,
  nat_eq, refl, text_eq, true, ◌==◌, ◌∙◌, ◌∷◌, ◌≡◌,
}

-- Go's `<` on strings
abbrev pub text_ltb : Text → Text → Bool
text_ltb [] [] = false
text_ltb [] (y ∷ ys) = true
text_ltb (x ∷ xs) [] = false
text_ltb (x ∷ xs) (y ∷ ys) =
    let rest = text_ltb xs ys in if ltb x y then true else if x == y then rest else false

text_ltb_asymm : (s t : Text) → text_ltb s t ≡ true → text_ltb t s ≡ false
text_ltb_asymm [] [] h = refl
text_ltb_asymm [] (y ∷ t) h = refl
text_ltb_asymm (x ∷ s) [] h = cc
text_ltb_asymm (x ∷ s) (y ∷ t) h = ground (arith, text_ltb_asymm s t)

text_ltb_total : (s t : Text) → text_ltb s t ≡ false → text_ltb t s ≡ false → s ≡ t
text_ltb_total [] [] h k = refl
text_ltb_total [] (y ∷ t) h k = cc
text_ltb_total (x ∷ s) [] h k = cc
text_ltb_total (x ∷ s) (y ∷ t) h k = ground (arith, text_ltb_total s t)

text_ltb_trans : (s t u : Text) → text_ltb s t ≡ true → text_ltb t u ≡ true → text_ltb s u ≡ true
text_ltb_trans s [] [] h k = cc
text_ltb_trans s (y ∷ t) [] h k = cc
text_ltb_trans [] t (z ∷ u) h k = refl
text_ltb_trans (x ∷ s) [] (z ∷ u) h k = cc
text_ltb_trans (x ∷ s) (y ∷ t) (z ∷ u) h k = ground (arith, text_ltb_trans s t u)

-- Two lists of the same values, in any order.
pub data Reorder {ℓ} {A : Type ℓ} : List A → List A → Type ℓ where
  none : Reorder [] []
  keep : {xs ys : List A} (x : A) → Reorder xs ys → Reorder (x ∷ xs) (x ∷ ys)
  swap : (x y : A) (xs : List A) → Reorder (x ∷ y ∷ xs) (y ∷ x ∷ xs)
  both : {xs ys zs : List A} → Reorder xs ys → Reorder ys zs → Reorder xs zs

pub map-Reorder :
    {A B : Type 0} (f : A → B) {xs ys : List A} → Reorder xs ys → Reorder (map f xs) (map f ys)
map-Reorder f Reorder.none = Reorder.none
map-Reorder f (keep x r) = keep (f x) (map-Reorder f r)
map-Reorder f (swap x y xs) = swap (f x) (f y) (map f xs)
map-Reorder f (both r s) = both (map-Reorder f r) (map-Reorder f s)

module _ {A : Type 0} (name : A → Text) where
  abbrev insert_sorted : A → List A → List A
  insert_sorted x [] = x ∷ []
  insert_sorted x (y ∷ ys) =
      let rest = insert_sorted x ys in if text_ltb (name y) (name x) then y ∷ rest else x ∷ y ∷ ys

  unfoldable pub sort_by : List A → List A
  sort_by [] = []
  sort_by (x ∷ xs) = insert_sorted x (sort_by xs)

  -- No two values have one name.
  abbrev pub Distinct : List A → Type 0
  Distinct [] = Unit {0}
  Distinct (x ∷ xs) = All (λ y. (name x == name y) ≡ false) xs × Distinct xs

  insert_sorted_comm :
      (a b : A) (xs : List A)
      → (name a == name b) ≡ false
      → insert_sorted a (insert_sorted b xs) ≡ insert_sorted b (insert_sorted a xs)
  insert_sorted_comm a b [] h = ground (
    arith,
    eq_iff (name a) (name b),
    text_ltb_asymm (name a) (name b),
    text_ltb_total (name a) (name b),
  )
  insert_sorted_comm a b (x ∷ xs) h = ground (
    arith,
    insert_sorted_comm a b xs h,
    eq_iff (name a) (name b),
    text_ltb_asymm (name a) (name b),
    text_ltb_total (name a) (name b),
    text_ltb_trans (name x) (name a) (name b),
    text_ltb_trans (name x) (name b) (name a),
    text_ltb_trans (name a) (name b) (name x),
    text_ltb_trans (name b) (name a) (name x),
    text_ltb_asymm (name a) (name x),
    text_ltb_asymm (name b) (name x),
    text_ltb_total (name a) (name x),
    text_ltb_total (name b) (name x),
  )

  Reorder-All : {xs ys : List A} (P : A → Type 0) → Reorder xs ys → All P xs → All P ys
  Reorder-All P Reorder.none h = tt
  Reorder-All P (keep x r) h = (h.0, Reorder-All P r h.1)
  Reorder-All P (swap x y xs) h = (h.1.0, (h.0, h.1.1))
  Reorder-All P (both r s) h = Reorder-All P s (Reorder-All P r h)

  Reorder-Distinct : {xs ys : List A} → Reorder xs ys → Distinct xs → Distinct ys
  Reorder-Distinct Reorder.none d = tt
  Reorder-Distinct (keep x r) d =
      (Reorder-All (λ y. (name x == name y) ≡ false) r d.0, Reorder-Distinct r d.1)
  Reorder-Distinct (swap x y xs) d = ((eq_comm (name y) (name x) ∙ d.0.0, d.1.0), (d.0.1, d.1.1))
  Reorder-Distinct (both r s) d = Reorder-Distinct s (Reorder-Distinct r d)

  pub sort_by-Reorder : {xs ys : List A} → Reorder xs ys → Distinct xs → sort_by xs ≡ sort_by ys
  unfolding sort_by
  sort_by-Reorder Reorder.none d = refl
  sort_by-Reorder (keep x r) d = ap (insert_sorted x) (sort_by-Reorder r d.1)
  sort_by-Reorder (swap x y xs) d = insert_sorted_comm x y (sort_by xs) d.0.0
  sort_by-Reorder (both r s) d = sort_by-Reorder r d ∙ sort_by-Reorder s (Reorder-Distinct r d)
