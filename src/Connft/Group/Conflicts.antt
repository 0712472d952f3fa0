-- ===== src/Connft/Group/Conflicts.antt =====
-- What the check for conflicts of addMappings in pkg/dataplane/connft/connft_group.go establishes.
use proxygw.Prelude.{
  All, All-In, In, In-append_left, In-append_right, List, [], arith, false, inl, inr, none, refl,
  sym, true, ◌++◌, ◌↔◌, ◌∙◌, ◌∷◌, ◌≡◌,
}
use proxygw.Dataplane.Mapping.{Mapping, overlaps}
use proxygw.Dataplane.Mapping.Overlap.{IsValid, mapping_validate_iff, overlaps_comm}
use proxygw.Connft.State.{first_overlap, check_conflicts}

abbrev AllApart : Mapping → List Mapping → Type 0
AllApart m xs = All (λ x. overlaps m x ≡ false) xs

first_overlap_iff : (m : Mapping) (xs : List Mapping) → (first_overlap m xs ≡ none) ↔ AllApart m xs
unfolding first_overlap
first_overlap_iff m [] = ground arith
first_overlap_iff m (x ∷ xs) = ground (arith, first_overlap_iff m xs)

-- The check in its own words.
abbrev Cleared : List Mapping → List Mapping → List Mapping → Type 0
Cleared old before [] = Unit
Cleared old before (m ∷ ms) =
    IsValid m × AllApart m before × AllApart m old × Cleared old (before ++ m ∷ []) ms

check_conflicts_iff :
    (old before ms : List Mapping) → (check_conflicts old before ms ≡ none) ↔ Cleared old before ms
unfolding check_conflicts
check_conflicts_iff old before [] = ground arith
check_conflicts_iff old before (m ∷ ms) = ground (
  arith,
  mapping_validate_iff m,
  first_overlap_iff m before,
  first_overlap_iff m old,
  check_conflicts_iff old (before ++ m ∷ []) ms,
)

Cleared-before :
    (old before ms : List Mapping) (n x : Mapping)
    → Cleared old before ms
    → In n ms
    → In x before
    → overlaps n x ≡ false
Cleared-before old before [] n x h i j = absurd i
Cleared-before old before (m ∷ ms) n x h (inl e) j =
    rw e (All-In (λ x. overlaps m x ≡ false) before x h.1 j)
Cleared-before old before (m ∷ ms) n x h (inr i) j =
    Cleared-before old (before ++ m ∷ []) ms n x h.3 i (In-append_left x before (m ∷ []) j)

Cleared-old :
    (old before ms : List Mapping) (n x : Mapping)
    → Cleared old before ms
    → In n ms
    → In x old
    → overlaps n x ≡ false
Cleared-old old before [] n x h i j = absurd i
Cleared-old old before (m ∷ ms) n x h (inl e) j =
    rw e (All-In (λ x. overlaps m x ≡ false) old x h.2 j)
Cleared-old old before (m ∷ ms) n x h (inr i) j = Cleared-old old (before ++ m ∷ []) ms n x h.3 i j

Cleared-IsValid :
    (old before ms : List Mapping) (n : Mapping) → Cleared old before ms → In n ms → IsValid n
Cleared-IsValid old before [] n h i = absurd i
Cleared-IsValid old before (m ∷ ms) n h (inl e) = rw e h.0
Cleared-IsValid old before (m ∷ ms) n h (inr i) = Cleared-IsValid old (before ++ m ∷ []) ms n h.3 i

Cleared-pair :
    (old before ms : List Mapping) (m n : Mapping)
    → Cleared old before ms
    → In m ms
    → In n ms
    → overlaps m n ≡ true
    → m ≡ n
Cleared-pair old before [] m n h i j o = absurd i
Cleared-pair old before (x ∷ ms) m n h (inl e) (inl f) o = e ∙ sym f
Cleared-pair old before (x ∷ ms) m n h (inl e) (inr j) o = ground (
  arith,
  overlaps_comm m n,
  e,
  Cleared-before old (before ++ x ∷ []) ms n x h.3 j (In-append_right x before (x ∷ []) (inl refl)),
)
Cleared-pair old before (x ∷ ms) m n h (inr i) (inl f) o = ground (
  arith,
  f,
  Cleared-before old (before ++ x ∷ []) ms m x h.3 i (In-append_right x before (x ∷ []) (inl refl)),
)
Cleared-pair old before (x ∷ ms) m n h (inr i) (inr j) o =
    Cleared-pair old (before ++ x ∷ []) ms m n h.3 i j o

-- New mappings that pass: each is valid, none overlaps one that is there, and no two that differ
-- overlap.
pub record Clearance (old ms : List Mapping) : Type 0 where
  pub valid : (m : Mapping) → In m ms → IsValid m
  pub apart : (m x : Mapping) → In m ms → In x old → overlaps m x ≡ false
  pub pair : (m n : Mapping) → In m ms → In n ms → overlaps m n ≡ true → m ≡ n

pub check_conflicts-Clearance :
    (old ms : List Mapping) → check_conflicts old [] ms ≡ none → Clearance old ms
check_conflicts-Clearance old ms h =
    let c = (check_conflicts_iff old [] ms).0 h in
    record {
      valid = λ m i. Cleared-IsValid old [] ms m c i;
      apart = λ m x i j. Cleared-old old [] ms m x c i j;
      pair = λ m n i j o. Cleared-pair old [] ms m n c i j o;
    }
