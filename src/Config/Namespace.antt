-- ===== src/Config/Namespace.antt =====
-- pkg/config/namespace.go.
use proxygw.Prelude.{
  All, List, Option, Text, [], arith, bool_eq, if◌then◌else◌, is_empty, is_empty_iff, nat_eq, none,
  refl, some, sym, text_eq, ℕ, ◌++◌, ◌==◌, ◌||◌, ◌∙◌, ◌∷◌, ◌≡◌, ◌≢◌,
}

pub record NamespaceReference : Type 0 where
  pub namespace : Text
  pub name : Text

-- strings.Split for a separator of one byte.
abbrev push : ℕ → List Text → List Text
push c [] = (c ∷ []) ∷ []
push c (p ∷ ps) = (c ∷ p) ∷ ps

unfoldable pub split : Text → ℕ → List Text
split [] sep = [] ∷ []
split (c ∷ s) sep = let rest = split s sep in if c == sep then [] ∷ rest else push c rest

abbrev colon : ℕ
colon = b':'

-- The test on the parts.
unfoldable pub of_parts : List Text → Option NamespaceReference
of_parts (namespace ∷ name ∷ []) =
    if is_empty namespace || is_empty name
    then none
    else some (record { namespace = namespace; name = name })
of_parts _ = none

unfoldable pub parse : Text → Option NamespaceReference
unfolding of_parts
parse text = of_parts (split text colon)

unfoldable pub to_string : NamespaceReference → Text
to_string r = r.namespace ++ colon ∷ r.name

abbrev NoColon : Text → Type 0
NoColon = All (λ c. c ≢ colon)

split-NoColon : (s : Text) → NoColon s → split s colon ≡ s ∷ []
unfolding split
split-NoColon [] h = refl
split-NoColon (c ∷ s) h = ground (arith, split-NoColon s h.1)

split-append : (s t : Text) → NoColon s → split (s ++ colon ∷ t) colon ≡ s ∷ split t colon
unfolding split
split-append [] t h = ground arith
split-append (c ∷ s) t h = ground (arith, split-append s t h.1)

-- A reference whose two parts are not empty and have no colon is printed and parsed back
-- unchanged.
pub parse_reference-to_string :
    (r : NamespaceReference)
    → r.namespace ≢ []
    → r.name ≢ []
    → All (λ c. c ≢ b':') r.namespace
    → All (λ c. c ≢ b':') r.name
    → parse (to_string r) ≡ some r
unfolding parse to_string
parse_reference-to_string r h k n m =
    ground (arith, split-append r.namespace r.name n, split-NoColon r.name m)

join : List Text → Text
join [] = []
join (p ∷ []) = p
join (p ∷ q ∷ ps) = p ++ colon ∷ join (q ∷ ps)

join-push : (c : ℕ) (ps : List Text) → join (push c ps) ≡ c ∷ join ps
unfolding join
join-push c [] = refl
join-push c (p ∷ []) = refl
join-push c (p ∷ q ∷ ps) = refl

join-nil : (ps : List Text) → ps ≢ [] → join ([] ∷ ps) ≡ colon ∷ join ps
unfolding join
join-nil [] h = absurd (h refl)
join-nil (p ∷ ps) h = refl

push_ne : (c : ℕ) (ps : List Text) → push c ps ≢ []
push_ne c [] h = cc
push_ne c (p ∷ ps) h = cc

split_ne : (s : Text) → split s colon ≢ []
unfolding split
split_ne [] h = cc
split_ne (c ∷ s) h = ground (arith, push_ne c (split s colon))

join-split : (s : Text) → join (split s colon) ≡ s
unfolding split
join-split [] = unfold join in refl
join-split (c ∷ s) =
    ground (arith, join-push c (split s colon), join-nil (split s colon) (split_ne s), join-split s)

of_parts-join :
    (ps : List Text) (r : NamespaceReference)
    → of_parts ps ≡ some r
    → (join ps ≡ to_string r) × (r.namespace ≢ []) × (r.name ≢ [])
unfolding of_parts join to_string
of_parts-join [] r h = cc
of_parts-join (n ∷ []) r h = cc
of_parts-join (n ∷ m ∷ []) r h = ground (arith, is_empty_iff n, is_empty_iff m)
of_parts-join (n ∷ m ∷ p ∷ ps) r h = cc

-- A text that parses to a reference is what the reference prints, and neither part is empty.
pub to_string-parse :
    (text : Text) (r : NamespaceReference)
    → parse text ≡ some r
    → (to_string r ≡ text) × (r.namespace ≢ []) × (r.name ≢ [])
unfolding parse
to_string-parse text r h =
    let (e, n, m) = of_parts-join (split text colon) r h in (sym e ∙ join-split text, n, m)
