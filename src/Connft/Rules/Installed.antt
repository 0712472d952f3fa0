-- ===== src/Connft/Rules/Installed.antt =====
-- The kernel's maps when they hold the elements of mappings, as ensureDNATAdded of
-- pkg/dataplane/connft/connft_nft.go adds them.
use proxygw.Prelude.{
  Bool, Bool-cases, In, List, [], arith, bool_eq, if◌then◌else◌, inl, inr, length, nat_eq, none,
  not, refl, some, subst, sym, text_beq_iff, text_eq, true, ℕ, ◌&&◌, ◌==◌, ◌↔◌, ◌∙◌, ◌∷◌, ◌≡◌, ◌≢◌,
  ◌⊎◌,
}
use proxygw.Netip.{
  Addr, AddrPort, IsAddr, IsAddrPort, invalid, v4, v6, as_slice, is4, is6, is_unspecified,
}
use proxygw.Dataplane.Mapping.{Mapping, overlaps}
use proxygw.Dataplane.Mapping.Overlap.{IsValid}
use proxygw.Connft.Encode.{compile_set_element}
use proxygw.Connft.Nft.{set_of}
use proxygw.Connft.Rules.{SetName, dnat_specific4, dnat_specific6, dnat_wildcard4, dnat_wildcard6}
use proxygw.Connft.Rules.Machine.{Maps}
use proxygw.Connft.Rules.Translate.{Fits, address_bytes}

-- `set_of` is the map.
unfoldable pub holds : SetName → Addr → Bool
holds dnat_wildcard4 a = not (is6 a) && is4 a && is_unspecified a
holds dnat_specific4 a = not (is6 a) && is4 a && not (is_unspecified a)
holds dnat_wildcard6 a = is6 a && is_unspecified a
holds dnat_specific6 a = is6 a && not (is_unspecified a)

holds_iff : (set : SetName) (a : Addr) → (holds set a ≡ true) ↔ (set_of a ≡ some set)
unfolding holds set_of
holds_iff dnat_wildcard4 a = ground arith
holds_iff dnat_specific4 a = ground arith
holds_iff dnat_wildcard6 a = ground arith
holds_iff dnat_specific6 a = ground arith

-- The destinations under the keys of compileSetElement, in the maps that `set_of` names.
unfoldable pub installed : List Mapping → Maps
unfolding holds
installed [] set key = none
installed (m ∷ ms) set key =
    let rest = installed ms set key in
    if holds set m.source.addr && (compile_set_element m).key == key
    then some m.destination
    else rest

-- The mapping has the key in the map.
abbrev pub HasKey : SetName → List ℕ → Mapping → Type 0
HasKey set key m = (set_of m.source.addr ≡ some set) × ((compile_set_element m).key ≡ key)

pub installed-cases :
    (ms : List Mapping) (set : SetName) (key : List ℕ)
    → ((installed ms set key ≡ none) × ((m : Mapping) → In m ms → ¬ HasKey set key m))
      ⊎ ((m : Mapping) × In m ms × HasKey set key m × (installed ms set key ≡ some m.destination))
unfolding installed
installed-cases [] set key = inl (refl, λ m i. absurd i)
installed-cases (m ∷ ms) set key =
    let s = holds_iff set m.source.addr in
    let k = text_beq_iff (compile_set_element m).key key in
    elim (Bool-cases (holds set m.source.addr && (compile_set_element m).key == key)) [
      | inl q ↦ inr (m, inl refl, ground (arith, s, k), rw (q, installed) refl)
      | inr q ↦ elim (installed-cases ms set key) [
        | inl (e, f) ↦
            let miss : ¬ HasKey set key m = λ h. ground (arith, s, k) in
            inl (
              rw (q, installed) e,
              λ n i. elim i [
                | inl x ↦ subst (λ y. ¬ HasKey set key y) (sym x) miss
                | inr j ↦ f n j
              ],
            )
        | inr (n, i, h, e) ↦ inr (n, inr i, h, rw (q, installed) e)
      ]
    ]

length-address_bytes :
    (set : SetName) (a b : Addr)
    → set_of a ≡ some set
    → is4 a ≡ is4 b
    → b ≢ invalid
    → IsAddr b
    → length (as_slice b) ≡ address_bytes set
unfolding set_of
length-address_bytes set a invalid s f n h = absurd (n refl)
length-address_bytes dnat_wildcard4 a (v4 b) s f n h = h
length-address_bytes dnat_specific4 a (v4 b) s f n h = h
length-address_bytes dnat_wildcard6 a (v4 b) s f n h = absurd (ground arith)
length-address_bytes dnat_specific6 a (v4 b) s f n h = absurd (ground arith)
length-address_bytes dnat_wildcard4 a (v6 b z) s f n h = absurd (ground arith)
length-address_bytes dnat_specific4 a (v6 b z) s f n h = absurd (ground arith)
length-address_bytes dnat_wildcard6 a (v6 b z) s f n h = h
length-address_bytes dnat_specific6 a (v6 b z) s f n h = h

-- Mappings that the check for conflicts lets stand together, with addresses as Go has them.
pub record Table (ms : List Mapping) : Type 0 where
  pub valid : (m : Mapping) → In m ms → IsValid m
  pub sources : (m : Mapping) → In m ms → IsAddrPort m.source
  pub destinations : (m : Mapping) → In m ms → IsAddr m.destination.addr
  pub apart : (m n : Mapping) → In m ms → In n ms → overlaps m n ≡ true → m ≡ n

-- The mapping is for packets of the protocol to the address: of its port and family, with its address
-- where it is not the unspecified one.
pub record Covers (protocol : ℕ) (a : AddrPort) (m : Mapping) : Type 0 where
  pub same_protocol : m.protocol ≡ protocol
  pub same_port : m.source.port ≡ a.port
  pub same_family : is6 m.source.addr ≡ is6 a.addr
  pub same_addr : (is_unspecified m.source.addr ≡ true) ⊎ (m.source.addr ≡ a.addr)

pub installed-Fits : (ms : List Mapping) → Table ms → Fits (installed ms)
installed-Fits ms t set key d h = elim (installed-cases ms set key) [
  | inl (e, f) ↦ absurd (ground (arith, e, h))
  | inr (m, i, (s, k), e) ↦
      let v = t.valid m i in
      subst (λ x. length (as_slice x.addr) ≡ address_bytes set) (some-injective (sym e ∙ h))
        (length-address_bytes set m.source.addr m.destination.addr s v.one_family
          v.destination_addressed (t.destinations m i))
]
  where
    some-injective : {x y : AddrPort} → some x ≡ some y → x ≡ y
    some-injective e = cc
