-- ===== src/Connft/Rules/Tests.antt =====
-- Two mappings of a dataplane in the kernel's maps, and a packet for the second.
use proxygw.Prelude.{
  In, List, [], arith, bool_eq, if◌then◌else◌, inl, inr, nat_eq, refl, some, subst, sym, text_eq, ℕ,
  ◌==◌, ◌∷◌, ◌≡◌,
}
use proxygw.Netip.{as_slice}
use proxygw.Config.Protocol.{tcp}
use proxygw.Dataplane.Mapping.{Mapping}
use proxygw.Connft.Encode.{encode_port}
use proxygw.Connft.State.{src_key}
use proxygw.Connft.Group.Tests.{
  web, api, quiet_nft, two_mappings, two_mappings-Reach, two_mappings-IsLive, web_there, api_there,
}
use proxygw.Connft.Group.Disjoint.Traffic.{Held, IsSized, dataplane_translates}
use proxygw.Connft.Rules.{dnat_rules, nfproto_ipv4}
use proxygw.Connft.Rules.Machine.{Packet, run_rules, bytes_at}
use proxygw.Connft.Rules.Translate.{Heads, heads4}
use proxygw.Connft.Rules.Installed.{installed, Covers}

abbrev both : List Mapping
both = web ∷ api ∷ []

web-Held : Held two_mappings web × IsSized web
web-Held = (
  (0, src_key web, two_mappings-IsLive, web_there),
  (record { bytes = refl; port_bound = omega arith }, refl),
)

api-Held : Held two_mappings api × IsSized api
api-Held = (
  (0, src_key api, two_mappings-IsLive, api_there),
  (record { bytes = refl; port_bound = omega arith }, refl),
)

both-Held : (m : Mapping) → In m both → Held two_mappings m × IsSized m
both-Held m (inl e) = subst (λ x. Held two_mappings x × IsSized x) (sym e) web-Held
both-Held m (inr (inl e)) = subst (λ x. Held two_mappings x × IsSized x) (sym e) api-Held
both-Held m (inr (inr e)) = absurd e

-- From anywhere to 10.0.0.1:443.
abbrev network : ℕ → ℕ
network i = if i == 16 then 10 else if i == 19 then 1 else 0

abbrev transport : ℕ → ℕ
transport i = if i == 2 then 1 else if i == 3 then 187 else 0

abbrev syn : Packet
syn = record { family = nfproto_ipv4; l4_proto = tcp; network = network; transport = transport }

syn-Heads : Heads syn api.source
unfolding bytes_at encode_port
syn-Heads = heads4 (10 ∷ 0 ∷ 0 ∷ 1 ∷ []) 443 refl refl refl

syn-Covers : Covers tcp api.source api
syn-Covers = record {
  same_protocol = refl;
  same_port = refl;
  same_family = refl;
  same_addr = inr refl;
}

dataplane_translates_example :
    run_rules (installed both) syn dnat_rules
    ≡ some (as_slice api.destination.addr, encode_port api.destination.port)
dataplane_translates_example =
    dataplane_translates quiet_nft both api syn api.source two_mappings-Reach both-Held
      (inr (inl refl)) syn-Heads syn-Covers
