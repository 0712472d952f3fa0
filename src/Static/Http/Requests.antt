-- ===== src/Static/Http/Requests.antt =====
-- Which configurations NewHTTPHandler of plugin/static/frontends/http.go takes.
use proxygw.Prelude.{
  Dict, Text, [], arith, bool_eq, codes, eq_iff, false, inl, inr, nat_eq, none, some, text_eq, true,
  ◌++◌, ◌↔◌, ◌∷◌, ◌≡◌, ◌⊎◌,
}
use proxygw.Netip.{AddrPort}
use proxygw.Config.Protocol.{Protocol, tcp}
use proxygw.Static.Options.{Value, string_option}
use proxygw.Static.Http.{HttpHandler, has_slash, http_endpoint_option, new_http_handler}

-- The endpoint of a handler: that of its options, or "/".
abbrev pub Serves : Dict Text Value → Text → Type 0
Serves options endpoint =
    ((string_option (codes "endpoint") options ≡ none) × (endpoint ≡ codes "/"))
    ⊎ ((string_option (codes "endpoint") options ≡ some endpoint)
        × ((rest : Text) × (endpoint ≡ codes "/" ++ rest)))

has_slash_iff :
    (text : Text) → (has_slash text ≡ true) ↔ ((rest : Text) × (text ≡ codes "/" ++ rest))
has_slash_iff [] = ((λ h. absurd (ground arith)), λ (rest, h). absurd (ground arith))
has_slash_iff (c ∷ cs) =
    ((λ h. (cs, ground (arith, eq_iff c 47))), λ (rest, h). ground (arith, eq_iff c 47))

-- The endpoint with the test that the code makes.
abbrev Tested : Dict Text Value → Text → Type 0
Tested options endpoint =
    ((string_option (codes "endpoint") options ≡ none) × (endpoint ≡ codes "/"))
    ⊎ ((string_option (codes "endpoint") options ≡ some endpoint) × (has_slash endpoint ≡ true))

Tested-Serves :
    (options : Dict Text Value) (endpoint : Text)
    → Tested options endpoint ↔ Serves options endpoint
Tested-Serves options endpoint = (
  λ h. elim h [ inl a ↦ inl a | inr (e, s) ↦ inr (e, (has_slash_iff endpoint).0 s) ],
  λ h. elim h [ inl a ↦ inl a | inr (e, s) ↦ inr (e, (has_slash_iff endpoint).1 s) ],
)

new_http_handler-Tested :
    (protocol : Protocol) (address : AddrPort) (options : Dict Text Value) (h : HttpHandler)
    → (new_http_handler protocol address options ≡ inl h) ↔ (
        (protocol ≡ tcp)
        × (string_option (codes "content") options ≡ some h.content)
        × Tested options h.endpoint
        × (h.address ≡ address)
        × (h.queued ≡ false)
        × (h.server ≡ none)
        × (h.next ≡ 0))
unfolding new_http_handler http_endpoint_option
new_http_handler-Tested protocol address options h = ground arith

-- NewHTTPHandler returns a handler exactly for tcp, with a text as content, and with no text as
-- endpoint or one that starts with a slash; the handler is that of the address, the content and the
-- endpoint, "/" where there is none, and has not started.
pub new_http_handler_iff :
    (protocol : Protocol) (address : AddrPort) (options : Dict Text Value) (h : HttpHandler)
    → (new_http_handler protocol address options ≡ inl h) ↔ (
        (protocol ≡ tcp)
        × (string_option (codes "content") options ≡ some h.content)
        × Serves options h.endpoint
        × (h.address ≡ address)
        × (h.queued ≡ false)
        × (h.server ≡ none)
        × (h.next ≡ 0))
new_http_handler_iff protocol address options h =
    let (to, from) = new_http_handler-Tested protocol address options h in
    let (serves, tested) = Tested-Serves options h.endpoint in
    (
      λ e. let (p, c, s, a, q, v, n) = to e in (p, c, serves s, a, q, v, n),
      λ (p, c, s, a, q, v, n). from (p, c, tested s, a, q, v, n),
    )
