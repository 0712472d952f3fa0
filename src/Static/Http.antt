-- ===== src/Static/Http.antt =====
-- plugin/static/frontends/http.go: a frontend that serves one text and asks for its target when it is
-- visited. net/http and the socket are arguments.
pub mod Requests
use proxygw.Prelude.{
  Bool, Dict, Option, Text, [], bool_eq, codes, false, if◌then◌else◌, inl, inr, nat_eq, none, not,
  some, suc, text_eq, true, ℕ, ◌/◌, ◌==◌, ◌∷◌, ◌⊎◌,
}
use proxygw.Netip.{AddrPort}
use proxygw.Config.Protocol.{Protocol, tcp}
use proxygw.Static.Options.{Value, string_option}

-- `server` is the number of the http.Server that is held, `next` that of the next one, and `queued`
-- whether the one place of warm is taken.
pub record HttpHandler : Type 0 where
  pub address : AddrPort
  pub content : Text
  pub endpoint : Text
  pub queued : Bool
  pub server : Option ℕ
  pub next : ℕ

pub data Err : Type 0 where
  tcp_required content_required endpoint_without_slash : Err

-- '/' as a character
abbrev slash : ℕ
slash = 47

-- `endpoint == "" || endpoint[0] != '/'`
abbrev pub has_slash : Text → Bool
has_slash [] = false
has_slash (c ∷ cs) = c == slash

unfoldable pub http_endpoint_option : Dict Text Value → Text ⊎ Err
http_endpoint_option options = elim (string_option (codes "endpoint") options) [
  | none ↦ inl (codes "/")
  | some endpoint ↦ if not (has_slash endpoint) then inr endpoint_without_slash else inl endpoint
]

unfoldable pub new_http_handler : Protocol → AddrPort → Dict Text Value → HttpHandler ⊎ Err
new_http_handler protocol address options =
    if not (protocol == tcp)
    then inr tcp_required
    else elim (string_option (codes "content") options) [
      | none ↦ inr content_required
      | some content ↦ elim (http_endpoint_option options) [
        | inr x ↦ inr x
        | inl endpoint ↦ inl (record {
          address = address;
          content = content;
          endpoint = endpoint;
          queued = false;
          server = none;
          next = 0;
        })
      ]
    ]

-- Start, with what net.Listen answers: an error, or none for a listener.
unfoldable pub start : Option Text → HttpHandler → HttpHandler × Option Text
start listen h = elim h.server [
  | some server ↦ (h, none)
  | none ↦ elim listen [
    | some x ↦ (h, some x)
    | none ↦ (record h { server = some h.next; next = suc h.next }, none)
  ]
]

-- Stop; an error of Shutdown is only logged.
unfoldable pub stop : HttpHandler → HttpHandler × Option Text
stop h = elim h.server [ none ↦ (h, none) | some server ↦ (record h { server = none }, none) ]

unfoldable pub close : HttpHandler → HttpHandler × Option Text
unfolding stop
close h = stop h

-- tickWarm, which each visit calls.
unfoldable pub tick_warm : HttpHandler → HttpHandler × Bool
tick_warm h = if h.queued then (h, false) else (record h { queued = true }, true)

-- A receive from ShouldWarm.
unfoldable pub should_warm : HttpHandler → Option HttpHandler
should_warm h = if h.queued then some (record h { queued = false }) else none
