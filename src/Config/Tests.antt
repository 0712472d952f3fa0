-- ===== src/Config/Tests.antt =====
-- The configuration of pkg/config on values of a small document.
use proxygw.Prelude.{[], arith, codes, false, none, refl, some, ◌*◌, ◌<◌, ◌^◌, ◌↔◌, ◌∷◌, ◌≡◌}
use proxygw.Netip.{v4}
use proxygw.Config.Protocol.{tcp}
use proxygw.Config.Ttl.{ttl_max, second, to_duration}
use proxygw.Config.Ttl
use proxygw.Config.Namespace.{NamespaceReference, parse_reference-to_string}
use proxygw.Config.Namespace
use proxygw.Config.Document.{Config, validate, version_v1}
use proxygw.Config.Document
use proxygw.Config.Document.Validity.{IsUsable, validate_iff}

parse-to_duration_example :
    (to_duration 4294967295 ≡ 4294967295 * second)
    × (to_duration 4294967295 < 2 ^ 63)
    × (Ttl.parse (some (record { negative = false; nanos = to_duration 4294967295 }))
        ≡ some 4294967295)
parse-to_duration_example = Ttl.parse-to_duration 4294967295 (omega arith)

abbrev one_and_a_half : Ttl.Duration
one_and_a_half = record { negative = false; nanos = 1500000000 }

abbrev pub static_cmd : NamespaceReference
static_cmd = record { namespace = codes "s"; name = codes "cmd" }

parse_reference-to_string_example :
    Namespace.parse (Namespace.to_string static_cmd) ≡ some static_cmd
parse_reference-to_string_example =
    parse_reference-to_string static_cmd (λ e. cc) (λ e. cc) (ground arith) (ground arith)

parsed : Namespace.parse (codes "s:cmd") ≡ some static_cmd
unfolding Namespace.parse Namespace.of_parts Namespace.split
parsed = refl

abbrev pub web_target : Document.Target
web_target = record {
  name = codes "web";
  kind = static_cmd;
  idle_timeout = 300;
  endpoints =
      record {
        name = codes "http";
        protocol = tcp;
        address = record { addr = v4 (10 ∷ 0 ∷ 0 ∷ 2 ∷ []); port = 8080 };
      }
      ∷ [];
}

abbrev pub web_frontend : Document.Frontend
web_frontend = record {
  name = codes "www";
  kind = static_cmd;
  protocol = tcp;
  listen = record { addr = v4 (10 ∷ 0 ∷ 0 ∷ 1 ∷ []); port = 80 };
  flow_timeout = 60;
  endpoint = record { namespace = codes "web"; name = codes "http" };
}

abbrev pub small : Config
small = record {
  version = version_v1;
  log = record { output = codes "stderr"; level = 0 };
  plugins = some [];
  targets = some (web_target ∷ []);
  frontends = some (web_frontend ∷ []);
}

validate_iff_example : (validate (some small) ≡ none) ↔ IsUsable small
validate_iff_example = validate_iff small
