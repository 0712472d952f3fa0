-- ===== src/Static.antt =====
-- plugin/static: the handlers that the program brings along.
pub mod Options
pub mod Always
pub mod Cmd
pub mod Http
mod Tests
use proxygw.Prelude.{Option, Text, [], codes, none, some, ◌∷◌}
use proxygw.Plugin.{Namespace, Handler}

-- The constructors that init.go puts into the plugin's namespace.
pub data FrontendKind : Type 0 where
  new_always_handler new_http_handler : FrontendKind

pub data TargetKind : Type 0 where
  new_cmd_handler new_none_handler : TargetKind

-- The handler that init.go registers; it leaves the engine alone.
unfoldable pub static_plugin : {Options E : Type 0} → Handler Options E TargetKind FrontendKind
static_plugin = record {
  on_load = some (λ options e. (
    e,
    record {
      frontends =
          (codes "always", some new_always_handler) ∷ (codes "http", some new_http_handler) ∷ [];
      targets = (codes "cmd", some new_cmd_handler) ∷ (codes "none", some new_none_handler) ∷ [];
    },
    none,
  ));
  on_unload = some none;
}

-- Warm, Drain and Close of targets/none.go; none is no error.
abbrev pub none_warm : Option Text
none_warm = none

abbrev pub none_drain : Option Text
none_drain = none

abbrev pub none_close : Option Text
none_close = none
