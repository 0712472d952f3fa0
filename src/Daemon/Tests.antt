-- ===== src/Daemon/Tests.antt =====
-- Documents, plugins and worlds to which the theorems on cmd/proxygw/main.go apply.
use mathlib.Core.List.{reverse}
use proxygw.Prelude.{Dict, List, Text, [], codes, false, none, some, ℕ, ◌++◌, ◌∷◌, ◌≡◌, ◌⊎◌}
use proxygw.Config.Document.{Config}
use proxygw.Connft.State.{Connft}
use proxygw.Config.Tests.{small}
use proxygw.Connft.Group.Tests.{quiet_nft, one_group}
use proxygw.Engine.Tests.{with_kinds}
use proxygw.Daemon.{PluginDecl, LoadedPlugin, Plugin, load_plugins, unload_plugins}
use proxygw.Daemon.Plugins.{loadable, Rest, Calls, plugins_unloaded}
use proxygw.Daemon.Apply.{Answers, apply_config}
use proxygw.Daemon.Apply.Outcome.{Applied, Refused, apply_config_lem}
use proxygw.Daemon.Run.{World}

abbrev answers : Answers ℕ ℕ
answers = record {
  build_target = λ cfg k. none;
  close_target = λ cfg. none;
  now = λ cfg. 1000;
  build_frontend = λ cfg k. none;
  close_frontend = λ cfg. none;
}

apply_config_lem_example :
    let r = apply_config quiet_nft answers small with_kinds in
    Applied quiet_nft answers small with_kinds r ⊎ Refused quiet_nft answers small with_kinds r
apply_config_lem_example = apply_config_lem quiet_nft answers small with_kinds

-- A plugin that registers no kinds, and one whose OnLoad fails.
abbrev quiet_plugin : Plugin ℕ ℕ ℕ ℕ
quiet_plugin = record {
  on_load = some (λ options e. (e, record { frontends = []; targets = [] }, none));
  on_unload = some none;
}

abbrev failing_plugin : Plugin ℕ ℕ ℕ ℕ
failing_plugin = record {
  on_load =
      some (λ options e. (e, record { frontends = []; targets = [] }, some (codes "no socket")));
  on_unload = some none;
}

abbrev registry : Dict Text (Plugin ℕ ℕ ℕ ℕ)
registry = (codes "static", quiet_plugin) ∷ (codes "ctl", failing_plugin) ∷ []

abbrev decls : List PluginDecl
decls =
    record { source = codes "static"; name = codes "s" }
    ∷ record { source = codes "static"; name = codes "t" }
    ∷ record { source = codes "ctl"; name = codes "c" }
    ∷ []

plugins_unloaded_example :
    let r = load_plugins registry (λ name. none) decls with_kinds [] in
    (rest : List (LoadedPlugin (Plugin ℕ ℕ ℕ ℕ))) × (loadable registry decls ≡ r.1 ++ rest)
    × Rest rest r.2
    × Calls (reverse r.1) (unload_plugins r.1)
plugins_unloaded_example = plugins_unloaded registry (λ name. none) decls with_kinds

abbrev world : World ℕ ℕ ℕ ℕ
world = record {
  document = some small;
  opens = λ path. false;
  dataplane = some one_group;
  registry = registry;
  decls = decls;
  options = λ cfg name. none;
  served = λ e. e;
  waited = λ e. e;
  target_at = with_kinds.target_at;
  frontend_at = with_kinds.frontend_at;
}
