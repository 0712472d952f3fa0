-- ===== src/Daemon.antt =====
-- cmd/proxygw/main.go: how the daemon loads its plugins, makes what a document asks for, and ends. The
-- calls are those of the daemon itself; `served` and `waited` are what the event loops do until the
-- signal to end, and in Wait.
pub mod Plugins
pub mod Apply
pub mod Run
mod Tests
use proxygw.Prelude.{Dict, List, Option, Text, [], none, option_map, some, ◌++◌, ◌∷◌}
use proxygw.Config.Namespace.{NamespaceReference}
use proxygw.Config.Namespace
use proxygw.Config.Document.{Config, validate}
use proxygw.Config.Document
use proxygw.Connft.Nft.{Nft}
use proxygw.Connft.State.{Connft}
use proxygw.Target.{Target}
use proxygw.Frontend.{Frontend}
use proxygw.Frontend
use proxygw.Engine.{
  Engine, Err, write, add_frontend_kind, add_target_kind, new_target, new_frontend, close,
}
use proxygw.Engine.History.{fresh_engine}
use proxygw.Plugin.{Namespace, Handler, find}

pub record PluginDecl : Type 0 where
  pub source : Text
  pub name : Text

pub record LoadedPlugin (H : Type 0) : Type 0 where
  pub name : Text
  pub handler : H

-- OnLoad's error, or that of registerKinds.
pub data LoadErr : Type 0 where
  load_failed : Text → Text → LoadErr
  kinds_failed : Text → Err → LoadErr

abbrev kind_name : Text → Text → Text
kind_name plugin kind = Namespace.to_string (record { namespace = plugin; name = kind })

abbrev pub Plugin : Type 0 → Type 0 → Type 0 → Type 0 → Type 0
Plugin Conn TC FC Options = Handler Options (Engine Conn TC FC) TC FC

module _ {Conn TC FC : Type 0} where
  -- The two loops of registerKinds.
  unfoldable pub register_frontends :
      Text → Dict Text (Option FC) → Engine Conn TC FC → Engine Conn TC FC × Option Err
  register_frontends plugin [] e = (e, none)
  register_frontends plugin ((kind, ctor) ∷ kinds) e =
      let (e₁, err) = add_frontend_kind e (kind_name plugin kind) ctor in
      elim err [ some x ↦ (e₁, some x) | none ↦ register_frontends plugin kinds e₁ ]

  unfoldable pub register_targets :
      Text → Dict Text (Option TC) → Engine Conn TC FC → Engine Conn TC FC × Option Err
  register_targets plugin [] e = (e, none)
  register_targets plugin ((kind, ctor) ∷ kinds) e =
      let (e₁, err) = add_target_kind e (kind_name plugin kind) ctor in
      elim err [ some x ↦ (e₁, some x) | none ↦ register_targets plugin kinds e₁ ]

  unfoldable pub register_kinds :
      Text → Namespace TC FC → Engine Conn TC FC → Engine Conn TC FC × Option Err
  register_kinds plugin ns e =
      let (e₁, err) = register_frontends plugin ns.frontends e in
      elim err [ some x ↦ (e₁, some x) | none ↦ register_targets plugin ns.targets e₁ ]

module _ {Conn TC FC Options : Type 0} where
  -- The body of the loop of loadPlugins for a plugin that is found: what it does to the engine, the
  -- plugins loaded up to there, and the error.
  unfoldable pub load_plugin :
      (Text → Option Options)
      → PluginDecl
      → Plugin Conn TC FC Options
      → Engine Conn TC FC
      → List (LoadedPlugin (Plugin Conn TC FC Options))
      → Engine Conn TC FC × List (LoadedPlugin (Plugin Conn TC FC Options)) × Option LoadErr
  load_plugin options decl h e loaded = elim h.on_load [
    | none ↦
        let (e₁, err) = register_kinds decl.name (record { frontends = []; targets = [] }) e in
        (e₁, loaded, option_map (kinds_failed decl.name) err)
    | some on_load ↦
        let (e₁, ns, failed) = on_load (options decl.name) e in
        elim failed [
          | some x ↦ (e₁, loaded, some (load_failed decl.name x))
          | none ↦
              let (e₂, err) = register_kinds decl.name ns e₁ in
              (
                e₂,
                loaded ++ record { name = decl.name; handler = h } ∷ [],
                option_map (kinds_failed decl.name) err,
              )
        ]
  ]

  unfoldable pub load_plugins :
      Dict Text (Plugin Conn TC FC Options)
      → (Text → Option Options)
      → List PluginDecl
      → Engine Conn TC FC
      → List (LoadedPlugin (Plugin Conn TC FC Options))
      → Engine Conn TC FC × List (LoadedPlugin (Plugin Conn TC FC Options)) × Option LoadErr
  load_plugins registry options [] e loaded = (e, loaded, none)
  load_plugins registry options (decl ∷ decls) e loaded = elim (find decl.source registry) [
    | none ↦ load_plugins registry options decls e loaded
    | some h ↦
        let (e₁, loaded₁, err) = load_plugin options decl h e loaded in
        elim err [
          | some x ↦ (e₁, loaded₁, some x)
          | none ↦ load_plugins registry options decls e₁ loaded₁
        ]
  ]

  -- The calls of OnUnload, in their order, with what they answer: unloadPlugin, and unloadPlugins from
  -- the last plugin to the first.
  unfoldable pub unload_plugin :
      LoadedPlugin (Plugin Conn TC FC Options) → List (Text × Option Text)
  unload_plugin p = elim p.handler.on_unload [ none ↦ [] | some answer ↦ (p.name, answer) ∷ [] ]

  unfoldable pub unload_plugins :
      List (LoadedPlugin (Plugin Conn TC FC Options)) → List (Text × Option Text)
  unload_plugins [] = []
  unload_plugins (p ∷ ps) = unload_plugins ps ++ unload_plugin p
