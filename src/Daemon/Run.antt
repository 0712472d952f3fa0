-- ===== src/Daemon/Run.antt =====
-- run of cmd/proxygw/main.go: from the document to the end of the daemon.
pub mod Release
use proxygw.Prelude.{
  Bool, Dict, List, Option, Text, [], bool_eq, codes, if◌then◌else◌, map, nat_eq, none, not, some,
  text_eq, true, ℕ, ◌++◌, ◌==◌, ◌∷◌,
}
use proxygw.Config.Document.{Config, validate}
use proxygw.Connft.Nft.{Nft}
use proxygw.Connft.State.{Connft}
use proxygw.Connft.Group
use proxygw.Target.{Target}
use proxygw.Frontend.{Frontend}
use proxygw.Engine.{Engine, Err, close}
use proxygw.Engine.History.{fresh_engine}
use proxygw.Daemon.{PluginDecl, LoadedPlugin, LoadErr, Plugin, load_plugins, unload_plugins}
use proxygw.Daemon.Apply.{Answers, apply_config}

-- What run does to its parts on the way out, in order.
pub data Effect : Type 0 where
  closes_engine closes_dataplane : Effect
  unloads : Text × Option Text → Effect

pub data RunErr : Type 0 where
  no_config no_log no_dataplane : RunErr
  plugins_failed : LoadErr → RunErr
  config_failed : Err → RunErr

-- What run meets: the document that yaml reads, whether a log file opens, the dataplane that New of
-- connft makes, the plugins of the binary with their options; what the event loops do until the signal
-- and in Wait; and the stores before anything is made.
pub record World (Conn TC FC Options : Type 0) : Type 0 where
  pub document : Option Config
  pub opens : Text → Bool
  pub dataplane : Option (Connft Conn)
  pub registry : Dict Text (Plugin Conn TC FC Options)
  pub decls : List PluginDecl
  pub options : Config → Text → Option Options
  pub served : Engine Conn TC FC → Engine Conn TC FC
  pub waited : Engine Conn TC FC → Engine Conn TC FC
  pub target_at : ℕ → Target
  pub frontend_at : ℕ → Frontend

pub record Outcome (Conn TC FC : Type 0) : Type 0 where
  pub effects : List Effect
  pub engine : Option (Engine Conn TC FC)
  pub err : Option RunErr

-- loadConfig behind ReadFile and Unmarshal
unfoldable pub load_config : Option Config → Option Config
load_config none = none
load_config (some c) = elim (validate (some c)) [ none ↦ some c | some x ↦ none ]

-- The switch on the output of the log
unfoldable pub log_opens : (Text → Bool) → Text → Bool
log_opens opens output =
    if output == codes "stdout"
    then true
    else if output == codes "stderr"
    then true
    else opens output

abbrev pub stopped : {Conn TC FC : Type 0} → RunErr → Outcome Conn TC FC
stopped x = record { effects = []; engine = none; err = some x }

module _ (nft : Nft) {TC FC Options : Type 0} where
  open nft use {Conn}

  -- closeEngine, unloadPlugins and closeDataplane, as run calls them on each of its ways out behind
  -- the engine.
  unfoldable pub shut_down :
      World Conn TC FC Options
      → List (LoadedPlugin (Plugin Conn TC FC Options))
      → Option RunErr
      → Engine Conn TC FC
      → Outcome Conn TC FC
  shut_down w loaded err e =
      let e₁ = w.waited (close e) in
      record {
        effects = closes_engine ∷ map unloads (unload_plugins loaded) ++ closes_dataplane ∷ [];
        engine = some (record e₁ { dplane = (Group.close nft e₁.dplane).0 });
        err = err;
      }

  -- resourceScope, with the wait for the signal
  unfoldable pub resource_scope :
      World Conn TC FC Options
      → Answers TC FC
      → Config
      → Engine Conn TC FC
      → Engine Conn TC FC × Option RunErr
  resource_scope w answers cfg e =
      let (e₁, err) = apply_config nft answers cfg e in
      elim err [ some x ↦ (e₁, some (config_failed x)) | none ↦ (w.served e₁, none) ]

  -- run behind connft.New. engine.New does not fail with a dataplane. The errors of OnUnload, which
  -- run joins to its own, stand in the effects.
  unfoldable pub run_with :
      World Conn TC FC Options → Answers TC FC → Config → Connft Conn → Outcome Conn TC FC
  run_with w answers cfg dplane =
      let (e, loaded, failed) =
        load_plugins w.registry (w.options cfg) w.decls
          (fresh_engine dplane w.target_at w.frontend_at) [] in
      elim failed [
        | some x ↦ shut_down w loaded (some (plugins_failed x)) e
        | none ↦ let (e₁, err) = resource_scope w answers cfg e in shut_down w loaded err e₁
      ]

  unfoldable pub run : World Conn TC FC Options → Answers TC FC → Outcome Conn TC FC
  run w answers = elim (load_config w.document) [
    | none ↦ stopped no_config
    | some cfg ↦
        if not (log_opens w.opens cfg.log.output) then stopped no_log else elim w.dataplane [
          | none ↦ stopped no_dataplane
          | some dplane ↦ run_with w answers cfg dplane
        ]
  ]
