-- ===== src/Daemon/Run/Release.antt =====
-- On which ways out run of cmd/proxygw/main.go releases what it holds.
use mathlib.Core.List.{reverse}
use proxygw.Prelude.{
  Bool, List, Option, Text, [], bool_eq, codes, map, nat_eq, none, some, text_eq, true, ◌++◌, ◌∷◌,
  ◌≡◌, ◌⊎◌,
}
use proxygw.Config.Document.{Config, validate}
use proxygw.Connft.Nft.{Nft}
use proxygw.Connft.State.{Connft}
use proxygw.Connft.Group
use proxygw.Engine.{Engine}
use proxygw.Daemon.{LoadedPlugin, LoadErr, Plugin}
use proxygw.Daemon.Plugins.{loadable, Calls}
use proxygw.Daemon.Run.{World, Outcome, closes_engine, closes_dataplane, unloads, plugins_failed}

-- The log of a document goes to one of the two standard streams, or to a file that opens.
abbrev LogOpens : (Text → Bool) → Text → Type 0
LogOpens opens output =
    (output ≡ codes "stdout") ⊎ (output ≡ codes "stderr") ⊎ (opens output ≡ true)

-- What run needs before it holds anything: a document that is read and that Validate accepts, its log,
-- and a dataplane.
pub record Starts {Conn TC FC Options : Type 0} (w : World Conn TC FC Options) (cfg : Config)
    (dplane : Connft Conn) : Type 0 where
  pub document : w.document ≡ some cfg
  pub valid : validate (some cfg) ≡ none
  pub log : LogOpens w.opens cfg.log.output
  pub dataplane : w.dataplane ≡ some dplane

module _ (nft : Nft) {TC FC Options : Type 0} where
  open nft use {Conn}

  -- What is left when run returns from behind the engine: the plugins that were loaded are the first
  -- ones of those that can be.
  pub record Released (w : World Conn TC FC Options) (out : Outcome Conn TC FC) : Type 0 where
    pub engine : Engine Conn TC FC
    pub loaded : List (LoadedPlugin (Plugin Conn TC FC Options))
    pub rest : List (LoadedPlugin (Plugin Conn TC FC Options))
    pub engine_there : out.engine ≡ some engine
    pub engine_closed : engine.closed ≡ true
    pub dataplane_closed : engine.dplane.closed ≡ true
    pub first_ones : loadable w.registry w.decls ≡ loaded ++ rest
    pub complete : (rest ≡ []) ⊎ ((x : LoadErr) × (out.err ≡ some (plugins_failed x)))
    pub calls : List (Text × Option Text)
    pub due : Calls (reverse loaded) calls
    pub in_order : out.effects ≡ closes_engine ∷ map unloads calls ++ closes_dataplane ∷ []
