-- ===== src/Plugin.antt =====
-- internal/plugin/register.go, which plugin/register.go passes on: the plugins that a binary has, and
-- what the daemon gets from one.
use proxygw.Prelude.{
  Bool, Dict, Option, Text, bool_eq, false, if◌then◌else◌, insert, is_empty, lookup, nat_eq, none,
  some, text_eq, true,
}

-- The kinds that a plugin makes available. A constructor may be nil.
pub record Namespace (TC FC : Type 0) : Type 0 where
  pub frontends : Dict Text (Option FC)
  pub targets : Dict Text (Option TC)

-- The two hooks, where the plugin has them. OnLoad gets the plugin's options and the engine, and fills
-- an empty namespace or fails; of OnUnload only what it answers is known.
pub record Handler (Options E TC FC : Type 0) : Type 0 where
  pub on_load : Option (Option Options → E → E × Namespace TC FC × Option Text)
  pub on_unload : Option (Option Text)

module _ {H : Type 0} where
  unfoldable pub register : Text → H → Dict Text H → Dict Text H × Bool
  register source handler registry =
      if is_empty source then (registry, false) else elim (lookup source registry) [
        | some h ↦ (registry, false)
        | none ↦ (insert source handler registry, true)
      ]

  unfoldable pub find : Text → Dict Text H → Option H
  find source registry = lookup source registry
