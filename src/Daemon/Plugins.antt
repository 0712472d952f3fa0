-- ===== src/Daemon/Plugins.antt =====
-- Which plugins cmd/proxygw/main.go unloads, and in which order.
use mathlib.Core.List.{reverse, reverse-append, append_assoc, append-nil}
use proxygw.Prelude.{
  Dict, List, Option, Option-cases, Text, [], ap, arith, inl, inr, none, refl, some, subst, sym,
  ◌++◌, ◌∙◌, ◌∷◌, ◌≡◌, ◌⊎◌,
}
use proxygw.Engine.{Engine}
use proxygw.Plugin.{find}
use proxygw.Daemon.{
  PluginDecl, LoadedPlugin, LoadErr, load_failed, Plugin, load_plugin, load_plugins, unload_plugin,
  unload_plugins,
}

module _ {Conn TC FC Options : Type 0} where
  -- The plugins that are declared, found and have an OnLoad, in the order of their declarations.
  abbrev with_hook :
      PluginDecl → Plugin Conn TC FC Options → List (LoadedPlugin (Plugin Conn TC FC Options))
  with_hook decl h = elim h.on_load [
    | none ↦ []
    | some on_load ↦ record { name = decl.name; handler = h } ∷ []
  ]

  abbrev pub loadable :
      Dict Text (Plugin Conn TC FC Options)
      → List PluginDecl
      → List (LoadedPlugin (Plugin Conn TC FC Options))
  loadable registry [] = []
  loadable registry (decl ∷ decls) = elim (find decl.source registry) [
    | none ↦ loadable registry decls
    | some h ↦ with_hook decl h ++ loadable registry decls
  ]

  -- The calls of OnUnload that the plugins are due, in their order: one to each that has one, by its
  -- name and with what it answers.
  pub data Calls
      : List (LoadedPlugin (Plugin Conn TC FC Options)) → List (Text × Option Text) → Type 0 where
    nobody : Calls [] []
    called :
        {p : LoadedPlugin (Plugin Conn TC FC Options)}
        {ps : List (LoadedPlugin (Plugin Conn TC FC Options))} {calls : List (Text × Option Text)}
        {answer : Option Text}
        → p.handler.on_unload ≡ some answer
        → Calls ps calls
        → Calls (p ∷ ps) ((p.name, answer) ∷ calls)
    passed :
        {p : LoadedPlugin (Plugin Conn TC FC Options)}
        {ps : List (LoadedPlugin (Plugin Conn TC FC Options))} {calls : List (Text × Option Text)}
        → p.handler.on_unload ≡ none
        → Calls ps calls
        → Calls (p ∷ ps) calls

  Calls-append :
      {ps qs : List (LoadedPlugin (Plugin Conn TC FC Options))} {cs ds : List (Text × Option Text)}
      → Calls ps cs
      → Calls qs ds
      → Calls (ps ++ qs) (cs ++ ds)
  Calls-append nobody d = d
  Calls-append (called h c) d = called h (Calls-append c d)
  Calls-append (passed h c) d = passed h (Calls-append c d)

  unload_plugin-Calls :
      (p : LoadedPlugin (Plugin Conn TC FC Options)) → Calls (p ∷ []) (unload_plugin p)
  unfolding unload_plugin
  unload_plugin-Calls p = elim (Option-cases p.handler.on_unload) [
    | inl e ↦
        let k : unload_plugin p ≡ [] = ground (arith, e) in
        subst (λ cs. Calls (p ∷ []) cs) (sym k) (passed e nobody)
    | inr (answer, e) ↦
        let k : unload_plugin p ≡ (p.name, answer) ∷ [] = ground (arith, e) in
        subst (λ cs. Calls (p ∷ []) cs) (sym k) (called e nobody)
  ]

  unload_plugins-Calls :
      (ps : List (LoadedPlugin (Plugin Conn TC FC Options)))
      → Calls (reverse ps) (unload_plugins ps)
  unfolding unload_plugins
  unload_plugins-Calls [] = nobody
  unload_plugins-Calls (p ∷ ps) =
      subst (λ qs. Calls qs (unload_plugins ps ++ unload_plugin p))
        (sym (reverse-append (p ∷ []) ps))
        (Calls-append (unload_plugins-Calls ps) (unload_plugin-Calls p))

  -- A round of the loop, with what it adds to the plugins loaded before.
  load_plugin-loaded :
      (options : Text → Option Options) (decl : PluginDecl) (h : Plugin Conn TC FC Options)
      (e : Engine Conn TC FC) (loaded : List (LoadedPlugin (Plugin Conn TC FC Options)))
      → let r = load_plugin options decl h e loaded in
        (r.1 ≡ loaded ++ with_hook decl h) ⊎ ((r.1 ≡ loaded) × (x : LoadErr) × (r.2 ≡ some x))
  unfolding load_plugin
  load_plugin-loaded options decl h e loaded = elim (Option-cases h.on_load) [
    | inl n ↦ inl (rw n (sym (append-nil loaded)))
    | inr (on_load, f) ↦ elim (Option-cases (on_load (options decl.name) e).2) [
      | inl n ↦ inl (ground arith)
      | inr (x, n) ↦ inr (ground arith, load_failed decl.name x, ground arith)
    ]
  ]

  -- The plugins that `loadable` still has when loading stops: none, if there is no error.
  abbrev pub Rest : List (LoadedPlugin (Plugin Conn TC FC Options)) → Option LoadErr → Type 0
  Rest rest err = ((err ≡ none) × (rest ≡ [])) ⊎ ((x : LoadErr) × (err ≡ some x))

  module _ (registry : Dict Text (Plugin Conn TC FC Options))
      (options : Text → Option Options) where
    load_plugins-loaded :
        (decls : List PluginDecl) (e : Engine Conn TC FC)
        (loaded : List (LoadedPlugin (Plugin Conn TC FC Options)))
        → let r = load_plugins registry options decls e loaded in
          (rest : List (LoadedPlugin (Plugin Conn TC FC Options))) × (loaded
              ++ loadable registry decls
            ≡ r.1 ++ rest)
          × Rest rest r.2
    unfolding load_plugins
    load_plugins-loaded [] e loaded = ([], refl, inl (refl, refl))
    load_plugins-loaded (decl ∷ decls) e loaded = elim (Option-cases (find decl.source registry)) [
      | inl n ↦
          let (rest, q, r) = load_plugins-loaded decls e loaded in
          (rest, rw (n, loadable, load_plugins) q, rw (n, load_plugins) r)
      | inr (h, f) ↦
          let one = load_plugin options decl h e loaded in
          let later = loadable registry decls in
          let joined = λ (added : one.1 ≡ loaded ++ with_hook decl h).
            sym (append_assoc loaded (with_hook decl h) later)
            ∙ ap (λ xs. xs ++ later) (sym added) in
          elim (Option-cases one.2) [
            | inl ok ↦
                let (rest, q, r) = load_plugins-loaded decls one.0 one.1 in
                elim (load_plugin-loaded options decl h e loaded) [
                  | inl added ↦ (
                    rest,
                    rw (f, loadable, load_plugins, ok) (joined added ∙ q),
                    rw (f, load_plugins, ok) r,
                  )
                  | inr (same, x, failed) ↦ absurd (ground (arith, ok, failed))
                ]
            | inr (x, failed) ↦ elim (load_plugin-loaded options decl h e loaded) [
              | inl added ↦ (
                later,
                rw (f, loadable, load_plugins, failed) (joined added),
                rw (f, load_plugins, failed) (inr (x, refl)),
              )
              | inr (same, _, _) ↦ (
                with_hook decl h ++ later,
                rw (f, loadable, load_plugins, failed)
                    (ap (λ xs. xs ++ (with_hook decl h ++ later)) (sym same)),
                rw (f, load_plugins, failed) (inr (x, refl)),
              )
            ]
          ]
    ]

    -- Loading takes the plugins that are declared, found and have an OnLoad in the order of their
    -- declarations, all of them if there is no error; the OnUnload of those that it took, where they
    -- have one, are called once each from the last to the first.
    pub plugins_unloaded :
        (decls : List PluginDecl) (e : Engine Conn TC FC)
        → let r = load_plugins registry options decls e [] in
          (rest : List (LoadedPlugin (Plugin Conn TC FC Options))) × (loadable registry decls
            ≡ r.1 ++ rest)
          × Rest rest r.2
          × Calls (reverse r.1) (unload_plugins r.1)
    plugins_unloaded decls e =
        let (rest, q, r) = load_plugins-loaded decls e [] in
        (rest, q, r, unload_plugins-Calls (load_plugins registry options decls e []).1)
