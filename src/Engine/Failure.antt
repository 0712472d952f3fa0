-- ===== src/Engine/Failure.antt =====
-- What the calls of pkg/engine/engine.go leave behind that take something away or fail.
use proxygw.Prelude.{
  Option, Text, [], arith, bool_eq, eq_iff, eq_refl, false, inr, insert, lookup, lookup-delete,
  lookup-insert, nat_eq, none, some, text_eq, ℕ, ◌∷◌, ◌≡◌, ◌≢◌, ◌⊎◌,
}
use proxygw.Config.Document
use proxygw.Connft.Nft.{Nft}
use proxygw.Connft.State
use proxygw.Connft.State.{Connft, new_connft_group, new_group}
use proxygw.Connft.Group.{close_unlocked, clear_unlocked, del_unlocked}
use proxygw.Connft.Group.Atomic.{add, change_atomic}
use proxygw.Target as Targets
use proxygw.Frontend
use proxygw.Frontend.{Frontend, new, made, mapping_of}
use proxygw.Target.{Target}
use proxygw.Target.Endpoints.{Endpoint}
use proxygw.Engine.{
  Engine, Err, err_target_in_use, err_frontend_in_use, get_target, get_frontend, del_target,
  del_frontend, new_target, new_frontend, register_target, register_frontend,
}
use proxygw.Engine.Registry.{new_cases}

module _ {Conn TC FC : Type 0} where
  -- DelTarget on an open engine: it fails exactly if the name leads to a target that is not closed,
  -- with ErrTargetInUse, and then nothing changes; else the name leads nowhere, and every other name
  -- leads where it led.
  pub del_target_lem :
      (e : Engine Conn TC FC) (name other : Text)
      → e.closed ≡ false
      → (((i : ℕ) × (get_target e name ≡ some i)
            × ((e.target_at i).state ≢ Targets.closed)
            × (del_target e name ≡ (e, some err_target_in_use)))
          ⊎ (((del_target e name).1 ≡ none)
              × (get_target (del_target e name).0 name ≡ none)
              × ((other ≡ name) ⊎ (get_target (del_target e name).0 other ≡ get_target e other))))
  unfolding del_target get_target
  del_target_lem e name other h = ground (
    arith,
    lookup-delete name name e.targets,
    lookup-delete name other e.targets,
    eq_refl name,
    eq_iff name other,
  )

  -- DelFrontend on an open engine: it fails exactly if the name leads to a frontend that is not
  -- closed, with ErrFrontendInUse, and then nothing changes; else the name leads nowhere, and
  -- every other name leads where it led.
  pub del_frontend_lem :
      (e : Engine Conn TC FC) (name other : Text)
      → e.closed ≡ false
      → (((i : ℕ) × (get_frontend e name ≡ some i)
            × ((e.frontend_at i).state ≢ Frontend.closed)
            × (del_frontend e name ≡ (e, some err_frontend_in_use)))
          ⊎ (((del_frontend e name).1 ≡ none)
              × (get_frontend (del_frontend e name).0 name ≡ none)
              × ((other ≡ name)
                  ⊎ (get_frontend (del_frontend e name).0 other ≡ get_frontend e other))))
  unfolding del_frontend get_frontend
  del_frontend_lem e name other h = ground (
    arith,
    lookup-delete name name e.frontends,
    lookup-delete name other e.frontends,
    eq_refl name,
    eq_iff name other,
  )

module _ (nft : Nft) where
  open nft use {Conn}

  bind_failure :
      (d : Connft Conn) (i : ℕ) (target : Target) (endpoint : Endpoint) (cfg : Document.Frontend)
      (x : State.Err)
      → (new nft d i target endpoint cfg).1 ≡ inr x
      → (new nft d i target endpoint cfg).0
        ≡ record d { conn = (new nft d i target endpoint cfg).0.conn }
  unfolding new
  bind_failure d i target endpoint cfg x h =
      ground (arith, change_atomic nft (add (mapping_of endpoint cfg ∷ [])) d target.group x)

module _ (nft : Nft) {TC FC : Type 0} where
  open nft use {Conn}

  -- NewFrontend that fails leaves the engine as it was, and the dataplane too but for what the kernel
  -- was asked: no mapping is left without a frontend.
  pub new_frontend_atomic :
      (e u : Engine Conn TC FC) (cfg : Document.Frontend) (build : FC → Option Text)
      (answer : Option Text) (x : Err)
      → new_frontend nft e cfg build answer ≡ (u, inr x)
      → u ≡ record e { dplane = record e.dplane { conn = u.dplane.conn } }
  unfolding new_frontend register_frontend
  new_frontend_atomic e u cfg build answer x h = grind (arith, bind_failure)

  -- NewTarget that fails leaves every name of the engine and of the dataplane where it was.
  pub new_target_failure :
      (e u : Engine Conn TC FC) (cfg : Document.Target) (build : TC → Option Text)
      (answer : Option Text) (now : ℕ) (x : Err) (name : Text)
      → new_target nft e cfg build answer now ≡ (u, inr x)
      → (u ≡ record e { dplane = u.dplane })
        × (lookup name u.dplane.groups ≡ lookup name e.dplane.groups)
  unfolding new_target new_connft_group new_group close_unlocked clear_unlocked del_unlocked
      register_target
  new_target_failure e u cfg build answer now x name h = ground (
    arith,
    new_cases e.dplane.next cfg,
    eq_refl e.dplane.next,
    eq_refl cfg.name,
    eq_iff cfg.name name,
    lookup-insert cfg.name name e.dplane.next e.dplane.groups,
    lookup-delete cfg.name name (insert cfg.name e.dplane.next e.dplane.groups),
  )
