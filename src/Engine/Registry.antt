-- ===== src/Engine/Registry.antt =====
-- The maps of pkg/engine/engine.go: what the calls put into them and take out.
use proxygw.Prelude.{
  Option, Text, arith, bool_eq, eq_iff, eq_refl, false, inl, inr, lookup-insert, nat_eq, none, refl,
  some, text_eq, true, ℕ, ◌≡◌, ◌⊎◌,
}
use proxygw.Config.Document
use proxygw.Connft.Nft.{Nft}
use proxygw.Connft.State.{new_connft_group}
use proxygw.Target.{Target}
use proxygw.Target as Targets
use proxygw.Target.Endpoints.{Endpoint}
use proxygw.Engine.{
  Engine, Err, err_closed, add_frontend_kind, del_frontend_kind, add_target_kind, del_target_kind,
  get_target, del_target, del_frontend, new_target, new_frontend, register_target,
}

-- The calls that change the engine's maps, with the answers of the handlers that they meet.
pub data Call (TC FC : Type 0) : Type 0 where
  frontend_kind_add : Text → Option FC → Call TC FC
  target_kind_add : Text → Option TC → Call TC FC
  frontend_kind_del target_kind_del target_del frontend_del : Text → Call TC FC
  target_new : Document.Target → (TC → Option Text) → Option Text → ℕ → Call TC FC
  frontend_new : Document.Frontend → (FC → Option Text) → Option Text → Call TC FC

abbrev error_of : {A : Type 0} → A ⊎ Err → Option Err
error_of (inl x) = none
error_of (inr e) = some e

new_name :
    (group : ℕ) (cfg : Document.Target) (t : Target)
    → Targets.new group cfg ≡ inl t
    → (t.name ≡ cfg.name) × (t.state ≡ Targets.inactive) × (t.group ≡ group)
unfolding Targets.new
new_name group cfg t h = ground arith

pub sum_cases : {A B : Type 0} (r : A ⊎ B) → ((x : A) × (r ≡ inl x)) ⊎ ((y : B) × (r ≡ inr y))
sum_cases (inl x) = inl (x, refl)
sum_cases (inr y) = inr (y, refl)

pub new_cases :
    (group : ℕ) (cfg : Document.Target)
    → ((t : Target) × (Targets.new group cfg ≡ inl t)
        × (t.name ≡ cfg.name)
        × (t.state ≡ Targets.inactive)
        × (t.group ≡ group))
      ⊎ ((bad : Endpoint) × (Targets.new group cfg ≡ inr bad))
new_cases group cfg = elim (sum_cases (Targets.new group cfg)) [
  | inl (t, h) ↦ let (n, q, g) = new_name group cfg t h in inl (t, h, n, q, g)
  | inr (bad, h) ↦ inr (bad, h)
]

module _ (nft : Nft) {TC FC : Type 0} where
  open nft use {Conn}

  abbrev pub call : Call TC FC → Engine Conn TC FC → Engine Conn TC FC × Option Err
  call (frontend_kind_add name k) e = add_frontend_kind e name k
  call (target_kind_add name k) e = add_target_kind e name k
  call (frontend_kind_del name) e = del_frontend_kind e name
  call (target_kind_del name) e = del_target_kind e name
  call (target_del name) e = del_target e name
  call (frontend_del name) e = del_frontend e name
  call (target_new cfg build answer now) e =
      let (e', r) = new_target nft e cfg build answer now in (e', error_of r)
  call (frontend_new cfg build answer) e =
      let (e', r) = new_frontend nft e cfg build answer in (e', error_of r)

  -- Every call on a closed engine answers ErrClosed and leaves the engine as it is.
  pub closed_refuses :
      (c : Call TC FC) (e : Engine Conn TC FC) → e.closed ≡ true → call c e ≡ (e, some err_closed)
  unfolding add_frontend_kind add_target_kind del_frontend_kind del_target_kind del_target
      del_frontend new_target new_frontend
  closed_refuses (frontend_kind_add name k) e h = ground arith
  closed_refuses (target_kind_add name k) e h = ground arith
  closed_refuses (frontend_kind_del name) e h = ground arith
  closed_refuses (target_kind_del name) e h = ground arith
  closed_refuses (target_del name) e h = ground arith
  closed_refuses (frontend_del name) e h = ground arith
  closed_refuses (target_new cfg build answer now) e h = ground arith
  closed_refuses (frontend_new cfg build answer) e h = ground arith

  -- NewTarget that returns a target: the engine was open, the name was free, and now leads to the
  -- target, which is inactive and has the name; every other name leads where it led.
  pub new_target-get_target :
      (e u : Engine Conn TC FC) (cfg : Document.Target) (build : TC → Option Text)
      (answer : Option Text) (now i : ℕ)
      → new_target nft e cfg build answer now ≡ (u, inl i)
      → (name : Text)
      → (e.closed ≡ false)
        × (get_target e cfg.name ≡ none)
        × (get_target u cfg.name ≡ some i)
        × ((u.target_at i).name ≡ cfg.name)
        × ((u.target_at i).state ≡ Targets.inactive)
        × ((name ≡ cfg.name) ⊎ (get_target u name ≡ get_target e name))
  unfolding new_target get_target register_target new_connft_group
  new_target-get_target e u cfg build answer now i h name = ground (
    arith,
    new_cases e.dplane.next cfg,
    lookup-insert cfg.name cfg.name e.next_target e.targets,
    lookup-insert cfg.name name e.next_target e.targets,
    eq_refl cfg.name,
    eq_iff cfg.name name,
  )
