-- ===== src/Daemon/Apply/Frontends.antt =====
-- What applyConfig of cmd/proxygw/main.go makes of each frontend of its document.
use proxygw.Prelude.{
  List, Option-cases, Text, [], ap, arith, bool_eq, eq_iff, eq_refl, inl, inr, lookup,
  lookup-insert, nat_eq, none, refl, some, subst, sym, text_eq, true, ℕ, ◌++◌, ◌<◌, ◌∙◌, ◌∷◌, ◌≡◌,
  ◌≢◌, ◌⊎◌,
}
use proxygw.Config.Document
use proxygw.Connft.Nft.{Nft}
use proxygw.Frontend.{Frontend, new, made, start, stopped, starting}
use proxygw.Target as Targets
use proxygw.Target.Endpoints.{Endpoint}
use proxygw.Engine.{Engine, Err, new_frontend, register_frontend}
use proxygw.Engine.Registry.{sum_cases}
use proxygw.Engine.Creation.{new_frontend_cases}
use proxygw.Daemon.Apply.{Answers, make_frontends, start_frontend}

-- Start of a frontend that is stopped and has room.
abbrev started : Frontend → Frontend
started f = record f { err = none; state = starting; requests = starting ∷ [] }

start_of_stopped :
    (f : Frontend) → f.state ≡ stopped → f.requests ≡ [] → start f ≡ some (started f, true)
unfolding start
start_of_stopped f s r = ground (arith, s, r)

module _ {Conn TC FC : Type 0} where
  -- The name leads to the frontend `i`, which was made and which is `f`.
  abbrev Stands : Engine Conn TC FC → Text → ℕ → Frontend → Type 0
  Stands e name i f =
      (lookup name e.frontends ≡ some i) × (i < e.next_frontend) × (e.frontend_at i ≡ f)

  -- The frontend of an element of the document is registered, and asked to start: its loop has this
  -- one request to take.
  abbrev pub IsStarted : Engine Conn TC FC → Document.Frontend → ℕ → Type 0
  IsStarted e cfg i =
      (lookup cfg.name e.frontends ≡ some i)
      × ((e.frontend_at i).name ≡ cfg.name)
      × ((e.frontend_at i).state ≡ starting)
      × ((e.frontend_at i).requests ≡ starting ∷ [])

  start_frontend_keeps :
      (j : ℕ) (e : Engine Conn TC FC) (name : Text) (i : ℕ) (f : Frontend)
      → j ≢ i
      → Stands e name i f
      → Stands (start_frontend j e) name i f
  unfolding start_frontend
  start_frontend_keeps j e name i f n (l, b, a) = elim (Option-cases (start (e.frontend_at j))) [
    | inl k ↦ rw (k, start_frontend) (l, b, a)
    | inr ((g, accepted), k) ↦ rw (k, start_frontend) (l, b, ground (arith, a, eq_iff j i))
  ]

  -- A frontend that is new starts.
  start_frontend-started :
      (e : Engine Conn TC FC) (name : Text) (i : ℕ) (f : Frontend)
      → Stands e name i f
      → f.state ≡ stopped
      → f.requests ≡ []
      → Stands (start_frontend i e) name i (started f)
  unfolding start_frontend
  start_frontend-started e name i f (l, b, a) s r =
      let k : start (e.frontend_at i) ≡ some (started f, true) =
        ap start a ∙ start_of_stopped f s r in
      rw (k, start_frontend) (l, b, ground (arith, eq_refl i))

module _ (nft : Nft) {TC FC : Type 0} (answers : Answers TC FC) where
  open nft use {Conn}

  -- NewFrontend with the answers for a document's frontend.
  abbrev pub ask_frontend : Document.Frontend → Engine Conn TC FC → Engine Conn TC FC × (ℕ ⊎ Err)
  ask_frontend cfg e =
      new_frontend nft e cfg (answers.build_frontend cfg) (answers.close_frontend cfg)

  ask_frontend_taken :
      (cfg : Document.Frontend) (e : Engine Conn TC FC) (i : ℕ)
      → lookup cfg.name e.frontends ≡ some i
      → (ask_frontend cfg e).0 ≡ e
  unfolding new_frontend
  ask_frontend_taken cfg e i h = ground arith

  ask_frontend_keeps :
      (cfg : Document.Frontend) (e : Engine Conn TC FC) (name : Text) (i : ℕ) (f : Frontend)
      → Stands e name i f
      → Stands (ask_frontend cfg e).0 name i f
  unfolding register_frontend made
  ask_frontend_keeps cfg e name i f (l, b, a) = elim (Option-cases (lookup cfg.name e.frontends)) [
    | inr (j, t) ↦ subst (λ u. Stands u name i f) (sym (ask_frontend_taken cfg e j t)) (l, b, a)
    | inl z ↦
        elim (new_frontend_cases nft e cfg (answers.build_frontend cfg)
          (answers.close_frontend cfg)) [
            | inl k ↦ subst (λ u. Stands u name i f) (sym k) (l, b, a)
            | inr (t, endpoint, _, k) ↦
                subst (λ u. Stands u name i f) (sym k)
                  (ground (
                    arith,
                    lookup-insert cfg.name name e.next_frontend e.frontends,
                    eq_iff cfg.name name,
                    eq_iff e.next_frontend i,
                  ))
          ]
  ]

  ask_frontend-registers :
      (cfg : Document.Frontend) (e : Engine Conn TC FC) (i : ℕ)
      → (ask_frontend cfg e).1 ≡ inl i
      → (i ≡ e.next_frontend)
        × (t : ℕ) × (endpoint : Endpoint) × (let u = (ask_frontend cfg e).0 in
            u ≡ register_frontend (record e { dplane = u.dplane }) (made t endpoint cfg))
  unfolding new_frontend new
  ask_frontend-registers cfg e i h = elim (Option-cases (lookup cfg.endpoint.namespace e.targets)) [
    | inl z ↦ absurd (ground (arith, h, z))
    | inr (t, k) ↦ elim (Option-cases (Targets.endpoint (e.target_at t) cfg.endpoint.name)) [
      | inl z ↦ absurd (ground (arith, h, k, z))
      | inr (endpoint, l) ↦ let (n, s) = the_frontend t endpoint k l in (n, t, endpoint, s)
    ]
  ]
    where
      the_frontend :
          (t : ℕ) (endpoint : Endpoint)
          → lookup cfg.endpoint.namespace e.targets ≡ some t
          → Targets.endpoint (e.target_at t) cfg.endpoint.name ≡ some endpoint
          → (i ≡ e.next_frontend)
            × (let u = (ask_frontend cfg e).0 in
                u ≡ register_frontend (record e { dplane = u.dplane }) (made t endpoint cfg))
      the_frontend t endpoint k l = ground (arith, h)

  -- A frontend that NewFrontend makes is new, registered and stopped.
  ask_frontend-made :
      (cfg : Document.Frontend) (e : Engine Conn TC FC) (i : ℕ)
      → (ask_frontend cfg e).1 ≡ inl i
      → (f : Frontend) × Stands (ask_frontend cfg e).0 cfg.name i f
        × (f.name ≡ cfg.name)
        × (f.state ≡ stopped)
        × (f.requests ≡ [])
  unfolding made register_frontend
  ask_frontend-made cfg e i h =
      let (n, t, endpoint, k) = ask_frontend-registers cfg e i h in
      let f : Frontend = record (made t endpoint cfg) { cancelled = e.cancelled } in
      (
        f,
        subst (λ u. Stands u cfg.name i f) (sym k)
            (ground (
              arith,
              n,
              lookup-insert cfg.name cfg.name e.next_frontend e.frontends,
              eq_refl cfg.name,
              eq_refl e.next_frontend,
            )),
        refl,
        refl,
        refl,
      )

  make_frontends_keeps :
      (cfgs : List Document.Frontend) (e : Engine Conn TC FC) (name : Text) (i : ℕ) (f : Frontend)
      → Stands e name i f
      → Stands (make_frontends nft answers cfgs e) name i f
  unfolding make_frontends
  make_frontends_keeps [] e name i f s = s
  make_frontends_keeps (cfg ∷ cfgs) e name i f s =
      let u = (ask_frontend cfg e).0 in
      let k = ask_frontend_keeps cfg e name i f s in
      elim (sum_cases (ask_frontend cfg e).1) [
        | inr (x, h) ↦ rw (h, make_frontends) (make_frontends_keeps cfgs u name i f k)
        | inl (j, h) ↦
            let (n, _, _, _) = ask_frontend-registers cfg e j h in
            rw (h, make_frontends)
              (make_frontends_keeps cfgs (start_frontend j u) name i f
                (start_frontend_keeps j u name i f (λ p. omega (arith, p, n, s.1)) k))
      ]

  make_frontends-append :
      (xs ys : List Document.Frontend) (e : Engine Conn TC FC)
      → make_frontends nft answers (xs ++ ys) e
        ≡ make_frontends nft answers ys (make_frontends nft answers xs e)
  unfolding make_frontends
  make_frontends-append [] ys e = refl
  make_frontends-append (x ∷ xs) ys e = make_frontends-append xs ys _

  -- What becomes of a frontend of the document, `v` being the engine to which NewFrontend is put and
  -- `u` what is left in the end: it is refused, or registered and started.
  abbrev pub Treated : Document.Frontend → Engine Conn TC FC → Engine Conn TC FC → Type 0
  Treated cfg v u = ((x : Err) × ((ask_frontend cfg v).1 ≡ inr x)) ⊎ ((i : ℕ) × IsStarted u cfg i)

  make_frontends-Treated :
      (cfg : Document.Frontend) (after : List Document.Frontend) (v : Engine Conn TC FC)
      → Treated cfg v (make_frontends nft answers (cfg ∷ after) v)
  unfolding make_frontends
  make_frontends-Treated cfg after v = elim (sum_cases (ask_frontend cfg v).1) [
    | inr (x, h) ↦ inl (x, h)
    | inl (i, h) ↦
        let w = (ask_frontend cfg v).0 in
        let (f, s, n, stop, room) = ask_frontend-made cfg v i h in
        let (l, _, a) =
          make_frontends_keeps after (start_frontend i w) cfg.name i (started f)
            (start_frontend-started w cfg.name i f s stop room) in
        inr (
          i,
          rw (h, make_frontends)
              (l, ap (λ g. g.name) a ∙ n, ap (λ g. g.state) a, ap (λ g. g.requests) a),
        )
  ]

  -- Every element of the list, on the engine that those before it leave.
  pub make_frontends-all :
      (before : List Document.Frontend) (cfg : Document.Frontend) (after : List Document.Frontend)
      (e : Engine Conn TC FC)
      → Treated cfg
          (make_frontends nft answers before e)
          (make_frontends nft answers (before ++ cfg ∷ after) e)
  make_frontends-all before cfg after e =
      rw (make_frontends-append before (cfg ∷ after) e)
        (make_frontends-Treated cfg after (make_frontends nft answers before e))
