-- ===== src/Startup/Effects.antt =====
-- doMain of cmd/manager/main.go: what is started and stopped, and in which state the bridge starts.
use mathlib.Core.Path.{subst₂}
use hub_of_hubs_status_trans.Base.{
  ℕ, ◌≡◌, refl, ap, sym, ◌∙◌, Bool, true, false, not, ◌&&◌, String, List, [], ◌∷◌, none, arith,
  some, Option-cases, inl, inr, ◌⊎◌,
}
use hub_of_hubs_status_trans.Conflator.Manager.{ConflationManager, new_conflation_manager, register}
use hub_of_hubs_status_trans.Conflator.ReadyQueue.{new_conflation_ready_queue}
use hub_of_hubs_status_trans.DbSyncer.Registration.{
  setup, setup-IsProper, register_managed_clusters_handlers, register_policies_handlers,
}
use hub_of_hubs_status_trans.WorkerPool.{DbWorkerPool, new_db_worker_pool, start}
use hub_of_hubs_status_trans.Bridge.{Bridge}
use hub_of_hubs_status_trans.Bridge.Invariant.{BridgeInv}
use hub_of_hubs_status_trans.Bridge.Reachable.{initial, initial-Inv}
use hub_of_hubs_status_trans.Transport.{MsgKeys, Levels, Config, Registrations}
use hub_of_hubs_status_trans.Transport.SyncService.Env.{EnvVars}
use hub_of_hubs_status_trans.Startup.{
  Libraries, Effect, pool_started, pool_stopped, transport_started, transport_stopped, Attempt,
  made, refused, Returned, returned, exited, create_with_config, new_postgresql,
  start_db_worker_pool, setup_controllers, create_manager, run_manager, do_main, Ready,
}

module _ {H L : Type 0} where
  -- Nothing is started twice or stopped unless it runs, the transport runs only within the time of
  -- the pool, and at the end nothing runs. The Booleans say what runs before: the pool, and the
  -- transport.
  abbrev pub balanced : List (Effect H L) → Bool → Bool → Bool
  balanced [] pool transport = not pool && not transport
  balanced (pool_started p ∷ rest) pool transport =
      (not pool && not transport) && balanced rest true transport
  balanced (pool_stopped ∷ rest) pool transport =
      (pool && not transport) && balanced rest false transport
  balanced (transport_started v cm rs config ∷ rest) pool transport =
      (pool && not transport) && balanced rest pool true
  balanced (transport_stopped ∷ rest) pool transport =
      (pool && transport) && balanced rest pool false

  -- The worker pool is started.
  abbrev pub starts : List (Effect H L) → Bool
  starts [] = false
  starts (pool_started p ∷ rest) = true
  starts (pool_stopped ∷ rest) = starts rest
  starts (transport_started v cm rs config ∷ rest) = starts rest
  starts (transport_stopped ∷ rest) = starts rest

  -- The transport is started.
  abbrev pub serves : List (Effect H L) → Bool
  serves [] = false
  serves (transport_started v cm rs config ∷ rest) = true
  serves (pool_started p ∷ rest) = serves rest
  serves (pool_stopped ∷ rest) = serves rest
  serves (transport_stopped ∷ rest) = serves rest

Attempt-cases {ℓ} :
    {A : Type ℓ} (a : Attempt A)
    → ((message : String) × (a ≡ refused message)) ⊎ ((x : A) × (a ≡ made x))
Attempt-cases (refused message) = inl (message, refl)
Attempt-cases (made x) = inr (x, refl)

-- The connection pool is that of the database at the URL of the environment, and has this size.
abbrev pub Connected : Libraries → ℕ → Type 0
Connected lib size =
    (url : String) × (lib.environment.lookup_env "DATABASE_URL" ≡ some url)
    × (lib.connect url ≡ made size)

new_postgresql-made :
    (lib : Libraries) (size : ℕ) → new_postgresql lib ≡ made size → Connected lib size
unfolding new_postgresql
new_postgresql-made lib size h = elim (Option-cases (lib.environment.lookup_env "DATABASE_URL")) [
  | inl missing ↦ absurd (ground arith)
  | inr (url, e) ↦ elim (Attempt-cases (lib.connect url)) [
    | inl (message, c) ↦ absurd (ground arith)
    | inr (n, c) ↦ let same : n ≡ size = ground arith in (url, e, c ∙ ap made same)
  ]
]

start_db_worker_pool-made :
    {H : Type 0} (lib : Libraries) (pool : DbWorkerPool H)
    → start_db_worker_pool lib ≡ made pool
    → (size : ℕ) × Connected lib size × (pool ≡ start size (new_db_worker_pool size))
unfolding start_db_worker_pool
start_db_worker_pool-made lib pool h = elim (Attempt-cases (new_postgresql lib)) [
  | inl (message, e) ↦ absurd (ground arith)
  | inr (size, e) ↦ (size, new_postgresql-made lib size e, ground arith)
]

Returned-cases {ℓ} :
    {A : Type ℓ} (a : Returned A)
    → ((x : A) × (a ≡ returned (made x)))
      ⊎ ((a ≡ exited) ⊎ ((message : String) × (a ≡ returned (refused message))))
Returned-cases (returned (made x)) = inl (x, refl)
Returned-cases (returned (refused message)) = inr (inr (message, refl))
Returned-cases exited = inr (inl refl)

module _ {H L : Type 0} (lib : Libraries) (keys : MsgKeys) (levels : Levels L)
    (managed clusters_per_policy compliance minimal : H) where
  create_manager-made :
      (namespace : String) (ready : Ready H L)
      → create_manager lib keys levels managed clusters_per_policy compliance minimal namespace
        ≡ returned (made ready)
      → ready.manager
        ≡ setup managed clusters_per_policy compliance minimal
            (new_conflation_manager new_conflation_ready_queue)
  unfolding create_manager create_with_config setup_controllers
  create_manager-made namespace ready h = ground arith

  do_main-parts :
      (pool : DbWorkerPool H) (env_vars : EnvVars) (cm : ConflationManager H)
      (registrations : Registrations L) (config : Config L) (rest : List (Effect H L))
      → (do_main lib keys levels managed clusters_per_policy compliance minimal).1
        ≡ pool_started pool ∷ transport_started env_vars cm registrations config ∷ rest
      → ((size : ℕ) × Connected lib size × (pool ≡ start size (new_db_worker_pool size)))
        × (cm
            ≡ setup managed clusters_per_policy compliance minimal
                (new_conflation_manager new_conflation_ready_queue))
  unfolding do_main run_manager
  do_main-parts pool env_vars cm registrations config rest h =
      elim (Option-cases (lib.environment.lookup_env "POD_NAMESPACE")) [
        | inl missing ↦ absurd (ground arith)
        | inr (namespace, e) ↦ elim (Attempt-cases (start_db_worker_pool lib {H = H})) [
          | inl (message, e1) ↦ absurd (ground arith)
          | inr (started, e1) ↦
              elim (Returned-cases (
                create_manager lib keys levels managed clusters_per_policy compliance minimal
                  namespace)) [
                    | inl (ready, e2) ↦
                        let same : started ≡ pool = ground arith in
                        let manager : ready.manager ≡ cm = ground arith in
                        (
                          start_db_worker_pool-made lib pool (e1 ∙ ap made same),
                          sym manager ∙ create_manager-made namespace ready e2,
                        )
                    | inr (inl e2) ↦ absurd (ground arith)
                    | inr (inr (message, e2)) ↦ absurd (ground arith)
                  ]
        ]
      ]

  started_bridge :
      (size : ℕ)
      → let cm =
          setup managed clusters_per_policy compliance minimal
            (new_conflation_manager new_conflation_ready_queue) in
        let s : Bridge H = record {
          manager = cm;
          pool = start size (new_db_worker_pool size);
          holding = none;
          acquired = none;
        } in
        BridgeInv s × (s ≡ initial cm.registrations size)
  unfolding setup register_managed_clusters_handlers register_policies_handlers register
      new_conflation_manager new_conflation_ready_queue initial
  started_bridge size =
      let cm = setup managed clusters_per_policy compliance minimal (new_conflation_manager []) in
      let rs = cm.registrations in
      (initial-Inv rs size (setup-IsProper managed clusters_per_policy compliance minimal), refl)

  -- When the process starts the transport, the bridge is in the initial state of its conflation
  -- manager's registrations, which are proper, with one worker for each connection of the pool to the
  -- database at DATABASE_URL; so it satisfies the invariant.
  pub do_main-starts_bridge :
      (pool : DbWorkerPool H) (env_vars : EnvVars) (cm : ConflationManager H)
      (registrations : Registrations L) (config : Config L) (rest : List (Effect H L))
      → (do_main lib keys levels managed clusters_per_policy compliance minimal).1
        ≡ pool_started pool ∷ transport_started env_vars cm registrations config ∷ rest
      → let s : Bridge H = record { manager = cm; pool = pool; holding = none; acquired = none } in
        BridgeInv s × ((size : ℕ) × Connected lib size × (s ≡ initial cm.registrations size))
  do_main-starts_bridge pool env_vars cm registrations config rest h =
      let ((size, connected, p), m) = do_main-parts pool env_vars cm registrations config rest h in
      let (sound, same) = started_bridge size in
      subst₂
        (λ (c : ConflationManager H) (q : DbWorkerPool H).
          let s : Bridge H = record { manager = c; pool = q; holding = none; acquired = none } in
          BridgeInv s × ((n : ℕ) × Connected lib n × (s ≡ initial c.registrations n)))
        (sym m) (sym p) (sound, (size, connected, same))
