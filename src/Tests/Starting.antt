-- ===== src/Tests/Starting.antt =====
-- The start of the process with concrete libraries.
use hub_of_hubs_status_trans.Conflator.ReadyQueue.{new_conflation_ready_queue}
use hub_of_hubs_status_trans.Base.{◌≡◌, refl, ℕ, [], ◌∷◌, none, some}
use hub_of_hubs_status_trans.Conflator.Manager.{ConflationManager, new_conflation_manager}
use hub_of_hubs_status_trans.DbSyncer.Registration.{setup}
use hub_of_hubs_status_trans.WorkerPool.{start, new_db_worker_pool}
use hub_of_hubs_status_trans.Bridge.{Bridge}
use hub_of_hubs_status_trans.Bridge.Invariant.{BridgeInv}
use hub_of_hubs_status_trans.Bridge.Reachable.{initial}
use hub_of_hubs_status_trans.Transport.{setup_transport}
use hub_of_hubs_status_trans.Transport.SyncService.Env.{uint16, read_env_vars}
use hub_of_hubs_status_trans.Startup.{
  Libraries, made, do_main, run_manager, create_manager, create_with_config, pool_started,
  setup_controllers, start_db_worker_pool, new_postgresql, pool_stopped, transport_stopped,
}
use hub_of_hubs_status_trans.Startup.Effects.{Connected, do_main-starts_bridge}
use hub_of_hubs_status_trans.Tests.Arrivals.{keys, levels, environment, env_vars, full_config}

-- Libraries none of whose calls fails, with two connections to the database.
abbrev libraries : Libraries
libraries = record {
  environment = environment;
  connect = λ url. made 2;
  get_config = none;
  new_manager = λ namespace. none;
  add_schemes = none;
  add_config_controller = none;
  add_dispatcher = none;
  start_manager = none;
}

-- A dispatcher that cannot be added: the process exits with 1, and stops the pool.
unadded :
    (do_main {H = ℕ} (record libraries { add_dispatcher = some "no" }) keys levels 0 1 2 3).0 ≡ 1
unfolding do_main run_manager create_manager create_with_config setup_controllers
    start_db_worker_pool new_postgresql read_env_vars
unadded = refl

-- Without a configuration of Kubernetes: the process exits with 1, and the pool is not stopped.
unconfigured :
    do_main {H = ℕ} (record libraries { get_config = some "no" }) keys levels 0 1 2 3
    ≡ (1, pool_started (start 2 (new_db_worker_pool 2)) ∷ [])
unfolding do_main run_manager create_manager start_db_worker_pool new_postgresql
unconfigured = refl

abbrev manager : ConflationManager ℕ
manager = setup 0 1 2 3 (new_conflation_manager [])

do_main-starts_bridge_example :
    let s : Bridge ℕ = record {
      manager = manager;
      pool = start 2 (new_db_worker_pool 2);
      holding = none;
      acquired = none;
    } in
    BridgeInv s × ((size : ℕ) × Connected libraries size × (s ≡ initial manager.registrations size))
unfolding do_main run_manager create_manager create_with_config setup_controllers
    start_db_worker_pool new_postgresql read_env_vars uint16 new_conflation_ready_queue
do_main-starts_bridge_example =
    do_main-starts_bridge libraries keys levels 0 1 2 3 (start 2 (new_db_worker_pool 2)) env_vars
      manager (setup_transport keys levels []) full_config (transport_stopped ∷ pool_stopped ∷ [])
      refl
