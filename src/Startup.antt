-- ===== src/Startup.antt =====
-- cmd/manager/main.go, Setup of pkg/controller/controllers.go, Reconcile of
-- pkg/controller/config/config_controller.go, and the constructors that they call:
-- NewDBWorkerPool of pkg/db/worker-pool/db_worker_pool.go and NewPostgreSQL of
-- pkg/db/postgresql/postgresql.go. The Kubernetes runtime, the process environment and the
-- database driver are arguments. Log lines, flags and signals are left out.
pub mod Effects
use hub_of_hubs_status_trans.Base.{
  ℕ, zero, suc, ◌≡◌, Bool, true, false, String, List, [], ◌∷◌, ◌++◌, Option, none, some, wrap,
  str_append,
}
use hub_of_hubs_status_trans.Conflator.Manager.{ConflationManager, new_conflation_manager}
use hub_of_hubs_status_trans.Conflator.ReadyQueue.{new_conflation_ready_queue}
use hub_of_hubs_status_trans.DbSyncer.Registration.{setup}
use hub_of_hubs_status_trans.WorkerPool.{DbWorkerPool, new_db_worker_pool, start}
use hub_of_hubs_status_trans.Transport.{MsgKeys, Levels, Config, Registrations, setup_transport}
use hub_of_hubs_status_trans.Transport.SyncService.Env.{
  Environment, EnvVars, value, failure, read_env_vars,
}

-- What an attempt gives: a thing, or the message of an error.
pub data Attempt {ℓ} (A : Type ℓ) : Type ℓ where
  made : A → Attempt A
  refused : String → Attempt A

-- What a call gives that may also end the process at once: `os.Exit(1)` runs no deferred call.
pub data Returned {ℓ} (A : Type ℓ) : Type ℓ where
  returned : Attempt A → Returned A
  exited : Returned A

-- The libraries: `connect` gives the size of the connection pool; each other entry is the error of a
-- call, if any. On an error of `get_config` the call of `ctrl.GetConfigOrDie` ends the process.
-- `start_manager` is the call that returns when the process is told to stop.
pub record Libraries : Type 0 where
  pub environment : Environment
  pub connect : String → Attempt ℕ
  pub get_config : Option String
  pub new_manager : String → Option String
  pub add_schemes : Option String
  pub add_config_controller : Option String
  pub add_dispatcher : Option String
  pub start_manager : Option String

-- What the process does, in its order.
pub data Effect (H L : Type 0) : Type 0 where
  pool_started : DbWorkerPool H → Effect H L
  pool_stopped : Effect H L
  transport_started : EnvVars → ConflationManager H → Registrations L → Config L → Effect H L
  transport_stopped : Effect H L

-- What `Setup` leaves behind.
pub record Ready (H L : Type 0) : Type 0 where
  pub env_vars : EnvVars
  pub manager : ConflationManager H
  pub registrations : Registrations L
  pub config : Config L

module _ (lib : Libraries) where
  unfoldable pub new_postgresql : Attempt ℕ
  new_postgresql = elim (lib.environment.lookup_env "DATABASE_URL") [
    | none ↦ refused "not found environment variable: DATABASE_URL"
    | some url ↦ elim (lib.connect url) [
      | refused message ↦ refused (str_append "unable to connect to db: " message)
      | made size ↦ made size
    ]
  ]

  -- `startDBWorkerPool`: the pool has a worker for each connection.
  unfoldable pub start_db_worker_pool : {H : Type 0} → Attempt (DbWorkerPool H)
  start_db_worker_pool = elim new_postgresql [
    | refused message ↦ refused (
        str_append "failed to initialize DBWorkerPool - "
          (str_append "failed to initialize db worker pool - " message))
    | made size ↦ made (start size (new_db_worker_pool size))
  ]

module _ {H L : Type 0} (lib : Libraries) (keys : MsgKeys) (levels : Levels L)
    (managed clusters_per_policy compliance minimal : H) where
  -- `Setup`, with `addConfigController` and `addDispatcher`: the level is full until the
  -- configuration is read.
  unfoldable pub setup_controllers : EnvVars → ConflationManager H → Attempt (Ready H L)
  setup_controllers env_vars cm = elim (lib.add_config_controller) [
    | some message ↦ refused (
        str_append "failed to add config controller to manager - failed to add controller: "
          message)
    | none ↦ elim (lib.add_dispatcher) [
      | some message ↦
          refused
            (str_append "failed to add dispatcher to manager - failed to add dispatcher: " message)
      | none ↦ made (record {
        env_vars = env_vars;
        manager = setup managed clusters_per_policy compliance minimal cm;
        registrations = setup_transport keys levels [];
        config = record { aggregation_level = levels.full };
      })
    ]
  ]

  -- `createManager` after `ctrl.GetConfigOrDie`, with `NewSyncService`.
  unfoldable pub create_with_config : String → Attempt (Ready H L)
  create_with_config namespace = elim (lib.new_manager namespace) [
    | some message ↦ refused (str_append "failed to create a new manager: " message)
    | none ↦ elim (lib.add_schemes) [
      | some message ↦ refused (str_append "failed to add schemes: failed to add scheme: " message)
      | none ↦ elim (read_env_vars lib.environment) [
        | failure message ↦ refused (
            str_append "failed to initialize transport: "
              (str_append "failed to initialize sync service - " message))
        | value env_vars ↦
            elim (setup_controllers env_vars (new_conflation_manager new_conflation_ready_queue)) [
              | refused message ↦
                  refused (str_append "failed to do initial setup of the manager: " message)
              | made ready ↦ made ready
            ]
      ]
    ]
  ]

  unfoldable pub create_manager : String → Returned (Ready H L)
  create_manager namespace = elim (lib.get_config) [
    | some message ↦ exited
    | none ↦ returned (create_with_config namespace)
  ]

  -- `doMain` after the worker pool has started: the exit code, and the effects up to the deferred
  -- stop of the pool, unless the process ends before.
  unfoldable pub run_manager : String → ℕ × List (Effect H L)
  run_manager namespace = elim (create_manager namespace) [
    | exited ↦ (1, [])
    | returned (refused message) ↦ (1, pool_stopped ∷ [])
    | returned (made ready) ↦ (
      elim (lib.start_manager) [ some message ↦ 1 | none ↦ 0 ],
      transport_started ready.env_vars ready.manager ready.registrations ready.config
          ∷ transport_stopped
          ∷ pool_stopped
          ∷ [],
    )
  ]

  unfoldable pub do_main : ℕ × List (Effect H L)
  do_main = elim (lib.environment.lookup_env "POD_NAMESPACE") [
    | none ↦ (1, [])
    | some namespace ↦ elim (start_db_worker_pool lib) [
      | refused message ↦ (1, [])
      | made pool ↦
          let (code, effects) = run_manager namespace in (code, pool_started pool ∷ effects)
    ]
  ]

-- The result of reading the configuration's resource.
pub data GetResult : Type 0 where
  got : GetResult
  not_found : GetResult
  get_failed : String → GetResult

abbrev pub requeue_period_seconds : ℕ
requeue_period_seconds = 5

-- `Reconcile`: the shared configuration as `Get` leaves it, the time after which to try again, and
-- the error.
unfoldable pub reconcile :
    {L : Type 0}
    → (Config L → Config L × GetResult)
    → Config L
    → Config L × Option ℕ × Option String
reconcile get config =
    let (config', result) = get config in
    elim result [
      | got ↦ (config', none, none)
      | not_found ↦ (config', none, none)
      | get_failed message ↦
          (config', some requeue_period_seconds, wrap "reconciliation failed: " (some message))
    ]
