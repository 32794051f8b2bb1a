-- ===== src/Bridge.antt =====
-- The running bridge: transport, conflation manager, dispatcher and database workers together, as
-- a step relation. pkg/controller/dispatcher/dispatcher.go and the loop of
-- pkg/db/worker-pool/db_worker.go. Each step is one stretch of code between blocking operations.
pub mod Occurrences
pub mod Jobs
pub mod Invariant
pub mod Dispatch
pub mod Preservation
pub mod Safety
pub mod Reachable
pub mod Stranded
pub mod Lost
pub mod Workers
pub mod Progress
use hub_of_hubs_status_trans.Base.{
  ℕ, ◌≡◌, String, List, [], ◌∷◌, ◌++◌, Option, none, some, ◌>>=◌, lookup, assign,
}
use hub_of_hubs_status_trans.Bundle.{Bundle}
use hub_of_hubs_status_trans.Conflator.ReadyQueue.{blocking_dequeue}
use hub_of_hubs_status_trans.Conflator.Unit.{
  ConflationUnit, TransportMetadata, Work, get_next, report_result,
}
use hub_of_hubs_status_trans.Conflator.Manager.{ConflationManager}
use hub_of_hubs_status_trans.Conflator.Manager
use hub_of_hubs_status_trans.WorkerPool.{
  DbWorkerPool, Running, new_db_job, offer, acquire, run_async, finish,
}

-- `holding` and `acquired` are the locals `conflationUnit` and `dbWorker` of the dispatch loop.
pub record Bridge (H : Type 0) : Type 0 where
  pub manager : ConflationManager H
  pub pool : DbWorkerPool H
  pub holding : Option String
  pub acquired : Option ℕ

module _ {H : Type 0} where
  -- The unit `cu` of `hub` and the ready queue as a method has left them.
  abbrev pub with_unit :
      ConflationManager H → String → ConflationUnit H → List String → ConflationManager H
  with_unit cm hub cu rq = record cm {
    conflation_units = assign hub cu cm.conflation_units;
    ready_queue = rq;
  }

  -- The dispatch loop from `GetNext` on. On `errNoReadyBundle` the loop goes on to the next round,
  -- and drops both its locals.
  unfoldable pub dispatch : String → ℕ → Bridge H → Option (Bridge H)
  dispatch hub w s = do
    cu ← lookup hub s.manager.conflation_units
    (cu', next) ← get_next cu
    elim next [
      | none ↦ some (record s {
        manager = with_unit s.manager hub cu' s.manager.ready_queue;
        holding = none;
        acquired = none;
      })
      | some work ↦ some (record s {
        manager = with_unit s.manager hub cu' s.manager.ready_queue;
        pool =
            run_async w (new_db_job work.bundle work.bundle_metadata work.handler_function hub)
              s.pool;
        holding = none;
        acquired = none;
      })
    ]

  -- The worker reports the handler's result to the unit and returns to the pool.
  unfoldable pub work_done :
      List (Running H) → Running H → List (Running H) → Option String → Bridge H → Option (Bridge H)
  work_done before r after failure s = do
    cu ← lookup r.job.conflation_unit_result_reporter s.manager.conflation_units
    m ← r.job.bundle_metadata
    (cu', rq) ←
        report_result r.job.conflation_unit_result_reporter m failure cu s.manager.ready_queue
    some (record s {
      manager = with_unit s.manager r.job.conflation_unit_result_reporter cu' rq;
      pool = finish before r after s.pool;
    })

  pub data Step (s : Bridge H) : Bridge H → Type 0 where
    -- the transport inserts a bundle
    receive :
        (b : Bundle) (metadata : TransportMetadata) (cm : ConflationManager H)
        → Manager.insert s.manager b metadata ≡ some cm
        → Step s (record s { manager = cm })
    -- the dispatcher takes the first unit of the ready queue
    dequeue :
        (hub : String) (rq : List String)
        → s.holding ≡ none
        → blocking_dequeue s.manager.ready_queue ≡ some (hub, rq)
        → Step s
            (record s { manager = record (s.manager) { ready_queue = rq }; holding = some hub })
    -- then a worker
    acquire_worker :
        (hub : String) (w : ℕ) (pool : DbWorkerPool H)
        → s.holding ≡ some hub
        → s.acquired ≡ none
        → acquire s.pool ≡ some (w, pool)
        → Step s (record s { pool = pool; acquired = some w })
    -- then the unit's next bundle
    dispatch_next :
        (hub : String) (w : ℕ) (s' : Bridge H)
        → s.holding ≡ some hub
        → s.acquired ≡ some w
        → dispatch hub w s ≡ some s'
        → Step s s'
    -- a worker at the head of its loop enters the pool
    offer_worker :
        (before : List ℕ) (w : ℕ) (after : List ℕ) (pool : DbWorkerPool H)
        → s.pool.offering ≡ before ++ w ∷ after
        → offer before w after s.pool ≡ some pool
        → Step s (record s { pool = pool })
    -- a handler returns, with an error or without
    finish_job :
        (before : List (Running H)) (r : Running H) (after : List (Running H))
        (failure : Option String) (s' : Bridge H)
        → s.pool.running ≡ before ++ r ∷ after
        → work_done before r after failure s ≡ some s'
        → Step s s'

  -- The states that some steps lead to.
  pub data Reach (s : Bridge H) : Bridge H → Type 0 where
    here : Reach s s
    next : {t u : Bridge H} → Reach s t → Step t u → Reach s u
