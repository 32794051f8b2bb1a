-- ===== src/WorkerPool.antt =====
-- pkg/db/worker-pool. A worker is named by its id and is modelled by where it stands: about to
-- offer itself, in the pool's channel, taken by the dispatcher (Bridge), or at a job. A worker in
-- the channel has an empty jobs queue, so handing it a job does not block. Stopping the pool is
-- not modelled.
use hub_of_hubs_status_trans.Base.{
  ℕ, zero, suc, ◌+◌, String, List, [], ◌∷◌, ◌++◌, Option, none, some, length, ltb, if◌then◌else◌,
}
use hub_of_hubs_status_trans.Bundle.{Bundle}

-- `conflation_unit_result_reporter` is the unit, named by its leaf hub.
pub record DbJob (H : Type 0) : Type 0 where
  pub bundle : Option Bundle
  pub bundle_metadata : Option ℕ
  pub handler_func : H
  pub conflation_unit_result_reporter : String

unfoldable pub new_db_job : {H : Type 0} → Option Bundle → Option ℕ → H → String → DbJob H
new_db_job b m h reporter = record {
  bundle = b;
  bundle_metadata = m;
  handler_func = h;
  conflation_unit_result_reporter = reporter;
}

-- A worker with the job that it was given.
pub record Running (H : Type 0) : Type 0 where
  pub worker_id : ℕ
  pub job : DbJob H

-- `db_workers` is the buffered channel, of the given capacity.
pub record DbWorkerPool (H : Type 0) : Type 0 where
  pub capacity : ℕ
  pub offering : List ℕ
  pub db_workers : List ℕ
  pub running : List (Running H)

-- The ids that `Start` gives out: `count` of them, from `id` on.
unfoldable pub worker_ids : ℕ → ℕ → List ℕ
worker_ids id zero = []
worker_ids id (suc count) = id ∷ worker_ids (id + 1) count

module _ {H : Type 0} where
  unfoldable pub new_db_worker_pool : ℕ → DbWorkerPool H
  new_db_worker_pool pool_size = record {
    capacity = pool_size;
    offering = [];
    db_workers = [];
    running = [];
  }

  -- The worker goroutines of `Start`, each at the head of its loop.
  unfoldable pub start : ℕ → DbWorkerPool H → DbWorkerPool H
  start pool_size pool = record pool { offering = worker_ids 1 pool_size }

  -- `worker.dbWorkersPool <- worker`, by a worker `w` that stands between `before` and `after` among
  -- those at the head of their loop. It waits while the channel is full.
  unfoldable pub offer : List ℕ → ℕ → List ℕ → DbWorkerPool H → Option (DbWorkerPool H)
  offer before w after pool =
      if ltb (length pool.db_workers) pool.capacity
      then some (record pool { offering = before ++ after; db_workers = pool.db_workers ++ w ∷ [] })
      else none

  -- `none` is a wait for an available worker.
  unfoldable pub acquire : DbWorkerPool H → Option (ℕ × DbWorkerPool H)
  acquire pool = elim pool.db_workers [
    | [] ↦ none
    | w ∷ rest ↦ some (w, record pool { db_workers = rest })
  ]

  unfoldable pub run_async : ℕ → DbJob H → DbWorkerPool H → DbWorkerPool H
  run_async w job pool = record pool {
    running = record { worker_id = w; job = job } ∷ pool.running;
  }

  -- A worker whose job is done goes back to the head of its loop.
  unfoldable pub finish :
      List (Running H) → Running H → List (Running H) → DbWorkerPool H → DbWorkerPool H
  finish before r after pool = record pool {
    running = before ++ after;
    offering = r.worker_id ∷ pool.offering;
  }
