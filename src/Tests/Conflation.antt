-- ===== src/Tests/Conflation.antt =====
-- Conflation units, the manager and the running bridge at concrete inputs. Handlers are numbers.
use hub_of_hubs_status_trans.Bridge.Progress.{progress, is_internal}
use hub_of_hubs_status_trans.Bridge.Workers.{workers, Step-workers, offer_never_waits}
use hub_of_hubs_status_trans.Bridge.Jobs.{job_of}
use hub_of_hubs_status_trans.Base.{
  ℕ, ◌≡◌, refl, String, List, [], none, some, split_dots, lookup, assign, modify, ◌⊎◌, suc, true,
  arith,
}
use hub_of_hubs_status_trans.Bundle.{
  Bundle, compliance_status, clusters_per_policy_list, get_bundle_type, get_generation,
  get_leaf_hub_name, get_dependency_generation, new_managed_clusters_status_bundle,
  new_clusters_per_policy_bundle, new_compliance_status_bundle,
  new_minimal_compliance_status_bundle,
}
use hub_of_hubs_status_trans.Conflator.Registration.{
  ConflationRegistration, new_conflation_registration, with_dependency, new_dependency,
}
use hub_of_hubs_status_trans.Conflator.Unit.{ConflationUnit, TransportMetadata}
use hub_of_hubs_status_trans.Conflator.Unit
use hub_of_hubs_status_trans.Conflator.Unit.New.{IsProper}
use hub_of_hubs_status_trans.Conflator.Manager.{
  ConflationManager, register, get_conflation_unit, new_conflation_manager,
}
use hub_of_hubs_status_trans.Conflator.Manager
use hub_of_hubs_status_trans.DbSyncer.Registration.{
  setup, register_managed_clusters_handlers, register_policies_handlers, setup-IsProper,
}
use hub_of_hubs_status_trans.Bridge.{
  Bridge, Reach, here, next, receive, dequeue, acquire_worker, dispatch_next, offer_worker,
  dispatch, work_done, Step,
}
use hub_of_hubs_status_trans.Bridge.Reachable.{initial, Reach-Inv, NoPanic, no_panic}
use hub_of_hubs_status_trans.Bridge.Stranded.{Stranded, stranded_forever}
use hub_of_hubs_status_trans.Bridge.Lost.{Ended, dispatch-Ended}
use hub_of_hubs_status_trans.WorkerPool.{
  offer, acquire, run_async, new_db_job, finish, start, new_db_worker_pool, worker_ids,
  DbWorkerPool,
}
use hub_of_hubs_status_trans.Bridge.Occurrences.{count}
use hub_of_hubs_status_trans.Bridge.Invariant.{flag_of, BridgeInv}
use hub_of_hubs_status_trans.Conflator.ReadyQueue.{blocking_dequeue, enqueue}

-- Unfolding this name unfolds all the code that a run goes through.
unfoldable pub code : ℕ
unfolding initial setup offer acquire run_async new_db_job finish start new_db_worker_pool
    worker_ids dispatch work_done lookup assign split_dots modify new_conflation_manager register
    register_managed_clusters_handlers register_policies_handlers new_conflation_registration
    with_dependency new_dependency get_bundle_type get_generation get_leaf_hub_name
    get_dependency_generation new_managed_clusters_status_bundle new_clusters_per_policy_bundle
    new_compliance_status_bundle new_minimal_compliance_status_bundle blocking_dequeue enqueue
    Manager.insert get_conflation_unit Unit.insert Unit.get_next Unit.report_result Unit.update
    Unit.priority_of Unit.slot Unit.put Unit.fill Unit.new_element Unit.new_conflation_unit
    Unit.is_current_or_any_dependency_in_process Unit.check_dependency Unit.is_ready
    Unit.next_ready_from Unit.get_next_ready_bundle_priority Unit.is_in_process
    Unit.add_cu_to_ready_queue_if_needed Unit.reusable Unit.store_bundle Unit.holds_newer
    Unit.processed count flag_of
code = 0

-- The program's four registrations.
abbrev pub four : List (ConflationRegistration ℕ)
four = (setup 0 1 2 3 (new_conflation_manager [])).registrations

pub four-IsProper : IsProper four
four-IsProper = setup-IsProper 0 1 2 3

abbrev pub metadata : TransportMetadata
metadata = record { object_id = "hub1.PolicyCompliance" }

-- A compliance bundle that can be processed at once, and a newer one that waits for generation 5 of
-- the clusters per policy.
abbrev pub ready : Bundle
ready =
    compliance_status
      (record { objects = []; leaf_hub_name = "hub1"; base_bundle_generation = 0; generation = 1 })

abbrev pub waiting : Bundle
waiting =
    compliance_status
      (record { objects = []; leaf_hub_name = "hub1"; base_bundle_generation = 5; generation = 2 })

-- One unit is queued for `ready`; `waiting` replaces it before the dispatcher's round.
trace : (s : Bridge ℕ) × Reach (initial four 1) s × Stranded "hub1" s
unfolding code
trace = (
  _,
  next
      (next
        (next
          (next
            (next (next here (offer_worker [] 1 [] _ refl refl)) (receive ready metadata _ refl))
            (dequeue "hub1" _ refl refl))
          (receive waiting metadata _ refl))
        (acquire_worker "hub1" 1 _ refl refl refl))
      (dispatch_next "hub1" 1 _ refl refl refl),
  (refl, refl),
)

-- The state before the last step of `trace`, and the one after it.
before_round :
    (s : Bridge ℕ) × Reach (initial four 1) s × (s.holding ≡ some "hub1") × (s.acquired ≡ some 1)
unfolding code
before_round = (
  _,
  next
      (next
        (next (next (next here (offer_worker [] 1 [] _ refl refl)) (receive ready metadata _ refl))
          (dequeue "hub1" _ refl refl))
        (receive waiting metadata _ refl))
      (acquire_worker "hub1" 1 _ refl refl refl),
  refl,
  refl,
)

after_round : (s : Bridge ℕ) × (dispatch "hub1" 1 before_round.0 ≡ some s)
unfolding code before_round
after_round = (_, refl)

-- Another bundle for the stranded unit.
and_then : (s : Bridge ℕ) × Reach trace.0 s
unfolding code trace
and_then = (
  _,
  next here (
      receive
        (clusters_per_policy_list (record { objects = []; leaf_hub_name = "hub1"; generation = 5 }))
        metadata _ refl),
)

-- A state in which the unit of "hub1" is queued.
queued : (s : Bridge ℕ) × Reach (initial four 1) s
unfolding code
queued = (_, next here (receive ready metadata _ refl))

Reach-Inv_example : BridgeInv trace.0
Reach-Inv_example = Reach-Inv four 1 four-IsProper trace.1

no_panic_example : NoPanic before_round.0
no_panic_example = no_panic before_round.0 (Reach-Inv four 1 four-IsProper before_round.1)

stranded_forever_example :
    Stranded "hub1" and_then.0 × (job_of "hub1" and_then.0.pool.running ≡ none)
stranded_forever_example =
    stranded_forever "hub1" trace.0 and_then.0 (Reach-Inv four 1 four-IsProper trace.1) trace.2
      and_then.1

dispatch-Ended_example : Ended "hub1" 1 before_round.0 after_round.0
dispatch-Ended_example =
    dispatch-Ended four 1 "hub1" 1 before_round.0 after_round.0 four-IsProper before_round.1
      before_round.2 before_round.3 after_round.1

offer_never_waits_example :
    (pool : DbWorkerPool ℕ) × (offer [] 1 [] (initial four 1).pool ≡ some pool)
unfolding code
offer_never_waits_example =
    offer_never_waits four 1 (initial four 1) [] 1 [] four-IsProper here refl

Step-workers_example :
    (workers after_round.0 ≡ workers before_round.0)
    ⊎ (hub : String) × Stranded hub after_round.0
      × (suc (workers after_round.0) ≡ workers before_round.0)
Step-workers_example =
    Step-workers (Reach-Inv four 1 four-IsProper before_round.1)
      (dispatch_next "hub1" 1 after_round.0 before_round.2 before_round.3 after_round.1)

progress_example : (s' : Bridge ℕ) × (st : Step queued.0 s') × (is_internal st ≡ true)
unfolding code queued workers
progress_example = progress four 1 queued.0 "hub1" four-IsProper queued.1 (omega arith) refl
