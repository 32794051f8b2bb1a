-- ===== src/Bridge/Reachable.antt =====
-- The states that the bridge reaches from its start.
use hub_of_hubs_status_trans.Base.{
  ℕ, ◌≡◌, refl, String, List, [], ◌∷◌, ◌++◌, Option, none, some, arith, lookup,
}
use hub_of_hubs_status_trans.Bundle.{Bundle}
use hub_of_hubs_status_trans.Conflator.Registration.{ConflationRegistration}
use hub_of_hubs_status_trans.Conflator.Unit.{TransportMetadata}
use hub_of_hubs_status_trans.Conflator.Unit.New.{IsProper}
use hub_of_hubs_status_trans.Conflator.Manager.{ConflationManager}
use hub_of_hubs_status_trans.Conflator.Manager
use hub_of_hubs_status_trans.Conflator.Manager.Routing.{insert-Routed}
use hub_of_hubs_status_trans.WorkerPool.{Running, new_db_worker_pool, start}
use hub_of_hubs_status_trans.Bridge.{Bridge, Reach, here, next, dispatch, work_done}
use hub_of_hubs_status_trans.Bridge.Occurrences.{count}
use hub_of_hubs_status_trans.Bridge.Jobs.{job_of}
use hub_of_hubs_status_trans.Bridge.Invariant.{BridgeInv}
use hub_of_hubs_status_trans.Bridge.Dispatch.{
  Flagged, held-Flagged, Round, goes_on, drops, dispatch-Round,
}
use hub_of_hubs_status_trans.Bridge.Safety.{running-Reporter, work_done-Finished, Step-Kept}

module _ {H : Type 0} where
  -- The bridge at its start: no unit, nothing queued, and the pool's workers about to offer
  -- themselves.
  unfoldable pub initial : List (ConflationRegistration H) → ℕ → Bridge H
  initial rs pool_size = record {
    manager = record { conflation_units = []; registrations = rs; ready_queue = [] };
    pool = start pool_size (new_db_worker_pool pool_size);
    holding = none;
    acquired = none;
  }

  pub initial-Inv :
      (rs : List (ConflationRegistration H)) (pool_size : ℕ)
      → IsProper rs
      → BridgeInv (initial rs pool_size)
  unfolding initial lookup job_of start new_db_worker_pool count
  initial-Inv rs pool_size proper = record {
    manager_sound = record { proper = proper; units = λ hub cu h. cc; absent = λ hub h. refl };
    orderly = tt;
    once = λ hub. omega arith;
  }

  -- Given proper registrations, every state that the bridge reaches from its start satisfies the
  -- invariant, whatever steps of transport, dispatcher and workers interleave: each unit is sound,
  -- no leaf hub has two jobs out, and a unit is queued at most once and only if it is flagged.
  pub Reach-Inv :
      (rs : List (ConflationRegistration H)) (pool_size : ℕ) {s : Bridge H}
      → IsProper rs
      → Reach (initial rs pool_size) s
      → BridgeInv s
  Reach-Inv rs pool_size proper here = initial-Inv rs pool_size proper
  Reach-Inv rs pool_size proper (next r st) = (Step-Kept st (Reach-Inv rs pool_size proper r)).0

  -- An insertion returns, and so does a dispatch of the unit in the dispatcher's hand and the report
  -- of any running job.
  pub record NoPanic (s : Bridge H) : Type 0 where
    pub inserts :
        (b : Bundle) (metadata : TransportMetadata)
        → (cm : ConflationManager H) × (Manager.insert s.manager b metadata ≡ some cm)
    pub dispatches :
        (hub : String) (w : ℕ)
        → s.holding ≡ some hub
        → (s' : Bridge H) × (dispatch hub w s ≡ some s')
    pub reports :
        (before : List (Running H)) (r : Running H) (after : List (Running H))
        (failure : Option String)
        → s.pool.running ≡ before ++ r ∷ after
        → (s' : Bridge H) × (work_done before r after failure s ≡ some s')

  -- In a state that satisfies the invariant, no insertion, no dispatch of the unit in the
  -- dispatcher's hand and no report of a running job panics.
  pub no_panic : (s : Bridge H) → BridgeInv s → NoPanic s
  no_panic s v = record {
    inserts = λ b metadata.
        let (cm, e, _, _) = insert-Routed s.manager b metadata _ v.manager_sound in (cm, e);
    dispatches = λ hub w h.
        let f = held-Flagged hub s v h in
        completes hub w f (dispatch hub w s) refl (dispatch-Round hub w s f);
    reports = λ before r after failure split.
        let p = running-Reporter before r after s v split in
        let (f, e) = work_done-Finished before r after failure s p in (_, e);
  }
    where
      completes :
          (hub : String) (w : ℕ) (f : Flagged hub s) (r : Option (Bridge H))
          → dispatch hub w s ≡ r
          → Round hub w s f r
          → (s' : Bridge H) × (dispatch hub w s ≡ some s')
      completes hub w f r e (goes_on cu work m sv inv) = (_, e)
      completes hub w f r e (drops nothing) = (_, e)
