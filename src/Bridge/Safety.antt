-- ===== src/Bridge/Safety.antt =====
-- Steps of the bridge (pkg/controller/dispatcher, pkg/db/worker-pool) against its invariant: the
-- lemmas for each step.
use hub_of_hubs_status_trans.Base.{
  ℕ, ◌≡◌, refl, ap, sym, subst, ◌∙◌, false, String, List, [], ◌∷◌, ◌++◌, Option, none, some, arith,
  Bool-cases, Option-cases, inl, inr, str_eq, eq_iff, lookup,
}
use mathlib.Core.Option.{some-injective}
use hub_of_hubs_status_trans.Conflator.ReadyQueue.{blocking_dequeue}
use hub_of_hubs_status_trans.Conflator.Unit.{ConflationUnit}
use hub_of_hubs_status_trans.Conflator.Unit.Invariant.{Inv, QueueStep}
use hub_of_hubs_status_trans.Conflator.Unit.Report.{report_result-Reported}
use hub_of_hubs_status_trans.Conflator.Manager.Routing.{ManagerInv, insert-Routed}
use hub_of_hubs_status_trans.WorkerPool.{DbWorkerPool, Running, offer, acquire, finish}
use hub_of_hubs_status_trans.Bridge.{
  Bridge, Step, receive, dequeue, acquire_worker, dispatch_next, offer_worker, finish_job,
  with_unit, work_done,
}
use hub_of_hubs_status_trans.Bridge.Occurrences.{count, QueueStep-balance, QueueStep-other}
use hub_of_hubs_status_trans.Bridge.Jobs.{hub_of, job_of, IsOrderly, Out, IsOrderly-Out}
use hub_of_hubs_status_trans.Bridge.Invariant.{
  BridgeInv, flag_of-some, flag_of-assign_self, flag_of-assign_ne, Balanced, receive-Balanced,
}
use hub_of_hubs_status_trans.Bridge.Dispatch.{
  Flagged, held-Flagged, Round, goes_on, drops, dispatch-Round, dropped,
}
use hub_of_hubs_status_trans.Bridge.Preservation.{
  with_unit-ManagerInv, once-Balanced, served-Inv, served-Balanced, dropped-Inv,
}

module _ {H : Type 0} where
  -- The unit that a running job will report to.
  pub record Reporter (before : List (Running H)) (r : Running H) (after : List (Running H))
      (s : Bridge H) : Type 0 where
    pub out : Out before r after
    pub cu : ConflationUnit H
    pub at : lookup (hub_of r) s.manager.conflation_units ≡ some cu
    pub inv : Inv cu (some out.metadata)

  pub running-Reporter :
      (before : List (Running H)) (r : Running H) (after : List (Running H)) (s : Bridge H)
      → BridgeInv s
      → s.pool.running ≡ before ++ r ∷ after
      → Reporter before r after s
  running-Reporter before r after s v split =
      let out = IsOrderly-Out before r after (subst IsOrderly split v.orderly) in
      let job : job_of (hub_of r) s.pool.running ≡ some out.metadata =
        ap (job_of (hub_of r)) split ∙ out.is_job in
      elim (Option-cases (lookup (hub_of r) s.manager.conflation_units)) [
        | inl missing ↦ absurd (ground (arith, job, v.manager_sound.absent (hub_of r) missing))
        | inr (cu, at) ↦ record {
          out = out;
          cu = cu;
          at = at;
          inv = subst (Inv cu) job (v.manager_sound.units (hub_of r) cu at);
        }
      ]

  -- The bridge after a report that left the unit `cu` and the ready queue `rq`.
  abbrev pub finished :
      List (Running H)
      → Running H
      → List (Running H)
      → ConflationUnit H
      → List String
      → Bridge H
      → Bridge H
  finished before r after cu rq s = record s {
    manager = with_unit s.manager (hub_of r) cu rq;
    pool = finish before r after s.pool;
  }

  -- What the report of a finished job leaves.
  pub record Finished (before : List (Running H)) (r : Running H) (after : List (Running H))
      (s : Bridge H) : Type 0 where
    pub cu : ConflationUnit H
    pub rq : List String
    pub kept : Inv cu none
    pub queue_step : QueueStep (hub_of r) false s.manager.ready_queue cu.is_in_ready_queue rq

  -- A report always completes.
  pub work_done-Finished :
      (before : List (Running H)) (r : Running H) (after : List (Running H))
      (failure : Option String) (s : Bridge H) (p : Reporter before r after s)
      → (f : Finished before r after s) × (work_done before r after failure s
          ≡ some (finished before r after f.cu f.rq s))
  unfolding work_done
  work_done-Finished before r after failure s p =
      let (cu, rq, eq, inv, _, step) =
        report_result-Reported (hub_of r) p.out.metadata failure p.cu s.manager.ready_queue p.inv in
      (
        record { cu = cu; rq = rq; kept = inv; queue_step = step },
        rw (p.at, p.out.has_metadata, eq),
      )

  pub finished-Balanced :
      (before : List (Running H)) (r : Running H) (after : List (Running H)) (s : Bridge H)
      (p : Reporter before r after s) (f : Finished before r after s)
      → (other : String) → Balanced other s (finished before r after f.cu f.rq s)
  finished-Balanced before r after s p f other = elim (Bool-cases (str_eq (hub_of r) other)) [
    | inl same ↦
        subst (λ k. Balanced k s (finished before r after f.cu f.rq s))
          ((eq_iff (hub_of r) other).0 same)
          (ground (
            arith,
            QueueStep-balance _ _ _ f.queue_step,
            flag_of-some (hub_of r) s.manager.conflation_units p.at,
            p.inv.job_sound.1,
            flag_of-assign_self (hub_of r) f.cu s.manager.conflation_units,
          ))
    | inr ne ↦ omega (
      arith,
      QueueStep-other _ other _ _ ne f.queue_step,
      flag_of-assign_ne (hub_of r) other f.cu s.manager.conflation_units ne,
    )
  ]

  finished-Inv :
      (before : List (Running H)) (r : Running H) (after : List (Running H)) (s : Bridge H)
      (p : Reporter before r after s) (f : Finished before r after s)
      → s.pool.running ≡ before ++ r ∷ after
      → BridgeInv s
      → BridgeInv (finished before r after f.cu f.rq s)
  unfolding finish
  finished-Inv before r after s p f split v = record {
    manager_sound =
        with_unit-ManagerInv s.manager (λ k. job_of k s.pool.running)
          (λ k. job_of k (before ++ after)) (hub_of r) f.cu f.rq v.manager_sound
          (subst (Inv f.cu) (sym p.out.gone) f.kept)
          (λ k ne. p.out.others k ne ∙ ap (job_of k) (sym split));
    orderly = p.out.orderly;
    once =
        once-Balanced s (finished before r after f.cu f.rq s) v.once
          (finished-Balanced before r after s p f);
  }

  -- How a step may change the balance of flags and occurrences: not at all, or by dropping the unit
  -- in the dispatcher's hand.
  pub data Effect (s s' : Bridge H) : Type 0 where
    balanced : ((hub : String) → Balanced hub s s') → Effect s s'
    dropping :
        (hub : String)
        → s.holding ≡ some hub
        → (f : Flagged hub s) → s' ≡ dropped hub f.cu s
        → Effect s s'

  dequeue-Balanced :
      (s : Bridge H) (hub : String) (rq q : List String)
      → q ≡ s.manager.ready_queue
      → s.holding ≡ none
      → blocking_dequeue q ≡ some (hub, rq)
      → (other : String)
      → Balanced other s
          (record s { manager = record (s.manager) { ready_queue = rq }; holding = some hub })
  unfolding blocking_dequeue count
  dequeue-Balanced s hub rq [] e h d other = cc
  dequeue-Balanced s hub rq (x ∷ q) e h d other =
      let c : count other s.manager.ready_queue ≡ count other (x ∷ q) = ap (count other) (sym e) in
      ground (arith, c)

  abbrev Kept : Bridge H → Bridge H → Type 0
  Kept s s' = BridgeInv s' × Effect s s'

  Round-Kept :
      (s s' : Bridge H) (hub : String) (w : ℕ) (f : Flagged hub s) {r : Option (Bridge H)}
      → BridgeInv s
      → s.holding ≡ some hub
      → r ≡ some s'
      → Round hub w s f r
      → Kept s s'
  Round-Kept s s' hub w f v h e (goes_on cu work m sv inv) =
      subst (Kept s) (some-injective _ s' e) (
        served-Inv hub w s f cu work m v h sv inv,
        balanced (served-Balanced hub w s f cu work h sv.left_queue),
      )
  Round-Kept s s' hub w f v h e (drops nothing) =
      subst (Kept s) (some-injective _ s' e) (dropped-Inv hub s f v h, dropping hub h f refl)

  acquire-running :
      (pool : DbWorkerPool H) (w : ℕ) (pool' : DbWorkerPool H)
      → acquire pool ≡ some (w, pool')
      → pool'.running ≡ pool.running
  unfolding acquire
  acquire-running pool w pool' e = ground arith

  offer-running :
      (before : List ℕ) (w : ℕ) (after : List ℕ) (pool pool' : DbWorkerPool H)
      → offer before w after pool ≡ some pool'
      → pool'.running ≡ pool.running
  unfolding offer
  offer-running before w after pool pool' e = ground arith

  -- A step of the workers that starts or ends no job.
  pool-Kept :
      (s : Bridge H) (pool : DbWorkerPool H) (acquired : Option ℕ)
      → pool.running ≡ s.pool.running
      → BridgeInv s
      → Kept s (record s { pool = pool; acquired = acquired })
  pool-Kept s pool acquired same v = (
    record {
      manager_sound =
          subst (λ jobs. ManagerInv s.manager (λ k. job_of k jobs)) (sym same) v.manager_sound;
      orderly = subst IsOrderly (sym same) v.orderly;
      once = v.once;
    },
    balanced (λ hub. refl),
  )

  -- Every step keeps the invariant, and the balance but where it drops a unit.
  pub Step-Kept : {s s' : Bridge H} → Step s s' → BridgeInv s → BridgeInv s' × Effect s s'
  Step-Kept {s} (receive b metadata cm e) v =
      let (cm1, e1, routed, inv) =
        insert-Routed s.manager b metadata (λ hub. job_of hub s.pool.running) v.manager_sound in
      let one : cm1 ≡ cm = some-injective cm1 cm (sym e1 ∙ e) in
      let bal = receive-Balanced s b cm1 (λ hub. job_of hub s.pool.running) routed in
      subst (λ x. Kept s (record s { manager = x })) one
        (
          record {
            manager_sound = inv;
            orderly = v.orderly;
            once = once-Balanced s (record s { manager = cm1 }) v.once bal;
          },
          balanced bal,
        )
  Step-Kept {s} (dequeue hub rq h e) v =
      let bal = dequeue-Balanced s hub rq s.manager.ready_queue refl h e in
      (
        record {
          manager_sound = record {
            proper = v.manager_sound.proper;
            units = v.manager_sound.units;
            absent = v.manager_sound.absent;
          };
          orderly = v.orderly;
          once =
              once-Balanced s
                (record s { manager = record (s.manager) { ready_queue = rq }; holding = some hub })
                v.once bal;
        },
        balanced bal,
      )
  Step-Kept {s} (acquire_worker hub w pool h a e) v =
      pool-Kept s pool (some w) (acquire-running s.pool w pool e) v
  Step-Kept {s} {s'} (dispatch_next hub w _ h a e) v =
      let f = held-Flagged hub s v h in Round-Kept s s' hub w f v h e (dispatch-Round hub w s f)
  Step-Kept {s} (offer_worker before w after pool split e) v =
      pool-Kept s pool s.acquired (offer-running before w after s.pool pool e) v
  Step-Kept {s} {s'} (finish_job before r after failure _ split e) v =
      let p = running-Reporter before r after s v split in
      let (f, done) = work_done-Finished before r after failure s p in
      subst (Kept s) (some-injective _ s' (sym done ∙ e)) (
        finished-Inv before r after s p f split v,
        balanced (finished-Balanced before r after s p f),
      )
