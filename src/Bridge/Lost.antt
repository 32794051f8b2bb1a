-- ===== src/Bridge/Lost.antt =====
-- Where a worker of pkg/db/worker-pool stands, and the round of the dispatcher that loses one.
use hub_of_hubs_status_trans.Base.{
  ℕ, zero, suc, ◌+◌, ◌≤◌, ◌<◌, ◌≡◌, refl, ap, sym, ◌∙◌, String, List, [], ◌∷◌, ◌++◌, Option, none,
  some, arith, lookup, if◌then◌else◌, ◌==◌,
}
use mathlib.Core.Option.{some-injective}
use hub_of_hubs_status_trans.Conflator.Registration.{ConflationRegistration}
use hub_of_hubs_status_trans.Conflator.Unit.{ConflationUnit, get_next_ready_bundle_priority}
use hub_of_hubs_status_trans.Conflator.Unit.New.{IsProper}
use hub_of_hubs_status_trans.WorkerPool.{
  worker_ids, start, new_db_worker_pool, DbWorkerPool, Running, offer, acquire, finish,
}
use hub_of_hubs_status_trans.Bridge.{
  Bridge, Reach, here, next, Step, receive, dequeue, acquire_worker, dispatch_next, offer_worker,
  finish_job, dispatch,
}
use hub_of_hubs_status_trans.Bridge.Jobs.{hub_of}
use hub_of_hubs_status_trans.Bridge.Invariant.{BridgeInv}
use hub_of_hubs_status_trans.Bridge.Reachable.{initial, Reach-Inv}
use hub_of_hubs_status_trans.Bridge.Safety.{Step-Kept, running-Reporter, work_done-Finished}
use hub_of_hubs_status_trans.Bridge.Stranded.{Stranded, Outcome, started, strands, dispatch-Outcome}

-- How often a worker's id is in a list.
abbrev pub times : ℕ → List ℕ → ℕ
times w [] = 0
times w (v ∷ vs) = (if v == w then 1 else 0) + times w vs

abbrev pub times_acquired : ℕ → Option ℕ → ℕ
times_acquired w none = 0
times_acquired w (some v) = if v == w then 1 else 0

times-append : (w : ℕ) (xs ys : List ℕ) → times w (xs ++ ys) ≡ times w xs + times w ys
times-append w [] ys = omega arith
times-append w (x ∷ xs) ys = omega (arith, times-append w xs ys)

-- `Start` gives out each id once.
times-worker_ids :
    (w id n : ℕ) → (times w (worker_ids id n) ≤ 1) × (w < id → times w (worker_ids id n) ≡ 0)
unfolding worker_ids
times-worker_ids w id zero = (omega arith, λ h. refl)
times-worker_ids w id (suc n) =
    let (once, later) = times-worker_ids w (id + 1) n in (ground arith, λ h. ground arith)

module _ {H : Type 0} where
  abbrev pub times_running : ℕ → List (Running H) → ℕ
  times_running w [] = 0
  times_running w (r ∷ rs) = (if r.worker_id == w then 1 else 0) + times_running w rs

  times_running-append :
      (w : ℕ) (xs ys : List (Running H))
      → times_running w (xs ++ ys) ≡ times_running w xs + times_running w ys
  times_running-append w [] ys = omega arith
  times_running-append w (x ∷ xs) ys = omega (arith, times_running-append w xs ys)

  -- In how many places a worker stands: at the head of its loop, in the pool's channel, with the
  -- dispatcher, or at a job.
  unfoldable pub places : ℕ → Bridge H → ℕ
  places w s =
      times w s.pool.offering
      + times w s.pool.db_workers
      + times_acquired w s.acquired
      + times_running w s.pool.running

  acquire-places :
      (v : ℕ) (pool : DbWorkerPool H) (w : ℕ) (pool' : DbWorkerPool H)
      → acquire pool ≡ some (w, pool')
      → (times v pool.db_workers ≡ (if w == v then 1 else 0) + times v pool'.db_workers)
        × (pool'.offering ≡ pool.offering)
        × (pool'.running ≡ pool.running)
  unfolding acquire
  acquire-places v pool w pool' e = ground arith

  offer-places :
      (v : ℕ) (before : List ℕ) (w : ℕ) (after : List ℕ) (pool pool' : DbWorkerPool H)
      → pool.offering ≡ before ++ w ∷ after
      → offer before w after pool ≡ some pool'
      → (times v pool'.offering + times v pool'.db_workers
          ≡ times v pool.offering + times v pool.db_workers)
        × (pool'.running ≡ pool.running)
  unfolding offer
  offer-places v before w after pool pool' split e = ground (
    arith,
    ap (times v) split,
    times-append v before (w ∷ after),
    times-append v before after,
    times-append v pool.db_workers (w ∷ []),
  )

  dispatch-places :
      (v : ℕ) (hub : String) (w : ℕ) (s s' : Bridge H)
      → s.acquired ≡ some w
      → s'.acquired ≡ none
      → Outcome hub w s s'
      → places v s' ≤ places v s
  unfolding places
  dispatch-places v hub w s s' a a' (started r pool id reports) = ground (arith, pool)
  dispatch-places v hub w s s' a a' (strands cu at nothing pool st) = ground (arith, pool)

  finish-places :
      (v : ℕ) (before : List (Running H)) (r : Running H) (after : List (Running H))
      (s s' : Bridge H)
      → s.pool.running ≡ before ++ r ∷ after
      → s'.pool ≡ finish before r after s.pool
      → s'.acquired ≡ s.acquired
      → places v s' ≡ places v s
  unfolding places finish
  finish-places v before r after s s' split pool a = ground (
    arith,
    pool,
    ap (times_running v) split,
    times_running-append v before (r ∷ after),
    times_running-append v before after,
  )

  -- No step puts a worker into one more place.
  Step-places : (v : ℕ) {s s' : Bridge H} → BridgeInv s → Step s s' → places v s' ≤ places v s
  unfolding places
  Step-places v {s} inv (receive b metadata cm e) = omega arith
  Step-places v {s} inv (dequeue hub rq h e) = omega arith
  Step-places v {s} inv (acquire_worker hub w pool h a e) =
      ground (arith, acquire-places v s.pool w pool e, a)
  Step-places v {s} {s'} inv (dispatch_next hub w _ h a e) =
      let (outcome, _, a') = dispatch-Outcome hub w s s' inv h e in
      dispatch-places v hub w s s' a a' outcome
  Step-places v {s} inv (offer_worker before w after pool split e) =
      ground (arith, offer-places v before w after s.pool pool split e)
  Step-places v {s} {s'} inv (finish_job before r after failure _ split e) =
      let (f, done) =
        work_done-Finished before r after failure s (running-Reporter before r after s inv split) in
      let same = some-injective _ s' (sym done ∙ e) in
      let kept =
        finish-places v before r after s s' split (sym (ap (λ x. x.pool) same))
          (sym (ap (λ x. x.acquired) same)) in
      omega (arith, kept)

  Reach-places :
      (v : ℕ) {s t : Bridge H} → BridgeInv s → Reach s t → BridgeInv t × (places v t ≤ places v s)
  Reach-places v inv here = (inv, omega arith)
  Reach-places v inv (next r st) =
      let (inv', fewer) = Reach-places v inv r in
      ((Step-Kept st inv').0, omega (arith, fewer, Step-places v inv' st))

  initial-places : (rs : List (ConflationRegistration H)) (n v : ℕ) → places v (initial rs n) ≤ 1
  unfolding places initial start new_db_worker_pool
  initial-places rs n v = omega (arith, (times-worker_ids v 1 n).0)

  -- How a round of the dispatcher with the worker `w` ends: with a job of the unit for the worker; or
  -- with a unit none of whose bundles is ready, which is stranded, and the worker in no place, then
  -- and in every later state.
  pub data Ended (hub : String) (w : ℕ) (s s' : Bridge H) : Type 0 where
    hands :
        (r : Running H)
        → s'.pool ≡ record (s.pool) { running = r ∷ s.pool.running }
        → r.worker_id ≡ w
        → hub_of r ≡ hub
        → s'.acquired ≡ none
        → Ended hub w s s'
    loses :
        (cu : ConflationUnit H)
        → lookup hub s.manager.conflation_units ≡ some cu
        → get_next_ready_bundle_priority cu ≡ some none
        → Stranded hub s'
        → ((t : Bridge H) → Reach s' t → places w t ≡ 0)
        → Ended hub w s s'

  only_acquired :
      (hub : String) (w : ℕ) (s s' : Bridge H)
      → places w s ≤ 1
      → s.acquired ≡ some w
      → s'.acquired ≡ none
      → s'.pool ≡ s.pool
      → places w s' ≡ 0
  unfolding places
  only_acquired hub w s s' once a a' pool = ground (arith, pool)

  -- In a state that the bridge reaches from proper registrations, a round of the dispatcher hands a
  -- job of the unit in its hand to the worker that it has acquired; or, if none of the unit's
  -- bundles is ready any more, it strands the unit and loses the worker: from then on that worker
  -- is neither at the head of its loop, nor in the pool's channel, nor with the dispatcher, nor at
  -- a job.
  pub dispatch-Ended :
      (rs : List (ConflationRegistration H)) (n : ℕ) (hub : String) (w : ℕ) (s s' : Bridge H)
      → IsProper rs
      → Reach (initial rs n) s
      → s.holding ≡ some hub
      → s.acquired ≡ some w
      → dispatch hub w s ≡ some s'
      → Ended hub w s s'
  dispatch-Ended rs n hub w s s' proper reach h a e =
      let inv = Reach-Inv rs n proper reach in
      let inv' = (Step-Kept (dispatch_next hub w s' h a e) inv).0 in
      let start_inv = Reach-Inv rs n proper here in
      let once : places w s ≤ 1 =
        omega (arith, (Reach-places w start_inv reach).1, initial-places rs n w) in
      let (outcome, no_unit, no_worker) = dispatch-Outcome hub w s s' inv h e in
      elim outcome [
        | started r pool id reports ↦ hands r pool id reports no_worker
        | strands cu at nothing pool st ↦
            let gone = only_acquired hub w s s' once a no_worker pool in
            loses cu at nothing st (λ t later. omega (arith, gone, (Reach-places w inv' later).1))
      ]
