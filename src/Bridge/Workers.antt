-- ===== src/Bridge/Workers.antt =====
-- The workers of pkg/db/worker-pool, counted over the steps of the bridge.
use hub_of_hubs_status_trans.Base.{
  ℕ, zero, suc, ◌+◌, ◌≤◌, ◌<◌, ◌≡◌, refl, ap, sym, ◌∙◌, String, List, [], ◌∷◌, ◌++◌, Option, none,
  some, arith, inl, inr, ◌⊎◌, length, length-append, lt→ltb,
}
use mathlib.Core.Option.{some-injective}
use hub_of_hubs_status_trans.Conflator.Registration.{ConflationRegistration}
use hub_of_hubs_status_trans.Conflator.Unit.New.{IsProper}
use hub_of_hubs_status_trans.Bridge.Reachable.{initial, Reach-Inv}
use hub_of_hubs_status_trans.WorkerPool.{
  worker_ids, start, new_db_worker_pool, DbWorkerPool, Running, offer, acquire, finish,
}
use hub_of_hubs_status_trans.Bridge.{
  Bridge, Reach, here, next, Step, receive, dequeue, acquire_worker, dispatch_next, offer_worker,
  finish_job,
}
use hub_of_hubs_status_trans.Bridge.Invariant.{BridgeInv}
use hub_of_hubs_status_trans.Bridge.Safety.{running-Reporter, work_done-Finished}
use hub_of_hubs_status_trans.Bridge.Stranded.{Stranded, Outcome, started, strands, dispatch-Outcome}

-- Whether the dispatcher has acquired a worker, as a number.
abbrev pub has : Option ℕ → ℕ
has none = 0
has (some w) = 1

worker_ids-length : (id n : ℕ) → length (worker_ids id n) ≡ n
unfolding worker_ids
worker_ids-length id zero = refl
worker_ids-length id (suc n) = omega (arith, worker_ids-length (id + 1) n)

module _ {H : Type 0} where
  -- The workers that are at the head of their loop, in the pool's channel, with the dispatcher, or
  -- at a job.
  unfoldable pub workers : Bridge H → ℕ
  workers s =
      length s.pool.offering + length s.pool.db_workers + has s.acquired + length s.pool.running

  acquire-workers :
      (pool : DbWorkerPool H) (w : ℕ) (pool' : DbWorkerPool H)
      → acquire pool ≡ some (w, pool')
      → (length pool.db_workers ≡ suc (length pool'.db_workers))
        × (pool'.offering ≡ pool.offering)
        × (pool'.running ≡ pool.running)
  unfolding acquire
  acquire-workers pool w pool' e = ground arith

  offer-workers :
      (before : List ℕ) (w : ℕ) (after : List ℕ) (pool pool' : DbWorkerPool H)
      → pool.offering ≡ before ++ w ∷ after
      → offer before w after pool ≡ some pool'
      → (length pool'.db_workers ≡ suc (length pool.db_workers))
        × (suc (length pool'.offering) ≡ length pool.offering)
        × (pool'.running ≡ pool.running)
  unfolding offer
  offer-workers before w after pool pool' split e = ground (
    arith,
    ap length split,
    length-append before (w ∷ after),
    length-append before after,
    length-append pool.db_workers (w ∷ []),
  )

  dispatch-workers :
      (hub : String) (w : ℕ) (s s' : Bridge H)
      → s.acquired ≡ some w
      → s'.acquired ≡ none
      → Outcome hub w s s'
      → (workers s' ≡ workers s) ⊎ Stranded hub s' × (suc (workers s') ≡ workers s)
  unfolding workers
  dispatch-workers hub w s s' a a' (started r pool id reports) = inl (ground (arith, pool))
  dispatch-workers hub w s s' a a' (strands cu at nothing pool st) = inr (st, ground (arith, pool))

  finish-workers :
      (before : List (Running H)) (r : Running H) (after : List (Running H)) (s s' : Bridge H)
      → s.pool.running ≡ before ++ r ∷ after
      → s'.pool ≡ finish before r after s.pool
      → s'.acquired ≡ s.acquired
      → workers s' ≡ workers s
  unfolding workers finish
  finish-workers before r after s s' split pool a =
      ground
        (arith, pool, ap length split, length-append before (r ∷ after), length-append before after)

  Outcome-capacity :
      (hub : String) (w : ℕ) (s s' : Bridge H)
      → Outcome hub w s s'
      → s'.pool.capacity ≡ s.pool.capacity
  Outcome-capacity hub w s s' (started r pool id reports) = ap (λ x. x.capacity) pool
  Outcome-capacity hub w s s' (strands cu at nothing pool st) = ap (λ x. x.capacity) pool

  -- From a state that satisfies the invariant every step keeps the number of workers, or strands a
  -- unit and loses one worker.
  pub Step-workers :
      {s s' : Bridge H}
      → BridgeInv s
      → Step s s'
      → (workers s' ≡ workers s) ⊎ (hub : String) × Stranded hub s' × (suc (workers s') ≡ workers s)
  unfolding workers
  Step-workers {s} v (receive b metadata cm e) = inl refl
  Step-workers {s} v (dequeue hub rq h e) = inl refl
  Step-workers {s} v (acquire_worker hub w pool h a e) =
      inl (ground (arith, acquire-workers s.pool w pool e, a))
  Step-workers {s} {s'} v (dispatch_next hub w _ h a e) =
      let (outcome, _, a') = dispatch-Outcome hub w s s' v h e in
      elim (dispatch-workers hub w s s' a a' outcome) [
        | inl same ↦ inl same
        | inr (st, fewer) ↦ inr (hub, st, fewer)
      ]
  Step-workers {s} v (offer_worker before w after pool split e) =
      inl (ground (arith, offer-workers before w after s.pool pool split e))
  Step-workers {s} {s'} v (finish_job before r after failure _ split e) =
      let (f, done) =
        work_done-Finished before r after failure s (running-Reporter before r after s v split) in
      let same = some-injective _ s' (sym done ∙ e) in
      inl (
        finish-workers before r after s s' split (sym (ap (λ x. x.pool) same))
          (sym (ap (λ x. x.acquired) same)))

  -- A worker at the head of its loop does not wait for the channel, while there are no more workers
  -- than the channel has room for.
  offer-succeeds :
      (s : Bridge H) (before : List ℕ) (w : ℕ) (after : List ℕ)
      → workers s ≤ s.pool.capacity
      → s.pool.offering ≡ before ++ w ∷ after
      → (pool : DbWorkerPool H) × (offer before w after s.pool ≡ some pool)
  unfolding workers offer
  offer-succeeds s before w after room split =
      let room' : length s.pool.db_workers < s.pool.capacity =
        omega (arith, ap length split, length-append before (w ∷ after)) in
      (
        record (s.pool) { offering = before ++ after; db_workers = s.pool.db_workers ++ w ∷ [] },
        rw (lt→ltb _ _ room'),
      )

  workers-initial :
      (rs : List (ConflationRegistration H)) (n : ℕ)
      → (workers (initial rs n) ≡ n) × ((initial rs n).pool.capacity ≡ n)
  unfolding workers initial start new_db_worker_pool
  workers-initial rs n = (omega (arith, worker_ids-length 1 n), refl)

  acquire-capacity :
      (pool : DbWorkerPool H) (w : ℕ) (pool' : DbWorkerPool H)
      → acquire pool ≡ some (w, pool')
      → pool'.capacity ≡ pool.capacity
  unfolding acquire
  acquire-capacity pool w pool' e = ground arith

  offer-capacity :
      (before : List ℕ) (w : ℕ) (after : List ℕ) (pool pool' : DbWorkerPool H)
      → offer before w after pool ≡ some pool'
      → pool'.capacity ≡ pool.capacity
  unfolding offer
  offer-capacity before w after pool pool' e = ground arith

  Step-capacity : {s s' : Bridge H} → BridgeInv s → Step s s' → s'.pool.capacity ≡ s.pool.capacity
  unfolding finish
  Step-capacity v (receive b metadata cm e) = refl
  Step-capacity v (dequeue hub rq h e) = refl
  Step-capacity {s} v (acquire_worker hub w pool h a e) = acquire-capacity s.pool w pool e
  Step-capacity {s} {s'} v (dispatch_next hub w _ h a e) =
      let (outcome, _, _) = dispatch-Outcome hub w s s' v h e in Outcome-capacity hub w s s' outcome
  Step-capacity {s} v (offer_worker before w after pool split e) =
      offer-capacity before w after s.pool pool e
  Step-capacity {s} {s'} v (finish_job before r after failure _ split e) =
      let (f, done) =
        work_done-Finished before r after failure s (running-Reporter before r after s v split) in
      sym (ap (λ x. x.pool.capacity) (some-injective _ s' (sym done ∙ e)))

  Reach-workers :
      (rs : List (ConflationRegistration H)) (n : ℕ) {s : Bridge H}
      → IsProper rs
      → Reach (initial rs n) s
      → (workers s ≤ n) × (s.pool.capacity ≡ n)
  Reach-workers rs n proper here = omega (arith, workers-initial rs n)
  Reach-workers rs n proper (next r st) =
      let v = Reach-Inv rs n proper r in
      grind (arith, Reach-workers rs n proper r, Step-capacity v st, Step-workers v st)

  -- In a state that the bridge reaches from proper registrations, a worker that has finished a job, or starts, never waits to
  -- enter the pool: the channel, of the pool's size, has room for it.
  pub offer_never_waits :
      (rs : List (ConflationRegistration H)) (n : ℕ) (s : Bridge H) (before : List ℕ) (w : ℕ)
      (after : List ℕ)
      → IsProper rs
      → Reach (initial rs n) s
      → s.pool.offering ≡ before ++ w ∷ after
      → (pool : DbWorkerPool H) × (offer before w after s.pool ≡ some pool)
  offer_never_waits rs n s before w after proper r =
      offer-succeeds s before w after (omega (arith, Reach-workers rs n proper r))
