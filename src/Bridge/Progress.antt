-- ===== src/Bridge/Progress.antt =====
-- Which steps the dispatcher and the workers of the bridge can take.
use hub_of_hubs_status_trans.Base.{
  ℕ, ◌≤◌, ◌≡◌, refl, ap, Bool, true, false, String, List, [], ◌∷◌, Option, none, some, arith,
  Option-cases, inl, inr, length,
}
use hub_of_hubs_status_trans.Conflator.Registration.{ConflationRegistration}
use hub_of_hubs_status_trans.Conflator.ReadyQueue.{blocking_dequeue}
use hub_of_hubs_status_trans.Conflator.Unit.New.{IsProper}
use hub_of_hubs_status_trans.WorkerPool.{Running, acquire}
use hub_of_hubs_status_trans.Bridge.{
  Bridge, Reach, Step, receive, dequeue, acquire_worker, dispatch_next, offer_worker, finish_job,
}
use hub_of_hubs_status_trans.Bridge.Reachable.{initial, Reach-Inv, no_panic}
use hub_of_hubs_status_trans.Bridge.Workers.{workers, has, offer_never_waits}

-- The unit that the dispatcher has in its hand, or else takes next from the queue.
abbrev pub waiting : {H : Type 0} → Bridge H → Option String
waiting s = elim (s.holding) [
  | some hub ↦ some hub
  | none ↦ elim (s.manager.ready_queue) [ [] ↦ none | hub ∷ rest ↦ some hub ]
]

-- A step of the dispatcher or of a worker.
abbrev pub is_internal : {H : Type 0} {s s' : Bridge H} → Step s s' → Bool
is_internal (receive b metadata cm e) = false
is_internal (dequeue hub rq h e) = true
is_internal (acquire_worker hub w pool h a e) = true
is_internal (dispatch_next hub w s' h a e) = true
is_internal (offer_worker before w after pool split e) = true
is_internal (finish_job before r after failure s' split e) = true

module _ {H : Type 0} where
  abbrev pub Goes : Bridge H → Type 0
  Goes s = (s' : Bridge H) × (st : Step s s') × (is_internal st ≡ true)

  dequeues :
      (s : Bridge H) (hub : String) (rest : List String)
      → s.holding ≡ none
      → s.manager.ready_queue ≡ hub ∷ rest
      → Goes s
  unfolding blocking_dequeue
  dequeues s hub rest free queued = (_, dequeue hub rest free (rw queued refl), refl)

  acquires :
      (s : Bridge H) (hub : String) (w : ℕ) (rest : List ℕ)
      → s.holding ≡ some hub
      → s.acquired ≡ none
      → s.pool.db_workers ≡ w ∷ rest
      → Goes s
  unfolding acquire
  acquires s hub w rest held alone available = (
    _,
    acquire_worker hub w (record (s.pool) { db_workers = rest }) held alone (rw available refl),
    refl,
  )

  -- As long as the bridge has a worker, whoever waits for one gets on.
  works :
      (rs : List (ConflationRegistration H)) (n : ℕ) (s : Bridge H) (hub : String)
      → IsProper rs
      → Reach (initial rs n) s
      → 1 ≤ workers s
      → s.holding ≡ some hub
      → s.acquired ≡ none
      → (offering available : List ℕ) (running : List (Running H)) → s.pool.offering ≡ offering
      → s.pool.db_workers ≡ available
      → s.pool.running ≡ running
      → Goes s
  unfolding workers
  works rs n s hub proper r some_worker held alone offering (w ∷ rest) running o a b =
      acquires s hub w rest held alone a
  works rs n s hub proper r some_worker held alone (w ∷ rest) [] running o a b =
      let (pool, e) = offer_never_waits rs n s [] w rest proper r o in
      (_, offer_worker [] w rest pool o e, refl)
  works rs n s hub proper r some_worker held alone [] [] (job ∷ rest) o a b =
      let (s', e) = (no_panic s (Reach-Inv rs n proper r)).reports [] job rest none b in
      (s', finish_job [] job rest none s' b e, refl)
  works rs n s hub proper r some_worker held alone [] [] [] o a b =
      absurd (omega (arith, ap length o, ap length a, ap length b, ap has alone))

  queue_cases :
      (s : Bridge H) (hub : String)
      → s.holding ≡ none
      → waiting s ≡ some hub
      → (queue : List String) → s.manager.ready_queue ≡ queue
      → Goes s
  queue_cases s hub free work [] e = absurd (ground (arith, free, e, work))
  queue_cases s hub free work (next ∷ rest) e = dequeues s next rest free e

  -- In a state that the bridge reaches from proper registrations, as long as a unit is queued or in
  -- the dispatcher's hand and not all workers are lost, the dispatcher or a worker can take a step:
  -- the bridge never stands still with work to do, whether or not more bundles arrive.
  pub progress :
      (rs : List (ConflationRegistration H)) (n : ℕ) (s : Bridge H) (hub : String)
      → IsProper rs
      → Reach (initial rs n) s
      → 1 ≤ workers s
      → waiting s ≡ some hub
      → (s' : Bridge H) × (st : Step s s') × (is_internal st ≡ true)
  progress rs n s hub proper r some_worker work = elim (Option-cases s.holding) [
    | inl free ↦ queue_cases s hub free work s.manager.ready_queue refl
    | inr (held_hub, held) ↦ elim (Option-cases s.acquired) [
      | inl alone ↦
          works rs n s held_hub proper r some_worker held alone s.pool.offering s.pool.db_workers
            s.pool.running refl refl refl
      | inr (w, taken) ↦
          let (s', e) = (no_panic s (Reach-Inv rs n proper r)).dispatches held_hub w held in
          (s', dispatch_next held_hub w s' held taken e, refl)
    ]
  ]
