-- ===== src/Bridge/Stranded.antt =====
-- Units that are flagged but not queued.
use hub_of_hubs_status_trans.Base.{
  ℕ, ◌≤◌, ◌≡◌, refl, ap, sym, subst, String, List, ◌∷◌, Option, none, some, arith, eq_iff, lookup,
}
use mathlib.Core.Option.{some-injective}
use hub_of_hubs_status_trans.Conflator.Unit.{ConflationUnit, get_next_ready_bundle_priority}
use hub_of_hubs_status_trans.WorkerPool.{Running, run_async, new_db_job}
use hub_of_hubs_status_trans.Bridge.{Bridge, Reach, here, next, dispatch}
use hub_of_hubs_status_trans.Bridge.Jobs.{job_of, hub_of}
use hub_of_hubs_status_trans.Bridge.Invariant.{BridgeInv, occurrences, held, flag_of, flag_of-some}
use hub_of_hubs_status_trans.Bridge.Dispatch.{
  Flagged, held-Flagged, flag_of-Flagged, Round, goes_on, drops, dispatch-Round,
}
use hub_of_hubs_status_trans.Bridge.Preservation.{dropped-drops}
use hub_of_hubs_status_trans.Bridge.Safety.{Step-Kept, Effect, balanced, dropping}

module _ {H : Type 0} where
  -- The unit of a leaf hub says that it is queued, and is neither in the queue nor with the
  -- dispatcher.
  abbrev pub Stranded : String → Bridge H → Type 0
  Stranded hub s = (flag_of hub s.manager.conflation_units ≡ 1) × (occurrences hub s ≡ 0)

  flag_of-le_one : (hub : String) (units : List (String × ConflationUnit H)) → flag_of hub units ≤ 1
  unfolding flag_of
  flag_of-le_one hub units = ground arith

  Effect-Stranded :
      (hub : String) (s s' : Bridge H) → Effect s s' → Stranded hub s → Stranded hub s'
  Effect-Stranded hub s s' (balanced bal) st =
      omega (arith, bal hub, flag_of-le_one hub s'.manager.conflation_units)
  Effect-Stranded hub s s' (dropping h held f e) st =
      subst (Stranded hub) (sym e) (omega (arith, dropped-drops h s f held hub))

  Stranded-no_job :
      (hub : String) (s : Bridge H)
      → BridgeInv s
      → Stranded hub s
      → job_of hub s.pool.running ≡ none
  Stranded-no_job hub s v st = (flag_of-Flagged hub s v (omega arith)).no_job

  -- In a state that satisfies the invariant, a stranded unit (flagged as queued, but neither in the
  -- ready queue nor in the dispatcher's hand) is stranded for ever: it is never queued again, and none
  -- of its bundles is given to a worker.
  pub stranded_forever :
      (hub : String) (s t : Bridge H)
      → BridgeInv s
      → Stranded hub s
      → Reach s t
      → Stranded hub t × (job_of hub t.pool.running ≡ none)
  stranded_forever hub s t v st r = let (v', st') = along r in (st', Stranded-no_job hub t v' st')
    where
      along : {u : Bridge H} → Reach s u → BridgeInv u × Stranded hub u
      along here = (v, st)
      along (next r step) =
          let (v', st') = along r in
          let (kept, effect) = Step-Kept step v' in (kept, Effect-Stranded hub _ _ effect st')

  -- How a round of the dispatcher ends.
  pub data Outcome (hub : String) (w : ℕ) (s s' : Bridge H) : Type 0 where
    started :
        (r : Running H)
        → s'.pool ≡ record (s.pool) { running = r ∷ s.pool.running }
        → r.worker_id ≡ w
        → hub_of r ≡ hub
        → Outcome hub w s s'
    strands :
        (cu : ConflationUnit H)
        → lookup hub s.manager.conflation_units ≡ some cu
        → get_next_ready_bundle_priority cu ≡ some none
        → s'.pool ≡ s.pool
        → Stranded hub s'
        → Outcome hub w s s'

  Round-Outcome :
      (hub : String) (w : ℕ) (s s' : Bridge H) (f : Flagged hub s) {r : Option (Bridge H)}
      → BridgeInv s
      → s.holding ≡ some hub
      → r ≡ some s'
      → Round hub w s f r
      → Outcome hub w s s'
  unfolding run_async new_db_job
  Round-Outcome hub w s s' f v h e (goes_on cu work m sv inv) =
      subst (Outcome hub w s) (some-injective _ s' e) (
        started
          (record {
            worker_id = w;
            job = new_db_job work.bundle work.bundle_metadata work.handler_function hub;
          })
          refl refl refl)
  Round-Outcome hub w s s' f v h e (drops nothing) =
      subst (Outcome hub w s) (some-injective _ s' e) (
        strands f.cu f.at nothing refl (
          ground (
            arith,
            flag_of-some hub s.manager.conflation_units f.at,
            f.flag,
            v.once hub,
            dropped-drops hub s f h hub,
            eq_iff hub hub,
          )))

  Round-emptied :
      (hub : String) (w : ℕ) (s s' : Bridge H) (f : Flagged hub s) {r : Option (Bridge H)}
      → r ≡ some s'
      → Round hub w s f r
      → (s'.holding ≡ none) × (s'.acquired ≡ none)
  Round-emptied hub w s s' f e (goes_on cu work m sv inv) =
      let same = some-injective _ s' e in
      (sym (ap (λ x. x.holding) same), sym (ap (λ x. x.acquired) same))
  Round-emptied hub w s s' f e (drops nothing) =
      let same = some-injective _ s' e in
      (sym (ap (λ x. x.holding) same), sym (ap (λ x. x.acquired) same))

  pub dispatch-Outcome :
      (hub : String) (w : ℕ) (s s' : Bridge H)
      → BridgeInv s
      → s.holding ≡ some hub
      → dispatch hub w s ≡ some s'
      → Outcome hub w s s' × (s'.holding ≡ none) × (s'.acquired ≡ none)
  dispatch-Outcome hub w s s' v h e =
      let f = held-Flagged hub s v h in
      let (no_unit, no_worker) = Round-emptied hub w s s' f e (dispatch-Round hub w s f) in
      (Round-Outcome hub w s s' f v h e (dispatch-Round hub w s f), no_unit, no_worker)
