-- ===== src/Bridge/Dispatch.antt =====
-- The round of the dispatch loop of pkg/controller/dispatcher/dispatcher.go, case by case.
use hub_of_hubs_status_trans.Base.{
  ℕ, ◌≤◌, ◌≡◌, refl, subst, true, String, Option, none, some, arith, Option-cases, inl, inr, eq_iff,
  lookup,
}
use hub_of_hubs_status_trans.Conflator.Unit.{
  ConflationUnit, Work, get_next, get_next_ready_bundle_priority,
}
use hub_of_hubs_status_trans.Conflator.Unit.Invariant.{Inv}
use hub_of_hubs_status_trans.Conflator.Unit.Next.{
  Serves, Next, no_ready_bundle, serves, get_next-Next,
}
use hub_of_hubs_status_trans.WorkerPool.{run_async, new_db_job}
use hub_of_hubs_status_trans.Bridge.{Bridge, with_unit, dispatch}
use hub_of_hubs_status_trans.Bridge.Jobs.{job_of}
use hub_of_hubs_status_trans.Bridge.Invariant.{BridgeInv, flag_of, flag_of-none, flag_of-some}

module _ {H : Type 0} where
  -- A unit whose flag is set has no job out.
  flagged_no_job :
      (cu : ConflationUnit H) (job : Option ℕ)
      → Inv cu job
      → cu.is_in_ready_queue ≡ true
      → job ≡ none
  flagged_no_job cu none v f = refl
  flagged_no_job cu (some m) v f = absurd (ground (arith, v.job_sound.1))

  -- The unit of a leaf hub whose queue flag is set, and that has no job out.
  pub record Flagged (hub : String) (s : Bridge H) : Type 0 where
    pub cu : ConflationUnit H
    pub at : lookup hub s.manager.conflation_units ≡ some cu
    pub flag : cu.is_in_ready_queue ≡ true
    pub no_job : job_of hub s.pool.running ≡ none
    pub kept : Inv cu none

  pub flag_of-Flagged :
      (hub : String) (s : Bridge H)
      → BridgeInv s
      → 1 ≤ flag_of hub s.manager.conflation_units
      → Flagged hub s
  flag_of-Flagged hub s v le = elim (Option-cases (lookup hub s.manager.conflation_units)) [
    | inl missing ↦ absurd (omega (arith, flag_of-none hub _ missing))
    | inr (cu, at) ↦
        let flag : cu.is_in_ready_queue ≡ true = ground (arith, flag_of-some hub _ at) in
        let kept = v.manager_sound.units hub cu at in
        let no_job = flagged_no_job cu (job_of hub s.pool.running) kept flag in
        record { cu = cu; at = at; flag = flag; no_job = no_job; kept = subst (Inv cu) no_job kept }
  ]

  -- The bridge after a round that found a bundle, and after one that found none.
  abbrev pub served : String → ℕ → ConflationUnit H → Work H → Bridge H → Bridge H
  served hub w cu work s = record s {
    manager = with_unit s.manager hub cu s.manager.ready_queue;
    pool =
        run_async w (new_db_job work.bundle work.bundle_metadata work.handler_function hub) s.pool;
    holding = none;
    acquired = none;
  }

  abbrev pub dropped : String → ConflationUnit H → Bridge H → Bridge H
  dropped hub cu s = record s {
    manager = with_unit s.manager hub cu s.manager.ready_queue;
    holding = none;
    acquired = none;
  }

  pub data Round (hub : String) (w : ℕ) (s : Bridge H) (f : Flagged hub s)
      : Option (Bridge H) → Type 0 where
    goes_on :
        (cu : ConflationUnit H) (work : Work H) (m : ℕ)
        → Serves f.cu cu work m
        → Inv cu (some m)
        → Round hub w s f (some (served hub w cu work s))
    drops :
        get_next_ready_bundle_priority f.cu ≡ some none
        → Round hub w s f (some (dropped hub f.cu s))

  -- A round always completes, in one of the two ways.
  pub dispatch-Round :
      (hub : String) (w : ℕ) (s : Bridge H) (f : Flagged hub s) → Round hub w s f (dispatch hub w s)
  unfolding dispatch
  dispatch-Round hub w s f = go (get_next f.cu) refl (get_next-Next f.cu f.kept)
    where
      go :
          (r : Option (ConflationUnit H × Option (Work H)))
          → get_next f.cu ≡ r
          → Next f.cu r
          → Round hub w s f (dispatch hub w s)
      go r e (no_ready_bundle nothing) = rw (f.at, e, dispatch) (drops nothing)
      go r e (serves cu work m sv inv) = rw (f.at, e, dispatch) (goes_on cu work m sv inv)

  pub held-Flagged :
      (hub : String) (s : Bridge H) → BridgeInv s → s.holding ≡ some hub → Flagged hub s
  held-Flagged hub s v h = flag_of-Flagged hub s v (ground (arith, v.once hub, eq_iff hub hub))
