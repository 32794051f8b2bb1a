-- ===== src/Bridge/Preservation.antt =====
-- How each step of the bridge changes the balance of queue flags and queue entries.
use mathlib.Core.Option.{some-injective}
use mathlib.Core.Path.{subst₂}
use hub_of_hubs_status_trans.Base.{
  ℕ, ◌+◌, ◌≤◌, ◌≡◌, refl, ap, sym, subst, ◌∙◌, false, String, List, Option, some, arith, Bool-cases,
  inl, inr, str_eq, eq_iff, lookup, assign, lookup-assign,
}
use hub_of_hubs_status_trans.Conflator.Unit.{ConflationUnit, Work}
use hub_of_hubs_status_trans.Conflator.Unit.Invariant.{Inv}
use hub_of_hubs_status_trans.Conflator.Unit.Next.{Serves}
use hub_of_hubs_status_trans.Conflator.Manager.{ConflationManager}
use hub_of_hubs_status_trans.Conflator.Manager.Routing.{ManagerInv}
use hub_of_hubs_status_trans.WorkerPool.{run_async, new_db_job}
use hub_of_hubs_status_trans.Bridge.{Bridge, with_unit}
use hub_of_hubs_status_trans.Bridge.Occurrences.{to_nat}
use hub_of_hubs_status_trans.Bridge.Jobs.{job_of}
use hub_of_hubs_status_trans.Bridge.Invariant.{
  BridgeInv, occurrences, flag_of, flag_of-some, flag_of-assign_self, flag_of-assign_ne, Balanced,
}
use hub_of_hubs_status_trans.Bridge.Dispatch.{Flagged, served, dropped}

module _ {H : Type 0} where
  -- A unit put back in its place keeps the manager sound.
  pub with_unit-ManagerInv :
      (cm : ConflationManager H) (jobs jobs' : String → Option ℕ) (hub : String)
      (cu : ConflationUnit H) (rq : List String)
      → ManagerInv cm jobs
      → Inv cu (jobs' hub)
      → ((other : String) → str_eq hub other ≡ false → jobs' other ≡ jobs other)
      → ManagerInv (with_unit cm hub cu rq) jobs'
  with_unit-ManagerInv cm jobs jobs' hub cu rq v own others = record {
    proper = v.proper;
    units = λ h x at. elim (Bool-cases (str_eq hub h)) [
      | inl same ↦
          let e : hub ≡ h = (eq_iff hub h).0 same in
          let one : some cu ≡ some x =
            sym (lookup-assign hub h cu cm.conflation_units ∙ rw same) ∙ at in
          subst₂ (λ y k. Inv y (jobs' k)) (some-injective cu x one) e own
      | inr other ↦
          subst (Inv x) (sym (others h other))
            (v.units h x (sym (lookup-assign hub h cu cm.conflation_units ∙ rw other) ∙ at))
    ];
    absent = λ h missing. elim (Bool-cases (str_eq hub h)) [
      | inl same ↦
          let stored : lookup h (assign hub cu cm.conflation_units) ≡ some cu =
            lookup-assign hub h cu cm.conflation_units ∙ rw same in
          cc
      | inr other ↦
          others h other
          ∙ v.absent h (sym (lookup-assign hub h cu cm.conflation_units ∙ rw other) ∙ missing)
    ];
  }

  -- Where every flag changes with the occurrences, a unit is still queued at most once.
  pub once-Balanced :
      (s s' : Bridge H)
      → ((hub : String) → occurrences hub s ≤ flag_of hub s.manager.conflation_units)
      → ((hub : String) → Balanced hub s s')
      → (hub : String) → occurrences hub s' ≤ flag_of hub s'.manager.conflation_units
  once-Balanced s s' once bal hub = omega (arith, once hub, bal hub)

  -- The dispatcher's hand is emptied, and the flag of the unit that it held is cleared with it.
  pub served-Balanced :
      (hub : String) (w : ℕ) (s : Bridge H) (f : Flagged hub s) (cu : ConflationUnit H)
      (work : Work H)
      → s.holding ≡ some hub
      → cu.is_in_ready_queue ≡ false
      → (other : String) → Balanced other s (served hub w cu work s)
  served-Balanced hub w s f cu work h left other = elim (Bool-cases (str_eq hub other)) [
    | inl same ↦
        subst (λ k. Balanced k s (served hub w cu work s)) ((eq_iff hub other).0 same)
          (ground (
            arith,
            eq_iff hub hub,
            flag_of-some hub s.manager.conflation_units f.at,
            f.flag,
            flag_of-assign_self hub cu s.manager.conflation_units,
          ))
    | inr ne ↦ ground (arith, flag_of-assign_ne hub other cu s.manager.conflation_units ne)
  ]

  pub served-Inv :
      (hub : String) (w : ℕ) (s : Bridge H) (f : Flagged hub s) (cu : ConflationUnit H)
      (work : Work H) (m : ℕ)
      → BridgeInv s
      → s.holding ≡ some hub
      → Serves f.cu cu work m
      → Inv cu (some m)
      → BridgeInv (served hub w cu work s)
  unfolding run_async new_db_job job_of
  served-Inv hub w s f cu work m v h sv inv =
      let meta : work.bundle_metadata ≡ some m = ap (λ x. x.bundle_metadata) sv.handed in
      record {
        manager_sound =
            with_unit-ManagerInv s.manager (λ k. job_of k s.pool.running) _ hub cu
              s.manager.ready_queue v.manager_sound
              (subst (Inv cu) (sym (rw ((eq_iff hub hub).1 refl) meta)) inv) (λ k ne. rw ne);
        orderly = ((m, meta), f.no_job, v.orderly);
        once =
            once-Balanced s (served hub w cu work s) v.once
              (served-Balanced hub w s f cu work h sv.left_queue);
      }

  -- A unit that is dropped keeps its flag, and has one occurrence less.
  pub dropped-drops :
      (hub : String) (s : Bridge H) (f : Flagged hub s)
      → s.holding ≡ some hub
      → (other : String)
      → (occurrences other (dropped hub f.cu s) + to_nat (str_eq hub other) ≡ occurrences other s)
        × (flag_of other (dropped hub f.cu s).manager.conflation_units
            ≡ flag_of other s.manager.conflation_units)
  dropped-drops hub s f h other = elim (Bool-cases (str_eq hub other)) [
    | inl same ↦ (
      ground arith,
      subst
          (λ k.
            flag_of k (assign hub f.cu s.manager.conflation_units)
            ≡ flag_of k s.manager.conflation_units)
          ((eq_iff hub other).0 same)
          (flag_of-assign_self hub f.cu s.manager.conflation_units
            ∙ sym (flag_of-some hub s.manager.conflation_units f.at)),
    )
    | inr ne ↦ (ground arith, flag_of-assign_ne hub other f.cu s.manager.conflation_units ne)
  ]

  pub dropped-Inv :
      (hub : String) (s : Bridge H) (f : Flagged hub s)
      → BridgeInv s
      → s.holding ≡ some hub
      → BridgeInv (dropped hub f.cu s)
  dropped-Inv hub s f v h = record {
    manager_sound =
        with_unit-ManagerInv s.manager _ (λ k. job_of k s.pool.running) hub f.cu
          s.manager.ready_queue v.manager_sound (subst (Inv f.cu) (sym f.no_job) f.kept)
          (λ k ne. refl);
    orderly = v.orderly;
    once = λ other. omega (arith, v.once other, dropped-drops hub s f h other);
  }
