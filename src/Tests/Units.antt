-- ===== src/Tests/Units.antt =====
-- One conflation unit, and the manager, through an insertion, a dispatch and a report.
use hub_of_hubs_status_trans.Conflator.Unit.Chains.{chain-terminates}
use mathlib.Core.Path.{subst₂}
use mathlib.Core.Option.{some-injective}
use hub_of_hubs_status_trans.Base.{
  ℕ, ◌≡◌, refl, false, [], ◌∷◌, Option, none, some, subst, sym, ◌∙◌, ap, arith, lookup, Bool, ◌<◌,
}
use hub_of_hubs_status_trans.Conflator.ReadyQueue.{ConflationReadyQueue}
use hub_of_hubs_status_trans.Conflator.Unit.{
  ConflationUnit, new_conflation_unit, insert, get_next, report_result, Work, slot,
  ConflationElement, is_current_or_any_dependency_in_process,
}
use hub_of_hubs_status_trans.Conflator.Unit.New.{IsProper, registered, new_conflation_unit-Inv}
use hub_of_hubs_status_trans.Conflator.Unit.Invariant.{Inv, QueueStep}
use hub_of_hubs_status_trans.Conflator.Unit.Insert.{Inserted, insert-Inserted}
use hub_of_hubs_status_trans.Conflator.Unit.Next.{Next, get_next-Next, no_ready_bundle, serves}
use hub_of_hubs_status_trans.Conflator.Unit.Report.{Reported, report_result-Reported}
use hub_of_hubs_status_trans.Conflator.Manager.{ConflationManager}
use hub_of_hubs_status_trans.Conflator.Manager
use hub_of_hubs_status_trans.Conflator.Manager.Routing.{ManagerInv, Routed, insert-Routed}
use hub_of_hubs_status_trans.DbSyncer.Registration.{setup-Registered, expected_dependency}
use mathlib.Core.List.{Memᴰ}
use hub_of_hubs_status_trans.Conflator.Registration.{ConflationRegistration}
use hub_of_hubs_status_trans.Base.{length, ℕ}
use hub_of_hubs_status_trans.Tests.Conflation.{four, four-IsProper, metadata, ready, code}

setup-Registered_example :
    IsProper four
    × (length four ≡ 4)
    × ((r : ConflationRegistration ℕ)
        → Memᴰ r four
        → r.dependency ≡ expected_dependency r.bundle_type)
setup-Registered_example = setup-Registered 0 1 2 3

-- A new unit, and the unit that holds `ready`.
fresh : (cu : ConflationUnit ℕ) × (new_conflation_unit four ≡ some cu)
unfolding code
fresh = (_, refl)

new_conflation_unit-Inv_example :
    (cu : ConflationUnit ℕ) × (new_conflation_unit four ≡ some cu)
    × Inv cu none
    × (cu.is_in_ready_queue ≡ false)
    × (cu.bundle_type_to_priority ≡ registered four [])
new_conflation_unit-Inv_example = new_conflation_unit-Inv four four-IsProper

fresh-Inv : Inv fresh.0 none
fresh-Inv =
    let (cu, e, v, _, _) = new_conflation_unit-Inv four four-IsProper in
    subst (λ x. Inv x none) (some-injective cu fresh.0 (sym e ∙ fresh.1)) v

insert-Inserted_example :
    (cu' : ConflationUnit ℕ) × (rq' : ConflationReadyQueue) × (insert "hub1" ready metadata fresh.0
        []
      ≡ some (cu', rq'))
    × Inserted "hub1" ready none fresh.0 [] cu' rq'
insert-Inserted_example = insert-Inserted "hub1" ready metadata fresh.0 [] none fresh-Inv

-- The insertion queues the unit.
loaded :
    (cu : ConflationUnit ℕ) × (insert "hub1" ready metadata fresh.0 [] ≡ some (cu, "hub1" ∷ []))
unfolding code fresh
loaded = (_, refl)

loaded-Inv : Inv loaded.0 none
loaded-Inv =
    let (cu, rq, e, r) = insert-Inserted "hub1" ready metadata fresh.0 [] none fresh-Inv in
    subst (λ x. Inv x none) (ap (λ x. x.0) (some-injective _ _ (sym e ∙ loaded.1))) r.kept

get_next-Next_example : Next loaded.0 (get_next loaded.0)
get_next-Next_example = get_next-Next loaded.0 loaded-Inv

-- The unit whose bundle is out, with the metadata object at pointer 0.
serving :
    (cu : ConflationUnit ℕ) × (w : Work ℕ) × (get_next loaded.0 ≡ some (cu, some w))
    × (w.bundle_metadata ≡ some 0)
unfolding code fresh loaded
serving = (_, _, refl, refl)

serving-Inv : Inv serving.0 (some 0)
serving-Inv = go (get_next loaded.0) serving.2 (get_next-Next loaded.0 loaded-Inv)
  where
    go :
        (r : Option (ConflationUnit ℕ × Option (Work ℕ)))
        → r ≡ some (serving.0, some serving.1)
        → Next loaded.0 r
        → Inv serving.0 (some 0)
    go r e (no_ready_bundle nothing) = absurd (ground (arith, e))
    go r e (serves cu work m s v) =
        let pairs = some-injective (cu, some work) (serving.0, some serving.1) e in
        let works : work ≡ serving.1 = some-injective _ _ (ap (λ x. x.1) pairs) in
        let pointer : m ≡ 0 = some-injective m 0 (
          sym (ap (λ (x : Work ℕ). x.bundle_metadata) s.handed)
          ∙ ap (λ x. x.bundle_metadata) works
          ∙ serving.3) in
        subst₂ (λ x k. Inv x (some k)) (ap (λ x. x.0) pairs) pointer v

report_result-Reported_example :
    (cu' : ConflationUnit ℕ) × (rq' : ConflationReadyQueue) × (report_result "hub1" 0 none serving.0
        []
      ≡ some (cu', rq'))
    × Inv cu' none
    × Reported none serving.0 0 serving-Inv.job_sound.0 cu'
    × QueueStep "hub1" false [] cu'.is_in_ready_queue rq'
report_result-Reported_example = report_result-Reported "hub1" 0 none serving.0 [] serving-Inv

abbrev empty_manager : ConflationManager ℕ
empty_manager = record { conflation_units = []; registrations = four; ready_queue = [] }

empty_manager-Inv : ManagerInv empty_manager (λ hub. none)
unfolding lookup
empty_manager-Inv = record {
  proper = four-IsProper;
  units = λ hub cu h. cc;
  absent = λ hub h. refl;
}

insert-Routed_example :
    (cm' : ConflationManager ℕ) × (Manager.insert empty_manager ready metadata ≡ some cm')
    × Routed ready empty_manager (λ hub. none) cm'
    × ManagerInv cm' (λ hub. none)
insert-Routed_example = insert-Routed empty_manager ready metadata (λ hub. none) empty_manager-Inv

-- The compliance element of the loaded unit, which depends on the one at priority 1.
dependent : (e : ConflationElement ℕ) × (slot loaded.0.priority_queue 2 ≡ some e)
unfolding code fresh loaded
dependent = (_, refl)

chain-terminates_example :
    (r : Bool) × ((fuel : ℕ)
      → 2 < fuel
      → is_current_or_any_dependency_in_process fuel loaded.0 dependent.0 ≡ some r)
chain-terminates_example = chain-terminates loaded.0 none 2 dependent.0 loaded-Inv dependent.1
