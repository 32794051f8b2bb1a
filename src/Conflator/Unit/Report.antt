-- ===== src/Conflator/Unit/Report.antt =====
-- ReportResult of pkg/conflator/conflation_unit.go, for failures, successes and bundles that were
-- replaced meanwhile.
use hub_of_hubs_status_trans.Base.{
  ℕ, ◌≡◌, ◌≢◌, ◌<◌, refl, subst, ◌∙◌, false, String, [], Option, none, some, arith, ◌==◌,
  Bool-cases, inl, inr, ◌⊎◌, length,
}
use hub_of_hubs_status_trans.Bundle.{Bundle, get_generation}
use hub_of_hubs_status_trans.Conflator.ReadyQueue.{ConflationReadyQueue}
use hub_of_hubs_status_trans.Conflator.Unit.{
  ConflationElement, ConflationUnit, slot, put, priority_of, processed, report_result,
  add_cu_to_ready_queue_if_needed,
}
use hub_of_hubs_status_trans.Conflator.Unit.Slots.{slot-lt, slot-put_self, slot-put_ne}
use hub_of_hubs_status_trans.Conflator.Unit.Invariant.{
  IsSlotSound, IsWorking, Inv, add-Inv, QueueStep,
}
use hub_of_hubs_status_trans.Conflator.Unit.Store.{IsSlotSound-holding}
use hub_of_hubs_status_trans.Conflator.Unit.Frame.{written, IsSound-written, each_slot}

module _ {H : Type 0} where
  -- The slot of the job that is out.
  abbrev pub job_slot : (cu : ConflationUnit H) (m : ℕ) → IsWorking cu m → ℕ
  job_slot cu m w = priority_of cu.bundle_type_to_priority w.object.bundle_type

  -- The element of the job once its result is in.
  abbrev pub after_result : Option String → ConflationElement H → Bundle → ℕ → ConflationElement H
  after_result (some message) e b g = record e { is_in_process = false }
  after_result none e b g = processed e b g

  report_result-eq :
      (self : String) (m : ℕ) (failure : Option String) (cu : ConflationUnit H)
      (rq : ConflationReadyQueue) (w : IsWorking cu m)
      → report_result self m failure cu rq
        ≡ add_cu_to_ready_queue_if_needed self
            (written cu
              (job_slot cu m w)
              (after_result failure w.element w.bundle w.object.generation)
              cu.is_in_ready_queue
              cu.heap)
            rq
  unfolding report_result
  report_result-eq self m (some message) cu rq w = ground (arith, w.stored, w.found)
  report_result-eq self m none cu rq w = ground (arith, w.stored, w.found, w.held)

  processed_dependency :
      (failure : Option String) (e : ConflationElement H) (b : Bundle) (g : ℕ)
      → (after_result failure e b g).dependency ≡ e.dependency
  unfolding processed
  processed_dependency (some message) e b g = refl
  processed_dependency none e b g = ground arith

  processed_free :
      (failure : Option String) (e : ConflationElement H) (b : Bundle) (g : ℕ)
      → (after_result failure e b g).is_in_process ≡ false
  unfolding processed
  processed_free (some message) e b g = refl
  processed_free none e b g = ground arith

  -- A processed element has recorded the generation, and has let go of the bundle exactly if that
  -- was the one processed.
  processed_lem :
      (e : ConflationElement H) (b : Bundle) (g : ℕ)
      → e.bundle ≡ some b
      → e.last_processed_bundle_generation < g
      → ((processed e b g).last_processed_bundle_generation ≡ g)
        × ((g ≡ get_generation b)
              × ((processed e b g).bundle ≡ none)
              × ((processed e b g).bundle_metadata ≡ none)
            ⊎ (g ≢ get_generation b)
              × ((processed e b g).bundle ≡ some b)
              × ((processed e b g).bundle_metadata ≡ e.bundle_metadata))
  unfolding processed
  processed_lem e b g held lt = elim (Bool-cases (g == get_generation b)) [
    | inl same ↦ (ground arith, inl (ground arith, ground arith, ground arith))
    | inr other ↦ (ground arith, inr ((λ e. ground arith), ground arith, ground arith))
  ]

  after_result-IsSlotSound :
      (cu : ConflationUnit H) (m : ℕ) (failure : Option String) (w : IsWorking cu m)
      → IsSlotSound cu.bundle_type_to_priority cu.heap (job_slot cu m w) w.element
      → IsSlotSound cu.bundle_type_to_priority cu.heap
          (job_slot cu m w)
          (after_result failure w.element w.bundle w.object.generation)
  after_result-IsSlotSound cu m (some message) w s = record { held = s.held; bare = s.bare }
  after_result-IsSlotSound cu m none w s =
      let (last, outcome) = processed_lem w.element w.bundle w.object.generation w.held w.fresh in
      elim outcome [
        | inl (same, gone, bare) ↦ record { held = λ b h. cc; bare = λ _. bare }
        | inr (other, stays, meta) ↦
            let (k, h, d, lt) = s.held w.bundle w.held in
            IsSlotSound-holding _ _ _ k w.bundle _ stays (meta ∙ h) d
              (grind (arith, last, other, w.not_newer))
      ]

  abbrev last_of : ConflationElement H → ℕ
  last_of e = e.last_processed_bundle_generation

  -- What a reported result makes of the job's slot and of the others.
  pub record Reported (failure : Option String) (cu : ConflationUnit H) (m : ℕ) (w : IsWorking cu m)
      (cu' : ConflationUnit H) : Type 0 where
    pub element : ConflationElement H
    pub at : slot cu'.priority_queue (job_slot cu m w) ≡ some element
    pub free : element.is_in_process ≡ false
    -- a failure leaves the bundle and the last processed generation
    pub failed :
        (message : String)
        → failure ≡ some message
        → (element.bundle ≡ some w.bundle)
          × (element.last_processed_bundle_generation ≡ w.element.last_processed_bundle_generation)
    -- a success is recorded, and the bundle goes if it is the one that was processed
    pub succeeded :
        failure ≡ none
        → (element.last_processed_bundle_generation ≡ w.object.generation)
          × ((w.object.generation ≡ get_generation w.bundle) × (element.bundle ≡ none)
              ⊎ (w.object.generation < get_generation w.bundle) × (element.bundle ≡ some w.bundle))
    pub others :
        (j : ℕ)
        → (job_slot cu m w == j) ≡ false
        → slot cu'.priority_queue j ≡ slot cu.priority_queue j

  after_result-Reported :
      (failure : Option String) (cu : ConflationUnit H) (m : ℕ) (w : IsWorking cu m)
      (cu' : ConflationUnit H)
      → cu'.priority_queue
        ≡ put cu.priority_queue
            (job_slot cu m w)
            (after_result failure w.element w.bundle w.object.generation)
      → Reported failure cu m w cu'
  after_result-Reported failure cu m w cu' e = record {
    element = after_result failure w.element w.bundle w.object.generation;
    at = rw e (slot-put_self cu.priority_queue (job_slot cu m w) _ range);
    free = processed_free failure w.element w.bundle w.object.generation;
    failed = failed_case failure;
    succeeded = succeeded_case failure;
    others = λ j ne. rw e (slot-put_ne cu.priority_queue (job_slot cu m w) j _ range ne);
  }
    where
      range : job_slot cu m w < length cu.priority_queue
      range = slot-lt cu.priority_queue (job_slot cu m w) w.found

      failed_case :
          (f : Option String) (message : String)
          → f ≡ some message
          → ((after_result f w.element w.bundle w.object.generation).bundle ≡ some w.bundle)
            × (last_of (after_result f w.element w.bundle w.object.generation)
                ≡ w.element.last_processed_bundle_generation)
      failed_case none message h = cc
      failed_case (some other) message h = (w.held, refl)

      succeeded_case :
          (f : Option String)
          → f ≡ none
          → (last_of (after_result f w.element w.bundle w.object.generation) ≡ w.object.generation)
            × ((w.object.generation ≡ get_generation w.bundle)
                  × ((after_result f w.element w.bundle w.object.generation).bundle ≡ none)
                ⊎ (w.object.generation < get_generation w.bundle)
                  × ((after_result f w.element w.bundle w.object.generation).bundle
                      ≡ some w.bundle))
      succeeded_case (some message) h = cc
      succeeded_case none h =
          let (last, outcome) =
            processed_lem w.element w.bundle w.object.generation w.held w.fresh in
          elim outcome [
            | inl (same, gone, bare) ↦ (last, inl (same, gone))
            | inr (other, stays, meta) ↦ (last, inr (grind (arith, other, w.not_newer), stays))
          ]

  -- On a unit that satisfies the invariant, a report by the worker that holds the job returns, and
  -- leaves the unit sound with no job: a failure keeps the bundle to be tried again; a success
  -- records its generation, and drops it unless a newer one has taken its place; the ready
  -- queue stays as it was, or the unit joins it and is flagged.
  pub report_result-Reported :
      (self : String) (m : ℕ) (failure : Option String) (cu : ConflationUnit H)
      (rq : ConflationReadyQueue) (v : Inv cu (some m))
      → (cu' : ConflationUnit H) × (rq' : ConflationReadyQueue) × (report_result self m failure cu
            rq
          ≡ some (cu', rq'))
        × Inv cu' none
        × Reported failure cu m v.job_sound.0 cu'
        × QueueStep self false rq cu'.is_in_ready_queue rq'
  report_result-Reported self m failure cu rq v =
      let w = v.job_sound.0 in
      let new = after_result failure w.element w.bundle w.object.generation in
      let kept = processed_dependency failure w.element w.bundle w.object.generation in
      let free = processed_free failure w.element w.bundle w.object.generation in
      let sound =
        IsSound-written cu (job_slot cu m w) w.element new cu.is_in_ready_queue cu.heap w.found kept
          v.data_sound
          (after_result-IsSlotSound cu m failure w (v.data_sound.sound _ w.element w.found))
          (λ j f ne x. x) in
      let idle =
        each_slot cu (job_slot cu m w) w.element new false [] w.found kept
          (λ j f. f.is_in_process ≡ false) free (λ j f ne h. w.alone j f ne h) in
      let (cu', rq', eq, inv, step, same) =
        add-Inv self (written cu (job_slot cu m w) new cu.is_in_ready_queue cu.heap) rq none sound
          idle in
      (
        cu',
        rq',
        report_result-eq self m failure cu rq w ∙ eq,
        inv,
        after_result-Reported failure cu m w cu' same.same_queue,
        subst (λ f. QueueStep self f rq cu'.is_in_ready_queue rq') v.job_sound.1 step,
      )
