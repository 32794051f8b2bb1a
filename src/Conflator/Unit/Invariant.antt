-- ===== src/Conflator/Unit/Invariant.antt =====
-- What holds of a conflation unit between two calls, given the one job that is out with a worker.
use hub_of_hubs_status_trans.Base.{
  ℕ, ◌≡◌, ◌<◌, ◌≤◌, refl, ap, ◌∙◌, Bool, true, false, String, List, Option, none, some, arith, ◌==◌,
  Bool-cases, Option-cases, inl, inr, get_elem?,
}
use hub_of_hubs_status_trans.Bundle.{Bundle, get_generation}
use hub_of_hubs_status_trans.Conflator.ReadyQueue.{ConflationReadyQueue, enqueue}
use hub_of_hubs_status_trans.Conflator.Unit.{
  ConflationElement, ConflationUnit, BundleMetadata, slot, priority_of,
  get_next_ready_bundle_priority, is_in_process, add_cu_to_ready_queue_if_needed,
}
use hub_of_hubs_status_trans.Conflator.Unit.Total.{
  IsShaped, IsIdle, get_next_ready-Finds, is_in_process-idle, is_in_process-busy,
}

-- The metadata object at pointer `m` belongs to slot `i` and describes bundle `b`.
pub record Describes (priorities : List (String × ℕ)) (heap : List BundleMetadata) (i m : ℕ)
    (b : Bundle) : Type 0 where
  pub object : BundleMetadata
  pub stored : get_elem? heap m ≡ some object
  pub same_slot : priority_of priorities object.bundle_type ≡ i
  pub same_generation : object.generation ≡ get_generation b

-- A slot holds a bundle with its metadata, newer than all that was processed, or neither.
pub record IsSlotSound {H : Type 0} (priorities : List (String × ℕ)) (heap : List BundleMetadata)
    (i : ℕ) (e : ConflationElement H) : Type 0 where
  pub held :
      (b : Bundle)
      → e.bundle ≡ some b
      → (m : ℕ) × (e.bundle_metadata ≡ some m)
        × Describes priorities heap i m b
        × (e.last_processed_bundle_generation < get_generation b)
  pub bare : e.bundle ≡ none → e.bundle_metadata ≡ none

-- How a call may change the flag and the ready queue together.
pub data QueueStep (self : String) (was : Bool) (rq : ConflationReadyQueue)
    : Bool → ConflationReadyQueue → Type 0 where
  stays : QueueStep self was rq was rq
  joins : was ≡ false → QueueStep self was rq true (enqueue rq self)

module _ {H : Type 0} where
  pub record IsSound (cu : ConflationUnit H) : Type 0 where
    pub shaped : IsShaped cu
    pub sound :
        (i : ℕ) (e : ConflationElement H)
        → slot cu.priority_queue i ≡ some e
        → IsSlotSound cu.bundle_type_to_priority cu.heap i e

  -- The bundle of slot `p` is being processed, no other is, and the worker holds pointer `m`.
  pub record IsWorking (cu : ConflationUnit H) (m : ℕ) : Type 0 where
    pub object : BundleMetadata
    pub element : ConflationElement H
    pub bundle : Bundle
    pub stored : get_elem? cu.heap m ≡ some object
    pub found :
        slot cu.priority_queue (priority_of cu.bundle_type_to_priority object.bundle_type)
        ≡ some element
    pub busy : element.is_in_process ≡ true
    pub held : element.bundle ≡ some bundle
    pub not_newer : object.generation ≤ get_generation bundle
    pub fresh : element.last_processed_bundle_generation < object.generation
    pub alone :
        (j : ℕ) (f : ConflationElement H)
        → (priority_of cu.bundle_type_to_priority object.bundle_type == j) ≡ false
        → slot cu.priority_queue j ≡ some f
        → f.is_in_process ≡ false

  -- A unit with no job is idle; if it is not in the ready queue, nothing in it is ready.
  pub record IsResting (cu : ConflationUnit H) : Type 0 where
    pub idle : IsIdle cu.priority_queue
    pub awake : cu.is_in_ready_queue ≡ false → get_next_ready_bundle_priority cu ≡ some none

  abbrev pub JobInv : ConflationUnit H → Option ℕ → Type 0
  JobInv cu none = IsResting cu
  JobInv cu (some m) = IsWorking cu m × (cu.is_in_ready_queue ≡ false)

  -- The invariant; `job` is the metadata pointer of the bundle that a worker is handling.
  pub record Inv (cu : ConflationUnit H) (job : Option ℕ) : Type 0 where
    pub data_sound : IsSound cu
    pub job_sound : JobInv cu job

  pub IsWorking-busy :
      (cu : ConflationUnit H) (m : ℕ)
      → IsShaped cu
      → IsWorking cu m
      → is_in_process cu.priority_queue ≡ some true
  IsWorking-busy cu m s w = is_in_process-busy cu.priority_queue _ w.element s.filled w.found w.busy

  -- While a job is out, a unit does not queue up.
  pub add-working :
      (self : String) (cu : ConflationUnit H) (rq : ConflationReadyQueue) (m : ℕ)
      → IsShaped cu
      → IsWorking cu m
      → add_cu_to_ready_queue_if_needed self cu rq ≡ some (cu, rq)
  unfolding add_cu_to_ready_queue_if_needed
  add-working self cu rq m s w = ground (arith, IsWorking-busy cu m s w)

  -- What a call has done to the ready queue: nothing, or it has appended the unit, once.
  pub data Queued (self : String) (cu : ConflationUnit H) (rq : ConflationReadyQueue)
      : ConflationUnit H → ConflationReadyQueue → Type 0 where
    unchanged :
        (cu.is_in_ready_queue ≡ false → get_next_ready_bundle_priority cu ≡ some none)
        → Queued self cu rq cu rq
    appended :
        (p : ℕ)
        → cu.is_in_ready_queue ≡ false
        → get_next_ready_bundle_priority cu ≡ some (some p)
        → Queued self cu rq (record cu { is_in_ready_queue = true }) (enqueue rq self)

  -- An idle unit queues up exactly when it has a ready bundle and is not in the queue.
  pub add-idle :
      (self : String) (cu : ConflationUnit H) (rq : ConflationReadyQueue)
      → IsShaped cu
      → IsIdle cu.priority_queue
      → (cu' : ConflationUnit H) × (rq' : ConflationReadyQueue) × (add_cu_to_ready_queue_if_needed
            self cu rq
          ≡ some (cu', rq'))
        × Queued self cu rq cu' rq'
  unfolding add_cu_to_ready_queue_if_needed
  add-idle self cu rq s idle =
      let (next, found, _) = get_next_ready-Finds cu s in
      let free = is_in_process-idle cu.priority_queue s.filled idle in
      elim (Bool-cases cu.is_in_ready_queue) [
        | inl t ↦ (cu, rq, ground arith, unchanged (λ f. cc))
        | inr f ↦ elim (Option-cases next) [
          | inl e ↦ (cu, rq, ground (arith, found, free), unchanged (λ _. found ∙ ap some e))
          | inr (p, e) ↦ (
            record cu { is_in_ready_queue = true },
            enqueue rq self,
            ground (arith, found, free),
            appended p f (found ∙ ap some e),
          )
        ]
      ]

  Queued-IsSound :
      (self : String) (cu : ConflationUnit H) (rq : ConflationReadyQueue) {cu' : ConflationUnit H}
      {rq' : ConflationReadyQueue}
      → IsSound cu
      → Queued self cu rq cu' rq'
      → IsSound cu'
  Queued-IsSound self cu rq s (unchanged a) = s
  Queued-IsSound self cu rq s (appended p f n) = record {
    shaped = record {
      filled = s.shaped.filled;
      in_range = s.shaped.in_range;
      dependency_below = s.shaped.dependency_below;
    };
    sound = s.sound;
  }

  Queued-IsResting :
      (self : String) (cu : ConflationUnit H) (rq : ConflationReadyQueue) {cu' : ConflationUnit H}
      {rq' : ConflationReadyQueue}
      → IsIdle cu.priority_queue
      → Queued self cu rq cu' rq'
      → IsResting cu'
  Queued-IsResting self cu rq idle (unchanged a) = record { idle = idle; awake = a }
  Queued-IsResting self cu rq idle (appended p f n) = record { idle = idle; awake = λ t. cc }

  Queued-QueueStep :
      (self : String) (cu : ConflationUnit H) (rq : ConflationReadyQueue) {cu' : ConflationUnit H}
      {rq' : ConflationReadyQueue}
      → Queued self cu rq cu' rq'
      → QueueStep self cu.is_in_ready_queue rq cu'.is_in_ready_queue rq'
  Queued-QueueStep self cu rq (unchanged a) = stays
  Queued-QueueStep self cu rq (appended p f n) = joins f

  -- Two units that differ in the queue flag at most.
  pub record IsSameData (cu cu' : ConflationUnit H) : Type 0 where
    pub same_queue : cu'.priority_queue ≡ cu.priority_queue
    pub same_priorities : cu'.bundle_type_to_priority ≡ cu.bundle_type_to_priority
    pub same_heap : cu'.heap ≡ cu.heap

  Queued-IsSameData :
      (self : String) (cu : ConflationUnit H) (rq : ConflationReadyQueue) {cu' : ConflationUnit H}
      {rq' : ConflationReadyQueue}
      → Queued self cu rq cu' rq'
      → IsSameData cu cu'
  Queued-IsSameData self cu rq (unchanged a) = record {
    same_queue = refl;
    same_priorities = refl;
    same_heap = refl;
  }
  Queued-IsSameData self cu rq (appended p f n) = record {
    same_queue = refl;
    same_priorities = refl;
    same_heap = refl;
  }

  -- The job part of the invariant before the unit has been offered to the ready queue.
  abbrev pub IsActive : ConflationUnit H → Option ℕ → Type 0
  IsActive cu none = IsIdle cu.priority_queue
  IsActive cu (some m) = IsWorking cu m × (cu.is_in_ready_queue ≡ false)

  pub JobInv-IsActive : (cu : ConflationUnit H) (job : Option ℕ) → JobInv cu job → IsActive cu job
  JobInv-IsActive cu none r = r.idle
  JobInv-IsActive cu (some m) w = w

  -- Offering the unit to the ready queue establishes the invariant.
  pub add-Inv :
      (self : String) (cu : ConflationUnit H) (rq : ConflationReadyQueue) (job : Option ℕ)
      → IsSound cu
      → IsActive cu job
      → (cu' : ConflationUnit H) × (rq' : ConflationReadyQueue) × (add_cu_to_ready_queue_if_needed
            self cu rq
          ≡ some (cu', rq'))
        × Inv cu' job
        × QueueStep self cu.is_in_ready_queue rq cu'.is_in_ready_queue rq'
        × IsSameData cu cu'
  add-Inv self cu rq none s idle =
      let (cu', rq', e, q) = add-idle self cu rq s.shaped idle in
      (
        cu',
        rq',
        e,
        record {
          data_sound = Queued-IsSound self cu rq s q;
          job_sound = Queued-IsResting self cu rq idle q;
        },
        Queued-QueueStep self cu rq q,
        Queued-IsSameData self cu rq q,
      )
  add-Inv self cu rq (some m) s (w, f) = (
    cu,
    rq,
    add-working self cu rq m s.shaped w,
    record { data_sound = s; job_sound = (w, f) },
    stays,
    record { same_queue = refl; same_priorities = refl; same_heap = refl },
  )
