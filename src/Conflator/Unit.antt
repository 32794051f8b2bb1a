-- ===== src/Conflator/Unit.antt =====
-- pkg/conflator/conflation_unit.go, conflation_element.go and bundle_metadata.go.
-- `none` is a panic: an index out of range, a nil pointer or an endless recursion. A method that
-- may touch the ready queue takes it and returns it. The lock makes each method one step.
pub mod Slots
pub mod Total
pub mod Chains
pub mod Invariant
pub mod Frame
pub mod Store
pub mod StoreWorking
pub mod Insert
pub mod Next
pub mod Report
pub mod New
use hub_of_hubs_status_trans.Base.{
  ℕ, zero, suc, String, Bool, true, false, List, [], ◌∷◌, ◌++◌, Option, none, some, length,
  get_elem?, replicate, modify, ltb, leb, ◌==◌, if◌then◌else◌, ◌>>=◌, str_eq,
}
use hub_of_hubs_status_trans.Bundle.{
  Bundle, get_generation, get_bundle_type, get_dependency_generation,
}
use hub_of_hubs_status_trans.Conflator.Registration.{Dependency, ConflationRegistration}
use hub_of_hubs_status_trans.Conflator.ReadyQueue.{ConflationReadyQueue, enqueue}

-- `transport.BundleMetadata` is an empty interface; the sync service puts its object's id there.
pub record TransportMetadata : Type 0 where
  pub object_id : String

pub record BundleMetadata : Type 0 where
  pub bundle_type : String
  pub generation : ℕ
  pub transport_bundle_metadata : TransportMetadata

unfoldable pub update : ℕ → TransportMetadata → BundleMetadata → BundleMetadata
update g m metadata = record metadata { generation = g; transport_bundle_metadata = m }

-- `bundle_metadata` is a pointer into the unit's heap of metadata objects.
pub record ConflationElement (H : Type 0) : Type 0 where
  pub bundle_type : String
  pub bundle : Option Bundle
  pub bundle_metadata : Option ℕ
  pub handler_function : H
  pub dependency : Option Dependency
  pub is_in_process : Bool
  pub last_processed_bundle_generation : ℕ

-- A slot of the priority queue is a pointer to an element, nil at first.
abbrev pub Slots : Type 0 → Type 0
Slots H = List (Option (ConflationElement H))

abbrev pub Priorities : Type 0
Priorities = List (String × ℕ)

pub record ConflationUnit (H : Type 0) : Type 0 where
  pub priority_queue : Slots H
  pub bundle_type_to_priority : Priorities
  pub is_in_ready_queue : Bool
  -- every metadata object that this unit has allocated, so that sharing can be seen
  pub heap : List BundleMetadata

-- A read of `bundleTypeToPriority`: a missing type has the zero value.
unfoldable pub priority_of : Priorities → String → ℕ
priority_of [] t = 0
priority_of ((u, p) ∷ rest) t = if str_eq u t then p else priority_of rest t

-- What `GetNext` hands to the dispatcher.
pub record Work (H : Type 0) : Type 0 where
  pub bundle : Option Bundle
  pub bundle_metadata : Option ℕ
  pub handler_function : H

-- `priorityQueue[i]`, dereferenced.
unfoldable pub slot {ℓ} : {A : Type ℓ} → List (Option A) → ℕ → Option A
slot [] i = none
slot (s ∷ rest) zero = s
slot (s ∷ rest) (suc i) = slot rest i

unfoldable pub put {ℓ} : {A : Type ℓ} → List (Option A) → ℕ → A → List (Option A)
put pq i e = modify (λ _. some e) pq i

module _ {H : Type 0} where
  unfoldable pub new_element : ConflationRegistration H → ConflationElement H
  new_element r = record {
    bundle_type = r.bundle_type;
    bundle = none;
    bundle_metadata = none;
    handler_function = r.handler_function;
    dependency = r.dependency;
    is_in_process = false;
    last_processed_bundle_generation = 0;
  }

  -- The loop over the registrations; a priority past the queue's end is an index out of range.
  unfoldable pub fill :
      List (ConflationRegistration H) → Slots H → Priorities → Option (Slots H × Priorities)
  unfolding new_element
  fill [] pq m = some (pq, m)
  fill (r ∷ rs) pq m =
      let rest = fill rs (put pq r.priority (new_element r)) ((r.bundle_type, r.priority) ∷ m) in
      if ltb r.priority (length pq) then rest else none

  unfoldable pub new_conflation_unit : List (ConflationRegistration H) → Option (ConflationUnit H)
  unfolding fill
  new_conflation_unit rs = do
    (pq, m) ← fill rs (replicate (length rs) none) []
    some (record {
      priority_queue = pq;
      bundle_type_to_priority = m;
      is_in_ready_queue = false;
      heap = [];
    })

  -- `fuel` bounds the chain of dependencies; a chain that is longer than the queue never ends.
  unfoldable pub is_current_or_any_dependency_in_process :
      ℕ → ConflationUnit H → ConflationElement H → Option Bool
  is_current_or_any_dependency_in_process zero cu e = none
  is_current_or_any_dependency_in_process (suc fuel) cu e =
      if e.is_in_process then some true else elim e.dependency [
        | none ↦ some false
        | some d ↦
            elim (slot cu.priority_queue (priority_of cu.bundle_type_to_priority d.bundle_type)) [
              | none ↦ none
              | some next ↦ is_current_or_any_dependency_in_process fuel cu next
            ]
      ]

  -- The type assertion fails on a nil bundle too, and the log line then dereferences it.
  unfoldable pub check_dependency : ConflationUnit H → ConflationElement H → Option Bool
  check_dependency cu e = elim e.dependency [
    | none ↦ some true
    | some d ↦ do
      b ← e.bundle
      elim (get_dependency_generation b) [
        | none ↦ some false
        | some g ↦ do
          dep ← slot cu.priority_queue (priority_of cu.bundle_type_to_priority d.bundle_type)
          some (leb g dep.last_processed_bundle_generation)
      ]
  ]

  -- The condition of the loop below, with Go's evaluation order.
  unfoldable pub is_ready : ConflationUnit H → ConflationElement H → Option Bool
  is_ready cu e = elim e.bundle [
    | none ↦ some false
    | some b ↦ do
      busy ← is_current_or_any_dependency_in_process (suc (length cu.priority_queue)) cu e
      if busy then some false else check_dependency cu e
  ]

  unfoldable pub next_ready_from : ConflationUnit H → ℕ → Slots H → Option (Option ℕ)
  next_ready_from cu i [] = some none
  next_ready_from cu i (none ∷ rest) = none
  next_ready_from cu i (some e ∷ rest) =
      let later = next_ready_from cu (suc i) rest in
      is_ready cu e >>= λ ready. if ready then some (some i) else later

  -- `none` inside is `invalidPriority`.
  unfoldable pub get_next_ready_bundle_priority : ConflationUnit H → Option (Option ℕ)
  get_next_ready_bundle_priority cu = next_ready_from cu 0 cu.priority_queue

  unfoldable pub is_in_process : Slots H → Option Bool
  is_in_process [] = some false
  is_in_process (none ∷ rest) = none
  is_in_process (some e ∷ rest) = if e.is_in_process then some true else is_in_process rest

  unfoldable pub add_cu_to_ready_queue_if_needed :
      String
      → ConflationUnit H
      → ConflationReadyQueue
      → Option (ConflationUnit H × ConflationReadyQueue)
  add_cu_to_ready_queue_if_needed self cu rq = if cu.is_in_ready_queue then some (cu, rq) else do
    busy ← is_in_process cu.priority_queue
    if busy then some (cu, rq) else do
      next ← get_next_ready_bundle_priority cu
      elim next [
        | none ↦ some (cu, rq)
        | some p ↦ some (record cu { is_in_ready_queue = true }, enqueue rq self)
      ]

  -- The metadata object that `insert` may overwrite: that of a bundle which is not in process.
  unfoldable pub reusable : ConflationElement H → Option ℕ
  reusable e = if e.is_in_process then none else e.bundle_metadata

  -- The bundle goes into slot `p`; its metadata are updated in place, or newly allocated.
  unfoldable pub store_bundle :
      ConflationUnit H → ℕ → ConflationElement H → Bundle → TransportMetadata → ConflationUnit H
  store_bundle cu p e b metadata = elim (reusable e) [
    | some m ↦ record cu {
      priority_queue = put cu.priority_queue p (record e { bundle = some b });
      heap = modify (update (get_generation b) metadata) cu.heap m;
    }
    | none ↦ record cu {
      priority_queue =
          put cu.priority_queue p
            (record e { bundle = some b; bundle_metadata = some (length cu.heap) });
      heap =
          cu.heap
          ++ record {
            bundle_type = get_bundle_type b;
            generation = get_generation b;
            transport_bundle_metadata = metadata;
          }
            ∷ [];
    }
  ]

  -- A bundle is in memory and at least as new as the one received.
  unfoldable pub holds_newer : ConflationElement H → Bundle → Bool
  holds_newer e b = elim e.bundle [
    | none ↦ false
    | some held ↦ leb (get_generation b) (get_generation held)
  ]

  unfoldable pub insert :
      String
      → Bundle
      → TransportMetadata
      → ConflationUnit H
      → ConflationReadyQueue
      → Option (ConflationUnit H × ConflationReadyQueue)
  insert self b metadata cu rq = do
    let p = priority_of cu.bundle_type_to_priority (get_bundle_type b)
    e ← slot cu.priority_queue p
    if leb (get_generation b) e.last_processed_bundle_generation
        then some (cu, rq)
        else (if holds_newer e b
            then some (cu, rq)
            else add_cu_to_ready_queue_if_needed self (store_bundle cu p e b metadata) rq)

  -- The second part is `none` for `errNoReadyBundle`.
  unfoldable pub get_next : ConflationUnit H → Option (ConflationUnit H × Option (Work H))
  get_next cu = do
    next ← get_next_ready_bundle_priority cu
    elim next [
      | none ↦ some (cu, none)
      | some p ↦ do
        e ← slot cu.priority_queue p
        some (
          record cu {
            priority_queue = put cu.priority_queue p (record e { is_in_process = true });
            is_in_ready_queue = false;
          },
          some (record {
            bundle = e.bundle;
            bundle_metadata = e.bundle_metadata;
            handler_function = e.handler_function;
          }),
        )
    ]

  -- The element once its bundle `b`, with metadata of generation `g`, was processed.
  unfoldable pub processed : ConflationElement H → Bundle → ℕ → ConflationElement H
  processed e b g =
      let e1 = record e {
        is_in_process = false;
        last_processed_bundle_generation =
            if ltb e.last_processed_bundle_generation g
            then g
            else e.last_processed_bundle_generation;
      } in
      if g == get_generation b then record e1 { bundle = none; bundle_metadata = none } else e1

  -- `metadata` is a pointer; `failure` is the handler's error, if it returned one.
  unfoldable pub report_result :
      String
      → ℕ
      → Option String
      → ConflationUnit H
      → ConflationReadyQueue
      → Option (ConflationUnit H × ConflationReadyQueue)
  report_result self metadata failure cu rq = do
    md ← get_elem? cu.heap metadata
    let p = priority_of cu.bundle_type_to_priority md.bundle_type
    e ← slot cu.priority_queue p
    elim failure [
      | some message ↦
          add_cu_to_ready_queue_if_needed self
            (record cu {
              priority_queue = put cu.priority_queue p (record e { is_in_process = false });
            })
            rq
      | none ↦ do
        b ← e.bundle
        add_cu_to_ready_queue_if_needed self
            (record cu { priority_queue = put cu.priority_queue p (processed e b md.generation) })
            rq
    ]
