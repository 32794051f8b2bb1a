-- ===== src/Conflator/Unit/StoreWorking.antt =====
-- insert of pkg/conflator/conflation_unit.go, while a worker has a job of the unit.
use hub_of_hubs_status_trans.Base.{
  ℕ, ◌≡◌, refl, ap, sym, ◌∙◌, false, [], ◌∷◌, ◌++◌, some, arith, length, ◌==◌, Bool-cases, inl, inr,
  get_elem?, ==_iff, get_elem?-modify_ne, get_elem?-append_lt, get_elem?-lt,
}
use hub_of_hubs_status_trans.Bundle.{Bundle, get_generation, get_bundle_type}
use hub_of_hubs_status_trans.Conflator.Unit.{
  ConflationElement, ConflationUnit, TransportMetadata, slot, put, priority_of, update, holds_newer,
}
use hub_of_hubs_status_trans.Conflator.Unit.Slots.{slot-lt, slot-put_self, slot-put_ne}
use hub_of_hubs_status_trans.Conflator.Unit.Invariant.{IsWorking}
use hub_of_hubs_status_trans.Conflator.Unit.Frame.{objects_ne, each_slot}
use hub_of_hubs_status_trans.Conflator.Unit.Store.{Stores, overwrites, allocates}

module _ {H : Type 0} where
  -- A job that is out stays sound, and its metadata object is not touched.
  pub Stores-IsWorking :
      (cu : ConflationUnit H) (e : ConflationElement H) (b : Bundle) (metadata : TransportMetadata)
      (m : ℕ) {cu' : ConflationUnit H}
      → let p = priority_of cu.bundle_type_to_priority (get_bundle_type b) in
        slot cu.priority_queue p ≡ some e
        → holds_newer e b ≡ false
        → (w : IsWorking cu m) → Stores cu p e b metadata cu'
        → IsWorking cu' m × (get_elem? cu'.heap m ≡ some w.object)
  unfolding holds_newer
  Stores-IsWorking cu e b metadata m at newer w (overwrites k held free meta d) =
      elim (Bool-cases (p == P)) [
        | inl same ↦
            let one : some w.element ≡ some e =
              sym w.found ∙ ap (slot cu.priority_queue) (sym ((==_iff p P).0 same)) ∙ at in
            ground (arith, one, w.busy)
        | inr other ↦
            let kept =
              get_elem?-modify_ne (update (get_generation b) metadata) cu.heap k m (
                objects_ne cu.bundle_type_to_priority cu.heap p P k m d.stored w.stored d.same_slot
                  refl other)
              ∙ w.stored in
            (
              record {
                object = w.object;
                element = w.element;
                bundle = w.bundle;
                stored = kept;
                found =
                    slot-put_ne cu.priority_queue p P _ (slot-lt cu.priority_queue p at) other
                    ∙ w.found;
                busy = w.busy;
                held = w.held;
                not_newer = w.not_newer;
                fresh = w.fresh;
                alone = λ j f ne h. still j f h ne;
              },
              kept,
            )
      ]
    where
      p : ℕ
      p = priority_of cu.bundle_type_to_priority (get_bundle_type b)

      P : ℕ
      P = priority_of cu.bundle_type_to_priority w.object.bundle_type

      still :
          (j : ℕ) (f : ConflationElement H)
          → slot (put cu.priority_queue p (record e { bundle = some b })) j ≡ some f
          → (P == j) ≡ false
          → f.is_in_process ≡ false
      still =
          each_slot cu p e (record e { bundle = some b }) false [] at refl
            (λ j f. (P == j) ≡ false → f.is_in_process ≡ false) (λ ne. w.alone p e ne at)
            (λ j f _ h ne. w.alone j f ne h)
  Stores-IsWorking cu e b metadata m at newer w allocates = elim (Bool-cases (p == P)) [
    | inl same ↦
        let slots : p ≡ P = (==_iff p P).0 same in
        let one : some w.element ≡ some e =
          sym w.found ∙ ap (slot cu.priority_queue) (sym slots) ∙ at in
        (
          record {
            object = w.object;
            element = new;
            bundle = b;
            stored = kept;
            found =
                ap (slot (put cu.priority_queue p new)) (sym slots)
                ∙ slot-put_self cu.priority_queue p new (slot-lt cu.priority_queue p at);
            busy = ground (arith, one, w.busy);
            held = refl;
            not_newer = ground (arith, one, w.held, w.not_newer);
            fresh = ground (arith, one, w.fresh);
            alone = λ j f ne h. still j f h ne;
          },
          kept,
        )
    | inr other ↦ (
      record {
        object = w.object;
        element = w.element;
        bundle = w.bundle;
        stored = kept;
        found =
            slot-put_ne cu.priority_queue p P _ (slot-lt cu.priority_queue p at) other ∙ w.found;
        busy = w.busy;
        held = w.held;
        not_newer = w.not_newer;
        fresh = w.fresh;
        alone = λ j f ne h. still j f h ne;
      },
      kept,
    )
  ]
    where
      p : ℕ
      p = priority_of cu.bundle_type_to_priority (get_bundle_type b)

      P : ℕ
      P = priority_of cu.bundle_type_to_priority w.object.bundle_type

      new : ConflationElement H
      new = record e { bundle = some b; bundle_metadata = some (length cu.heap) }

      kept :
          get_elem?
            (cu.heap
              ++ record {
                bundle_type = get_bundle_type b;
                generation = get_generation b;
                transport_bundle_metadata = metadata;
              }
                ∷ [])
            m
          ≡ some w.object
      kept = get_elem?-append_lt cu.heap _ m (get_elem?-lt cu.heap m w.stored) ∙ w.stored

      still :
          (j : ℕ) (f : ConflationElement H)
          → slot (put cu.priority_queue p new) j ≡ some f
          → (P == j) ≡ false
          → f.is_in_process ≡ false
      still =
          each_slot cu p e new false [] at refl (λ j f. (P == j) ≡ false → f.is_in_process ≡ false)
            (λ ne. w.alone p e ne at) (λ j f _ h ne. w.alone j f ne h)
