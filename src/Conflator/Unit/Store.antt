-- ===== src/Conflator/Unit/Store.antt =====
-- The second half of insert of pkg/conflator/conflation_unit.go: what it writes, and to which
-- metadata object.
use mathlib.Core.Option.{some-injective}
use hub_of_hubs_status_trans.Base.{
  ℕ, ◌≡◌, ◌<◌, refl, sym, subst, ◌∙◌, false, String, List, [], ◌∷◌, ◌++◌, some, arith, length,
  Bool-cases, Option-cases, inl, inr, modify, get_elem?-modify_self, get_elem?-append_length,
}
use hub_of_hubs_status_trans.Bundle.{Bundle, get_generation, get_bundle_type}
use hub_of_hubs_status_trans.Conflator.Unit.{
  ConflationElement, ConflationUnit, BundleMetadata, TransportMetadata, slot, priority_of, update,
  reusable, store_bundle,
}
use hub_of_hubs_status_trans.Conflator.Unit.Total.{IsIdle}
use hub_of_hubs_status_trans.Conflator.Unit.Invariant.{Describes, IsSlotSound, IsSound}
use hub_of_hubs_status_trans.Conflator.Unit.Frame.{
  written, IsSlotSound-modify, IsSlotSound-append, IsSound-written, each_slot,
}

module _ {H : Type 0} where
  pub IsSlotSound-holding :
      (priorities : List (String × ℕ)) (heap : List BundleMetadata) (i m : ℕ) (b : Bundle)
      (e : ConflationElement H)
      → e.bundle ≡ some b
      → e.bundle_metadata ≡ some m
      → Describes priorities heap i m b
      → e.last_processed_bundle_generation < get_generation b
      → IsSlotSound priorities heap i e
  IsSlotSound-holding priorities heap i m b e held meta d lt = record {
    held = λ c h.
        subst
          (λ x.
            (k : ℕ) × (e.bundle_metadata ≡ some k)
            × Describes priorities heap i k x
            × (e.last_processed_bundle_generation < get_generation x))
          (some-injective b c (sym held ∙ h)) (m, meta, d, lt);
    bare = λ h. cc;
  }

  -- What `store_bundle` writes: over the old metadata object, or beside it.
  pub data Stores (cu : ConflationUnit H) (p : ℕ) (e : ConflationElement H) (b : Bundle)
      (metadata : TransportMetadata) : ConflationUnit H → Type 0 where
    overwrites :
        (m : ℕ) (held : Bundle)
        → e.is_in_process ≡ false
        → e.bundle_metadata ≡ some m
        → Describes cu.bundle_type_to_priority cu.heap p m held
        → Stores cu p e b metadata (
            written cu p
              (record e { bundle = some b })
              cu.is_in_ready_queue
              (modify (update (get_generation b) metadata) cu.heap m))
    allocates : Stores cu p e b metadata (
        written cu p
          (record e { bundle = some b; bundle_metadata = some (length cu.heap) })
          cu.is_in_ready_queue
          (cu.heap
            ++ record {
              bundle_type = get_bundle_type b;
              generation = get_generation b;
              transport_bundle_metadata = metadata;
            }
              ∷ []))

  pub store_bundle-Stores :
      (cu : ConflationUnit H) (p : ℕ) (e : ConflationElement H) (b : Bundle)
      (metadata : TransportMetadata)
      → IsSlotSound cu.bundle_type_to_priority cu.heap p e
      → Stores cu p e b metadata (store_bundle cu p e b metadata)
  unfolding store_bundle reusable
  store_bundle-Stores cu p e b metadata s = elim (Bool-cases e.is_in_process) [
    | inl busy ↦ rw (busy, reusable) allocates
    | inr free ↦ elim (Option-cases e.bundle_metadata) [
      | inl bare ↦ rw (free, bare, reusable) allocates
      | inr (m, meta) ↦ elim (Option-cases e.bundle) [
        | inl empty ↦ cc (s.bare empty)
        | inr (held, h) ↦
            let (k, meta', d, _) = s.held held h in
            let same : k ≡ m = some-injective k m (sym meta' ∙ meta) in
            subst (Stores cu p e b metadata) (sym (stored m free meta)) (
              overwrites m held free meta
                (subst (λ x. Describes cu.bundle_type_to_priority cu.heap p x held) same d))
      ]
    ]
  ]
    where
      stored :
          (m : ℕ)
          → e.is_in_process ≡ false
          → e.bundle_metadata ≡ some m
          → store_bundle cu p e b metadata
            ≡ written cu p
                (record e { bundle = some b })
                cu.is_in_ready_queue
                (modify (update (get_generation b) metadata) cu.heap m)
      stored m free meta = ground arith

  -- A newer bundle, stored in the slot of its type, keeps the unit's data sound.
  pub Stores-IsSound :
      (cu : ConflationUnit H) (e : ConflationElement H) (b : Bundle) (metadata : TransportMetadata)
      {cu' : ConflationUnit H}
      → let p = priority_of cu.bundle_type_to_priority (get_bundle_type b) in
        IsSound cu
        → slot cu.priority_queue p ≡ some e
        → e.last_processed_bundle_generation < get_generation b
        → Stores cu p e b metadata cu'
        → IsSound cu'
  unfolding update
  Stores-IsSound cu e b metadata s at lt (overwrites m held free meta d) =
      IsSound-written cu _ e (record e { bundle = some b }) _ _ at refl s
        (IsSlotSound-holding _ _ _ m b _ refl meta
          (record {
            object = update (get_generation b) metadata d.object;
            stored = get_elem?-modify_self (update (get_generation b) metadata) cu.heap m d.stored;
            same_slot = d.same_slot;
            same_generation = refl;
          })
          lt)
        (λ j f ne. IsSlotSound-modify _ d ne)
  Stores-IsSound cu e b metadata s at lt allocates =
      IsSound-written cu _ e (record e { bundle = some b; bundle_metadata = some (length cu.heap) })
        _ _ at refl s
        (IsSlotSound-holding _ _ _ (length cu.heap) b _ refl refl
          (record {
            object = record {
              bundle_type = get_bundle_type b;
              generation = get_generation b;
              transport_bundle_metadata = metadata;
            };
            stored = get_elem?-append_length cu.heap _;
            same_slot = refl;
            same_generation = refl;
          })
          lt)
        (λ j f ne. IsSlotSound-append _)

  pub Stores-flag :
      (cu : ConflationUnit H) (p : ℕ) (e : ConflationElement H) (b : Bundle)
      (metadata : TransportMetadata) {cu' : ConflationUnit H}
      → Stores cu p e b metadata cu'
      → cu'.is_in_ready_queue ≡ cu.is_in_ready_queue
  Stores-flag cu p e b metadata (overwrites m held free meta d) = refl
  Stores-flag cu p e b metadata allocates = refl

  pub Stores-IsIdle :
      (cu : ConflationUnit H) (p : ℕ) (e : ConflationElement H) (b : Bundle)
      (metadata : TransportMetadata) {cu' : ConflationUnit H}
      → slot cu.priority_queue p ≡ some e
      → IsIdle cu.priority_queue
      → Stores cu p e b metadata cu'
      → IsIdle cu'.priority_queue
  Stores-IsIdle cu p e b metadata at idle (overwrites m held free meta d) =
      each_slot cu p e _ false [] at refl (λ j f. f.is_in_process ≡ false) (idle p e at)
        (λ j f ne. idle j f)
  Stores-IsIdle cu p e b metadata at idle allocates =
      each_slot cu p e _ false [] at refl (λ j f. f.is_in_process ≡ false) (idle p e at)
        (λ j f ne. idle j f)
