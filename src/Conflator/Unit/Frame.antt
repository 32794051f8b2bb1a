-- ===== src/Conflator/Unit/Frame.antt =====
-- What a change of one slot, or of one metadata object, leaves as it was.
use mathlib.Core.Path.{subst₂}
use mathlib.Core.Option.{some-injective}
use hub_of_hubs_status_trans.Base.{
  ℕ, ◌≡◌, ◌<◌, ap, sym, ◌∙◌, Bool, false, String, List, [], ◌∷◌, ◌++◌, some, arith, length, ◌==◌,
  Bool-cases, inl, inr, get_elem?, modify, ==_iff, get_elem?-modify_ne, get_elem?-append_lt,
  get_elem?-lt,
}
use hub_of_hubs_status_trans.Bundle.{Bundle}
use hub_of_hubs_status_trans.Conflator.Unit.{
  ConflationElement, ConflationUnit, BundleMetadata, slot, put, priority_of,
}
use hub_of_hubs_status_trans.Conflator.Unit.Slots.{slot-lt, slot-put_self, slot-put_ne, length-put}
use hub_of_hubs_status_trans.Conflator.Unit.Total.{IsShaped}
use hub_of_hubs_status_trans.Conflator.Unit.Invariant.{Describes, IsSlotSound, IsSound}

-- Objects of different slots are different objects.
pub objects_ne :
    (priorities : List (String × ℕ)) (heap : List BundleMetadata) (i j k m : ℕ)
    {o p : BundleMetadata}
    → get_elem? heap k ≡ some o
    → get_elem? heap m ≡ some p
    → priority_of priorities o.bundle_type ≡ i
    → priority_of priorities p.bundle_type ≡ j
    → (i == j) ≡ false
    → (k == m) ≡ false
objects_ne priorities heap i j k m {o} {p} at at' e e' ne = elim (Bool-cases (k == m)) [
  | inl same ↦
      let pointers : k ≡ m = (==_iff k m).0 same in
      let objects : some o ≡ some p = sym at ∙ ap (get_elem? heap) pointers ∙ at' in
      ground (arith, objects)
  | inr f ↦ f
]

module _ {priorities : List (String × ℕ)} {heap : List BundleMetadata} where
  pub Describes-ne :
      {i j k m : ℕ} {b c : Bundle}
      → Describes priorities heap i k b
      → Describes priorities heap j m c
      → (i == j) ≡ false
      → (k == m) ≡ false
  Describes-ne {i} {j} {k} {m} d d' ne =
      objects_ne priorities heap i j k m d.stored d'.stored d.same_slot d'.same_slot ne

  pub Describes-modify :
      {j m : ℕ} {c : Bundle} (f : BundleMetadata → BundleMetadata) (k : ℕ)
      → Describes priorities heap j m c
      → (k == m) ≡ false
      → Describes priorities (modify f heap k) j m c
  Describes-modify {m} f k d ne = record {
    object = d.object;
    stored = get_elem?-modify_ne f heap k m ne ∙ d.stored;
    same_slot = d.same_slot;
    same_generation = d.same_generation;
  }

  pub Describes-append :
      {j m : ℕ} {c : Bundle} (new : BundleMetadata)
      → Describes priorities heap j m c
      → Describes priorities (heap ++ new ∷ []) j m c
  Describes-append {m} new d = record {
    object = d.object;
    stored = get_elem?-append_lt heap (new ∷ []) m (get_elem?-lt heap m d.stored) ∙ d.stored;
    same_slot = d.same_slot;
    same_generation = d.same_generation;
  }

  pub IsSlotSound-modify :
      {H : Type 0} {i j k : ℕ} {b : Bundle} {e : ConflationElement H}
      (f : BundleMetadata → BundleMetadata)
      → Describes priorities heap i k b
      → (i == j) ≡ false
      → IsSlotSound priorities heap j e
      → IsSlotSound priorities (modify f heap k) j e
  IsSlotSound-modify {k} f d ne s = record {
    held = λ c h.
        let (m, p, d', lt) = s.held c h in
        (m, p, Describes-modify f k d' (Describes-ne d d' ne), lt);
    bare = s.bare;
  }

  pub IsSlotSound-append :
      {H : Type 0} {j : ℕ} {e : ConflationElement H} (new : BundleMetadata)
      → IsSlotSound priorities heap j e
      → IsSlotSound priorities (heap ++ new ∷ []) j e
  IsSlotSound-append new s = record {
    held = λ c h. let (m, p, d', lt) = s.held c h in (m, p, Describes-append new d', lt);
    bare = s.bare;
  }

module _ {H : Type 0} where
  -- The unit after a write of slot `p`, of the queue flag and of the heap.
  abbrev pub written :
      ConflationUnit H → ℕ → ConflationElement H → Bool → List BundleMetadata → ConflationUnit H
  written cu p e queued heap = record cu {
    priority_queue = put cu.priority_queue p e;
    is_in_ready_queue = queued;
    heap = heap;
  }

  module _ (cu : ConflationUnit H) (p : ℕ) (old new : ConflationElement H) (queued : Bool)
      (heap : List BundleMetadata) (at : slot cu.priority_queue p ≡ some old)
      (kept : new.dependency ≡ old.dependency) where
    -- A statement about every slot after the write, from one about the new element and one about
    -- the other slots.
    pub each_slot {ℓ} :
        (P : ℕ → ConflationElement H → Type ℓ)
        → P p new
        → ((j : ℕ) (f : ConflationElement H)
            → (p == j) ≡ false
            → slot cu.priority_queue j ≡ some f
            → P j f)
        → (j : ℕ) (f : ConflationElement H) → slot (put cu.priority_queue p new) j ≡ some f
        → P j f
    each_slot P here there j f h = elim (Bool-cases (p == j)) [
      | inl same ↦
          let e : p ≡ j = (==_iff p j).0 same in
          let n : some new ≡ some f =
            sym (slot-put_self cu.priority_queue p new (slot-lt cu.priority_queue p at))
            ∙ ap (slot (put cu.priority_queue p new)) e
            ∙ h in
          subst₂ P e (some-injective _ _ n) here
      | inr other ↦
          there j f other
            (sym (slot-put_ne cu.priority_queue p j new (slot-lt cu.priority_queue p at) other) ∙ h)
    ]

    pub IsShaped-written : IsShaped cu → IsShaped (written cu p new queued heap)
    IsShaped-written s = record {
      filled = λ i lt. elim (Bool-cases (p == i)) [
        | inl same ↦ (
          new,
          ap (slot (put cu.priority_queue p new)) (sym ((==_iff p i).0 same))
              ∙ slot-put_self cu.priority_queue p new (slot-lt cu.priority_queue p at),
        )
        | inr other ↦
            let lt' : i < length cu.priority_queue =
              omega (arith, length-put cu.priority_queue p new) in
            let (f, h) = s.filled i lt' in
            (f, slot-put_ne cu.priority_queue p i new (slot-lt cu.priority_queue p at) other ∙ h)
      ];
      in_range = λ t. omega (arith, length-put cu.priority_queue p new, s.in_range t);
      dependency_below = λ i e d h.
          each_slot
            (λ j f.
              f.dependency ≡ some d → priority_of cu.bundle_type_to_priority d.bundle_type < j)
            (λ dep. s.dependency_below p old d at (sym kept ∙ dep))
            (λ j f _ h' dep. s.dependency_below j f d h' dep) i e h;
    }

    -- Soundness after the write, from the new slot's and from the other slots' over the new heap.
    pub IsSound-written :
        IsSound cu
        → IsSlotSound cu.bundle_type_to_priority heap p new
        → ((j : ℕ) (f : ConflationElement H)
            → (p == j) ≡ false
            → IsSlotSound cu.bundle_type_to_priority cu.heap j f
            → IsSlotSound cu.bundle_type_to_priority heap j f)
        → IsSound (written cu p new queued heap)
    IsSound-written s here there = record {
      shaped = IsShaped-written s.shaped;
      sound =
          each_slot (IsSlotSound cu.bundle_type_to_priority heap) here
            (λ j f ne h. there j f ne (s.sound j f h));
    }
