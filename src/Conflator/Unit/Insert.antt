-- ===== src/Conflator/Unit/Insert.antt =====
-- insert of pkg/conflator/conflation_unit.go, against the newest generation that a slot has seen.
use mathlib.Core.Option.{some-injective}
use hub_of_hubs_status_trans.Base.{
  ℕ, ◌≡◌, ◌<◌, ◌≤◌, refl, ap, sym, subst, ◌∙◌, true, false, String, Option, none, some, arith, ◌==◌,
  leb, Option-cases, inl, inr, ◌⊎◌, get_elem?, length,
}
use hub_of_hubs_status_trans.Bundle.{Bundle, get_generation, get_bundle_type}
use hub_of_hubs_status_trans.Conflator.ReadyQueue.{ConflationReadyQueue}
use hub_of_hubs_status_trans.Conflator.Unit.{
  ConflationElement, ConflationUnit, TransportMetadata, slot, put, priority_of, store_bundle,
  holds_newer, insert, add_cu_to_ready_queue_if_needed,
}
use hub_of_hubs_status_trans.Conflator.Unit.Slots.{slot-lt, slot-put_self, slot-put_ne}
use hub_of_hubs_status_trans.Conflator.Unit.Invariant.{
  IsSlotSound, Inv, JobInv-IsActive, IsActive, add-Inv, QueueStep, stays,
}
use hub_of_hubs_status_trans.Conflator.Unit.Store.{
  Stores, overwrites, allocates, store_bundle-Stores, Stores-IsSound, Stores-flag, Stores-IsIdle,
}
use hub_of_hubs_status_trans.Conflator.Unit.StoreWorking.{Stores-IsWorking}

module _ {H : Type 0} where
  -- The newest generation that a slot has seen: that of the bundle it holds, or the last processed.
  abbrev pub newest : ConflationElement H → ℕ
  newest e = elim e.bundle [ none ↦ e.last_processed_bundle_generation | some b ↦ get_generation b ]

  -- The slot that a bundle belongs to.
  abbrev pub slot_of : ConflationUnit H → Bundle → ℕ
  slot_of cu b = priority_of cu.bundle_type_to_priority (get_bundle_type b)

  -- What an insertion of `b` makes of the slots: a newer bundle replaces what its slot held and
  -- touches nothing else; one that is no newer changes nothing at all.
  pub record Takes (b : Bundle) (cu cu' : ConflationUnit H) : Type 0 where
    pub newer :
        (e : ConflationElement H)
        → slot cu.priority_queue (slot_of cu b) ≡ some e
        → newest e < get_generation b
        → (e' : ConflationElement H) × (slot cu'.priority_queue (slot_of cu b) ≡ some e')
          × (e'.bundle ≡ some b)
          × (e'.last_processed_bundle_generation ≡ e.last_processed_bundle_generation)
          × (e'.is_in_process ≡ e.is_in_process)
    pub older :
        (e : ConflationElement H)
        → slot cu.priority_queue (slot_of cu b) ≡ some e
        → get_generation b ≤ newest e
        → cu' ≡ cu
    pub others :
        (j : ℕ) → (slot_of cu b == j) ≡ false → slot cu'.priority_queue j ≡ slot cu.priority_queue j

  -- The metadata object of the job that is out is as it was.
  abbrev pub SparesJob : Option ℕ → ConflationUnit H → ConflationUnit H → Type 0
  SparesJob none cu cu' = Unit {0}
  SparesJob (some m) cu cu' = get_elem? cu'.heap m ≡ get_elem? cu.heap m

  -- The two guards of `insert` together compare with the newest generation seen.
  guards-newest :
      (cu : ConflationUnit H) (i : ℕ) (e : ConflationElement H) (b : Bundle)
      → IsSlotSound cu.bundle_type_to_priority cu.heap i e
      → ((get_generation b ≤ newest e)
          × ((leb (get_generation b) e.last_processed_bundle_generation ≡ true)
              ⊎ (holds_newer e b ≡ true)))
        ⊎ ((newest e < get_generation b)
            × (e.last_processed_bundle_generation < get_generation b)
            × (leb (get_generation b) e.last_processed_bundle_generation ≡ false)
            × (holds_newer e b ≡ false))
  unfolding holds_newer
  guards-newest cu i e b s = elim (Option-cases e.bundle) [
    | inl empty ↦ ground (arith, empty)
    | inr (held, h) ↦ let (_, _, _, lt) = s.held held h in ground (arith, h, lt)
  ]

  insert-refused :
      (self : String) (b : Bundle) (metadata : TransportMetadata) (cu : ConflationUnit H)
      (rq : ConflationReadyQueue) (e : ConflationElement H)
      → slot cu.priority_queue (slot_of cu b) ≡ some e
      → (leb (get_generation b) e.last_processed_bundle_generation ≡ true)
        ⊎ (holds_newer e b ≡ true)
      → insert self b metadata cu rq ≡ some (cu, rq)
  unfolding insert
  insert-refused self b metadata cu rq e at guards = ground arith

  insert-accepted :
      (self : String) (b : Bundle) (metadata : TransportMetadata) (cu : ConflationUnit H)
      (rq : ConflationReadyQueue) (e : ConflationElement H)
      → slot cu.priority_queue (slot_of cu b) ≡ some e
      → leb (get_generation b) e.last_processed_bundle_generation ≡ false
      → holds_newer e b ≡ false
      → insert self b metadata cu rq
        ≡ add_cu_to_ready_queue_if_needed self (store_bundle cu (slot_of cu b) e b metadata) rq
  unfolding insert
  insert-accepted self b metadata cu rq e at old newer = ground arith

  Takes-put :
      (b : Bundle) (cu cu' : ConflationUnit H) (e e' : ConflationElement H)
      → slot cu.priority_queue (slot_of cu b) ≡ some e
      → newest e < get_generation b
      → cu'.priority_queue ≡ put cu.priority_queue (slot_of cu b) e'
      → e'.bundle ≡ some b
      → e'.last_processed_bundle_generation ≡ e.last_processed_bundle_generation
      → e'.is_in_process ≡ e.is_in_process
      → Takes b cu cu'
  Takes-put b cu cu' e e' at lt written held last busy = record {
    newer = λ f h _.
        let same : e ≡ f = some-injective e f (sym at ∙ h) in
        (
          e',
          rw written (slot-put_self cu.priority_queue (slot_of cu b) e' range),
          held,
          last ∙ ap (λ x. x.last_processed_bundle_generation) same,
          busy ∙ ap (λ x. x.is_in_process) same,
        );
    older = λ f h le.
        let same : e ≡ f = some-injective e f (sym at ∙ h) in
        let gens : newest e ≡ newest f = ap newest same in absurd (omega arith);
    others = λ j ne. rw written (slot-put_ne cu.priority_queue (slot_of cu b) j e' range ne);
  }
    where
      range : slot_of cu b < length cu.priority_queue
      range = slot-lt cu.priority_queue (slot_of cu b) at

  -- What the write of `store_bundle` does to the slots.
  Stores-Takes :
      (b : Bundle) (metadata : TransportMetadata) (cu : ConflationUnit H) (e : ConflationElement H)
      {cu1 : ConflationUnit H} (cu' : ConflationUnit H)
      → slot cu.priority_queue (slot_of cu b) ≡ some e
      → newest e < get_generation b
      → cu'.priority_queue ≡ cu1.priority_queue
      → Stores cu (slot_of cu b) e b metadata cu1
      → Takes b cu cu'
  Stores-Takes b metadata cu e cu' at lt same (overwrites m held free meta d) =
      Takes-put b cu cu' e _ at lt same refl refl refl
  Stores-Takes b metadata cu e cu' at lt same allocates =
      Takes-put b cu cu' e _ at lt same refl refl refl

  Stores-IsActive :
      (cu : ConflationUnit H) (e : ConflationElement H) (b : Bundle) (metadata : TransportMetadata)
      (job : Option ℕ) {cu' : ConflationUnit H}
      → slot cu.priority_queue (slot_of cu b) ≡ some e
      → holds_newer e b ≡ false
      → IsActive cu job
      → Stores cu (slot_of cu b) e b metadata cu'
      → IsActive cu' job × SparesJob job cu cu' × (cu'.is_in_ready_queue ≡ cu.is_in_ready_queue)
  Stores-IsActive cu e b metadata none at newer idle st =
      (Stores-IsIdle cu _ e b metadata at idle st, tt, Stores-flag cu _ e b metadata st)
  Stores-IsActive cu e b metadata (some m) at newer (w, f) st =
      let (w', spared) = Stores-IsWorking cu e b metadata m at newer w st in
      let flag = Stores-flag cu _ e b metadata st in ((w', flag ∙ f), spared ∙ sym w.stored, flag)

  -- What a call of `insert` has done, all of it.
  pub record Inserted (self : String) (b : Bundle) (job : Option ℕ) (cu : ConflationUnit H)
      (rq : ConflationReadyQueue) (cu' : ConflationUnit H) (rq' : ConflationReadyQueue)
      : Type 0 where
    pub kept : Inv cu' job
    pub takes : Takes b cu cu'
    pub spares : SparesJob job cu cu'
    pub queue_step : QueueStep self cu.is_in_ready_queue rq cu'.is_in_ready_queue rq'

  SparesJob-self : (job : Option ℕ) (cu : ConflationUnit H) → SparesJob job cu cu
  SparesJob-self none cu = tt
  SparesJob-self (some m) cu = refl

  SparesJob-trans :
      (job : Option ℕ) (cu cu1 cu' : ConflationUnit H)
      → SparesJob job cu cu1
      → cu'.heap ≡ cu1.heap
      → SparesJob job cu cu'
  SparesJob-trans none cu cu1 cu' s e = tt
  SparesJob-trans (some m) cu cu1 cu' s e = ap (λ h. get_elem? h m) e ∙ s

  -- On a unit that satisfies the invariant an insertion returns, and keeps the invariant with the
  -- same job out; a bundle that is no newer than the one held or the last one processed changes
  -- nothing, a newer one is held in its type's slot; no other slot changes, nor does the metadata
  -- object of the job; the ready queue stays as it was, or the unit, not flagged before, joins it.
  pub insert-Inserted :
      (self : String) (b : Bundle) (metadata : TransportMetadata) (cu : ConflationUnit H)
      (rq : ConflationReadyQueue) (job : Option ℕ)
      → Inv cu job
      → (cu' : ConflationUnit H) × (rq' : ConflationReadyQueue) × (insert self b metadata cu rq
          ≡ some (cu', rq'))
        × Inserted self b job cu rq cu' rq'
  insert-Inserted self b metadata cu rq job v =
      let sound = v.data_sound in
      let (e, at) = sound.shaped.filled _ (sound.shaped.in_range (get_bundle_type b)) in
      elim (guards-newest cu _ e b (sound.sound _ e at)) [
        | inl (le, guards) ↦ (
          cu,
          rq,
          insert-refused self b metadata cu rq e at guards,
          record {
            kept = v;
            takes = record {
              newer = λ f h lt.
                  let gens : newest e ≡ newest f = ap newest (some-injective e f (sym at ∙ h)) in
                  absurd (omega arith);
              older = λ f h le'. refl;
              others = λ j ne. refl;
            };
            spares = SparesJob-self job cu;
            queue_step = stays;
          },
        )
        | inr (lt, last, old, newer) ↦
            let st = store_bundle-Stores cu (slot_of cu b) e b metadata (sound.sound _ e at) in
            let (active, spared, flag) =
              Stores-IsActive cu e b metadata job at newer (JobInv-IsActive cu job v.job_sound)
                st in
            let (cu', rq', eq, kept, step, same) =
              add-Inv self (store_bundle cu (slot_of cu b) e b metadata) rq job
                (Stores-IsSound cu e b metadata sound at last st) active in
            (
              cu',
              rq',
              insert-accepted self b metadata cu rq e at old newer ∙ eq,
              record {
                kept = kept;
                takes = Stores-Takes b metadata cu e cu' at lt same.same_queue st;
                spares = SparesJob-trans job cu _ cu' spared same.same_heap;
                queue_step = subst (λ f. QueueStep self f rq cu'.is_in_ready_queue rq') flag step;
              },
            )
      ]
