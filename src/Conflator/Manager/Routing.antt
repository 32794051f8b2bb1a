-- ===== src/Conflator/Manager/Routing.antt =====
-- Insert of pkg/conflator/conflation_manager.go, and the units that it does not concern.
use mathlib.Core.Option.{some-injective}
use mathlib.Core.Path.{subst₂}
use hub_of_hubs_status_trans.Base.{
  ℕ, ◌≡◌, refl, ap, sym, subst, ◌∙◌, false, String, Option, none, some, arith, Option-cases,
  Bool-cases, inl, inr, ◌⊎◌, lookup, assign, lookup-assign, str_eq, eq_iff,
}
use hub_of_hubs_status_trans.Bundle.{Bundle, get_leaf_hub_name}
use hub_of_hubs_status_trans.Conflator.Unit.{ConflationUnit, TransportMetadata}
use hub_of_hubs_status_trans.Conflator.Unit
use hub_of_hubs_status_trans.Conflator.Unit.Invariant.{Inv}
use hub_of_hubs_status_trans.Conflator.Unit.Insert.{Inserted, insert-Inserted}
use hub_of_hubs_status_trans.Conflator.Unit.New.{IsProper, new_conflation_unit-Inv}
use hub_of_hubs_status_trans.Conflator.Manager.{ConflationManager, get_conflation_unit, insert}

module _ {H : Type 0} where
  -- Every unit satisfies its invariant; `jobs` tells which leaf hubs have a job out with a worker.
  pub record ManagerInv (cm : ConflationManager H) (jobs : String → Option ℕ) : Type 0 where
    pub proper : IsProper cm.registrations
    pub units :
        (hub : String) (cu : ConflationUnit H)
        → lookup hub cm.conflation_units ≡ some cu
        → Inv cu (jobs hub)
    pub absent : (hub : String) → lookup hub cm.conflation_units ≡ none → jobs hub ≡ none

  -- The unit `cu` that a leaf hub has, or is given now.
  pub record Found (cm : ConflationManager H) (hub : String) (job : Option ℕ)
      (cu : ConflationUnit H) : Type 0 where
    pub kept : Inv cu job
    pub origin :
        (lookup hub cm.conflation_units ≡ some cu)
        ⊎ (lookup hub cm.conflation_units ≡ none)
          × (Unit.new_conflation_unit cm.registrations ≡ some cu)
          × (cu.is_in_ready_queue ≡ false)

  get_conflation_unit-Found :
      (cm : ConflationManager H) (hub : String) (jobs : String → Option ℕ)
      → ManagerInv cm jobs
      → (cm' : ConflationManager H) × (cu : ConflationUnit H) × (get_conflation_unit cm hub
          ≡ some (cm', cu))
        × Found cm hub (jobs hub) cu
        × (cm'.registrations ≡ cm.registrations)
        × (cm'.ready_queue ≡ cm.ready_queue)
        × ((other : String)
            → str_eq hub other ≡ false
            → lookup other cm'.conflation_units ≡ lookup other cm.conflation_units)
  unfolding get_conflation_unit
  get_conflation_unit-Found cm hub jobs v = elim (Option-cases (lookup hub cm.conflation_units)) [
    | inr (cu, at) ↦ (
      cm,
      cu,
      ground (arith, at),
      record { kept = v.units hub cu at; origin = inl at },
      refl,
      refl,
      λ other ne. refl,
    )
    | inl missing ↦
        let (cu, eq, kept, flag, _) = new_conflation_unit-Inv cm.registrations v.proper in
        (
          record cm { conflation_units = assign hub cu cm.conflation_units },
          cu,
          ground (arith, missing, eq),
          record {
            kept = subst (Inv cu) (sym (v.absent hub missing)) kept;
            origin = inr (missing, eq, flag);
          },
          refl,
          refl,
          λ other ne. lookup-assign hub other cu cm.conflation_units ∙ rw ne,
        )
  ]

  -- What an insertion does to the manager: the unit of the bundle's leaf hub, found or created,
  -- has received the bundle; the units of all other leaf hubs are as they were.
  pub record Routed (b : Bundle) (cm : ConflationManager H) (jobs : String → Option ℕ)
      (cm' : ConflationManager H) : Type 0 where
    pub before : ConflationUnit H
    pub after : ConflationUnit H
    pub found : Found cm (get_leaf_hub_name b) (jobs (get_leaf_hub_name b)) before
    pub stored : lookup (get_leaf_hub_name b) cm'.conflation_units ≡ some after
    pub inserted :
        Inserted
          (get_leaf_hub_name b)
          b
          (jobs (get_leaf_hub_name b))
          before
          cm.ready_queue
          after
          cm'.ready_queue
    pub others :
        (hub : String)
        → str_eq (get_leaf_hub_name b) hub ≡ false
        → lookup hub cm'.conflation_units ≡ lookup hub cm.conflation_units
    pub same_registrations : cm'.registrations ≡ cm.registrations

  Routed-ManagerInv :
      (b : Bundle) (cm : ConflationManager H) (jobs : String → Option ℕ) (cm' : ConflationManager H)
      → ManagerInv cm jobs
      → Routed b cm jobs cm'
      → ManagerInv cm' jobs
  Routed-ManagerInv b cm jobs cm' v r = record {
    proper = subst IsProper (sym r.same_registrations) v.proper;
    units = λ hub cu h. elim (Bool-cases (str_eq (get_leaf_hub_name b) hub)) [
      | inl same ↦
          let e : get_leaf_hub_name b ≡ hub = (eq_iff (get_leaf_hub_name b) hub).0 same in
          let one : some r.after ≡ some cu =
            sym r.stored ∙ ap (λ k. lookup k cm'.conflation_units) e ∙ h in
          subst₂ (λ x k. Inv x (jobs k)) (some-injective r.after cu one) e r.inserted.kept
      | inr other ↦ v.units hub cu (sym (r.others hub other) ∙ h)
    ];
    absent = λ hub h. elim (Bool-cases (str_eq (get_leaf_hub_name b) hub)) [
      | inl same ↦
          let e : get_leaf_hub_name b ≡ hub = (eq_iff (get_leaf_hub_name b) hub).0 same in
          let stored : lookup hub cm'.conflation_units ≡ some r.after =
            subst (λ k. lookup k cm'.conflation_units ≡ some r.after) e r.stored in
          cc
      | inr other ↦ v.absent hub (sym (r.others hub other) ∙ h)
    ];
  }

  -- On a manager whose units satisfy the invariant an insertion returns, reaches the unit of the
  -- bundle's leaf hub, which is created if need be, changes no other unit, and keeps the invariant.
  pub insert-Routed :
      (cm : ConflationManager H) (b : Bundle) (metadata : TransportMetadata)
      (jobs : String → Option ℕ)
      → ManagerInv cm jobs
      → (cm' : ConflationManager H) × (insert cm b metadata ≡ some cm')
        × Routed b cm jobs cm'
        × ManagerInv cm' jobs
  unfolding insert
  insert-Routed cm b metadata jobs v =
      let hub = get_leaf_hub_name b in
      let (cm1, cu, eq, found, regs, rq1, others) = get_conflation_unit-Found cm hub jobs v in
      let (cu', rq', eq', inserted) =
        insert-Inserted hub b metadata cu cm1.ready_queue (jobs hub) found.kept in
      let cm' : ConflationManager H = record cm1 {
        conflation_units = assign hub cu' cm1.conflation_units;
        ready_queue = rq';
      } in
      let routed : Routed b cm jobs cm' = record {
        before = cu;
        after = cu';
        found = found;
        stored = lookup-assign hub hub cu' cm1.conflation_units ∙ rw ((eq_iff hub hub).1 refl);
        inserted = subst (λ q. Inserted hub b (jobs hub) cu q cu' rq') rq1 inserted;
        others =
            λ other ne. lookup-assign hub other cu' cm1.conflation_units ∙ rw ne (others other ne);
        same_registrations = regs;
      } in
      (cm', rw (eq, eq'), routed, Routed-ManagerInv b cm jobs cm' v routed)
