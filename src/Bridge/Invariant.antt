-- ===== src/Bridge/Invariant.antt =====
-- The invariant of the running bridge, and the balance of queue flags and queue entries.
use hub_of_hubs_status_trans.Base.{
  ℕ, ◌+◌, ◌≤◌, ◌≡◌, refl, subst, ◌∙◌, false, String, List, Option, none, some, arith, Bool-cases,
  inl, inr, str_eq, eq_iff, lookup, assign, lookup-assign,
}
use hub_of_hubs_status_trans.Bundle.{Bundle, get_leaf_hub_name}
use hub_of_hubs_status_trans.Conflator.Unit.{ConflationUnit}
use hub_of_hubs_status_trans.Conflator.Manager.{ConflationManager}
use hub_of_hubs_status_trans.Conflator.Manager.Routing.{ManagerInv, Routed}
use hub_of_hubs_status_trans.Bridge.{Bridge}
use hub_of_hubs_status_trans.Bridge.Occurrences.{count, to_nat, QueueStep-balance, QueueStep-other}
use hub_of_hubs_status_trans.Bridge.Jobs.{job_of, IsOrderly}

-- Whether the dispatcher holds the unit of a leaf hub, as a number.
abbrev pub held : String → Option String → ℕ
held hub none = 0
held hub (some h) = to_nat (str_eq h hub)

module _ {H : Type 0} where
  -- How often a unit stands in the ready queue or in the dispatcher's hand.
  abbrev pub occurrences : String → Bridge H → ℕ
  occurrences hub s = count hub s.manager.ready_queue + held hub s.holding

  -- A unit's queue flag as a number; a leaf hub that has no unit has none.
  unfoldable pub flag_of : String → List (String × ConflationUnit H) → ℕ
  flag_of hub units = elim (lookup hub units) [ none ↦ 0 | some cu ↦ to_nat cu.is_in_ready_queue ]

  pub record BridgeInv (s : Bridge H) : Type 0 where
    -- every unit satisfies its own invariant, with the job that is out for it
    pub manager_sound : ManagerInv s.manager (λ hub. job_of hub s.pool.running)
    -- no two jobs are out for one leaf hub
    pub orderly : IsOrderly s.pool.running
    -- a unit is queued at most once, and only if its flag says so
    pub once : (hub : String) → occurrences hub s ≤ flag_of hub s.manager.conflation_units

  -- The flag of `hub` changes with its occurrences.
  abbrev pub Balanced : String → Bridge H → Bridge H → Type 0
  Balanced hub s s' =
      occurrences hub s' + flag_of hub s.manager.conflation_units
      ≡ occurrences hub s + flag_of hub s'.manager.conflation_units

  pub flag_of-some :
      (hub : String) (units : List (String × ConflationUnit H)) {cu : ConflationUnit H}
      → lookup hub units ≡ some cu
      → flag_of hub units ≡ to_nat cu.is_in_ready_queue
  unfolding flag_of
  flag_of-some hub units h = rw (h, flag_of)

  pub flag_of-none :
      (hub : String) (units : List (String × ConflationUnit H))
      → lookup hub units ≡ none
      → flag_of hub units ≡ 0
  unfolding flag_of
  flag_of-none hub units h = rw (h, flag_of)

  flag_of-ext :
      (hub : String) (units units' : List (String × ConflationUnit H))
      → lookup hub units' ≡ lookup hub units
      → flag_of hub units' ≡ flag_of hub units
  unfolding flag_of
  flag_of-ext hub units units' h = rw (h, flag_of)

  pub flag_of-assign_self :
      (hub : String) (cu : ConflationUnit H) (units : List (String × ConflationUnit H))
      → flag_of hub (assign hub cu units) ≡ to_nat cu.is_in_ready_queue
  flag_of-assign_self hub cu units =
      flag_of-some hub _ {cu = cu} (lookup-assign hub hub cu units ∙ rw ((eq_iff hub hub).1 refl))

  pub flag_of-assign_ne :
      (hub other : String) (cu : ConflationUnit H) (units : List (String × ConflationUnit H))
      → str_eq hub other ≡ false
      → flag_of other (assign hub cu units) ≡ flag_of other units
  flag_of-assign_ne hub other cu units ne =
      flag_of-ext other units _ (lookup-assign hub other cu units ∙ rw ne)

  Routed-flag_before :
      (b : Bundle) (cm : ConflationManager H) (jobs : String → Option ℕ) (cm' : ConflationManager H)
      (r : Routed b cm jobs cm')
      → flag_of (get_leaf_hub_name b) cm.conflation_units ≡ to_nat r.before.is_in_ready_queue
  Routed-flag_before b cm jobs cm' r = elim r.found.origin [
    | inl at ↦ flag_of-some _ _ at
    | inr (missing, _, flag) ↦ flag_of-none _ _ missing ∙ rw flag
  ]

  -- An insertion keeps every balance.
  pub receive-Balanced :
      (s : Bridge H) (b : Bundle) (cm : ConflationManager H) (jobs : String → Option ℕ)
      → Routed b s.manager jobs cm
      → (hub : String) → Balanced hub s (record s { manager = cm })
  receive-Balanced s b cm jobs r hub = elim (Bool-cases (str_eq (get_leaf_hub_name b) hub)) [
    | inl same ↦
        subst (λ h. Balanced h s (record s { manager = cm }))
          ((eq_iff (get_leaf_hub_name b) hub).0 same)
          (omega (
            arith,
            QueueStep-balance _ _ _ r.inserted.queue_step,
            Routed-flag_before b s.manager jobs cm r,
            flag_of-some _ _ r.stored,
          ))
    | inr other ↦ omega (
      arith,
      QueueStep-other _ hub _ _ other r.inserted.queue_step,
      flag_of-ext hub s.manager.conflation_units cm.conflation_units (r.others hub other),
    )
  ]
