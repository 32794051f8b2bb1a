-- ===== src/Conflator/Unit/Chains.antt =====
-- The recursion of isCurrentOrAnyDependencyInProcess in pkg/conflator/conflation_unit.go, whose
-- model takes fuel.
use hub_of_hubs_status_trans.Base.{
  ℕ, zero, suc, ◌+◌, ◌<◌, ◌≡◌, refl, ◌∙◌, Bool, Option, some, arith, Bool-cases, Option-cases, inl,
  inr, ap, ◌-◌,
}
use hub_of_hubs_status_trans.Conflator.Unit.{
  ConflationElement, ConflationUnit, slot, is_current_or_any_dependency_in_process,
}
use hub_of_hubs_status_trans.Conflator.Unit.Invariant.{Inv}
use hub_of_hubs_status_trans.Conflator.Unit.Total.{IsShaped, chain-total}

module _ {H : Type 0} where
  -- With fuel for the chain from slot `i`, one unit more changes nothing.
  chain-suc :
      (cu : ConflationUnit H) (shaped : IsShaped cu) (fuel i : ℕ) (e : ConflationElement H)
      → slot cu.priority_queue i ≡ some e
      → i < fuel
      → is_current_or_any_dependency_in_process (suc fuel) cu e
        ≡ is_current_or_any_dependency_in_process fuel cu e
  unfolding is_current_or_any_dependency_in_process
  chain-suc cu shaped zero i e h lt = elim lt [ ]
  chain-suc cu shaped (suc fuel) i e h lt = elim (Bool-cases e.is_in_process) [
    | inl busy ↦ rw busy refl
    | inr free ↦ elim (Option-cases e.dependency) [
      | inl alone ↦ rw (free, alone) refl
      | inr (d, dep) ↦
          let below = shaped.dependency_below i e d h dep in
          let (e', h') = shaped.filled _ (shaped.in_range d.bundle_type) in
          rw (free, dep, h') (chain-suc cu shaped fuel _ e' h' (omega arith))
    ]
  ]

  chain-add :
      (cu : ConflationUnit H) (shaped : IsShaped cu) (i : ℕ) (e : ConflationElement H)
      → slot cu.priority_queue i ≡ some e
      → (k : ℕ)
      → is_current_or_any_dependency_in_process (suc i + k) cu e
        ≡ is_current_or_any_dependency_in_process (suc i) cu e
  chain-add cu shaped i e h zero =
      ap (λ n. is_current_or_any_dependency_in_process n cu e) (omega arith)
  chain-add cu shaped i e h (suc k) =
      ap (λ n. is_current_or_any_dependency_in_process n cu e) {y = suc (suc i + k)} (omega arith)
      ∙ chain-suc cu shaped (suc i + k) i e h (omega arith)
      ∙ chain-add cu shaped i e h k

  -- On a unit that satisfies the invariant the recursion along the dependencies ends: from the
  -- element at priority `i` it has an answer after `i + 1` calls at most, and more fuel gives the
  -- same answer.
  pub chain-terminates :
      (cu : ConflationUnit H) (job : Option ℕ) (i : ℕ) (e : ConflationElement H)
      → Inv cu job
      → slot cu.priority_queue i ≡ some e
      → (r : Bool) × ((fuel : ℕ)
          → i < fuel
          → is_current_or_any_dependency_in_process fuel cu e ≡ some r)
  chain-terminates cu job i e v h =
      let (r, found) = chain-total cu v.data_sound.shaped (suc i) i e h (omega arith) in
      (
        r,
        λ fuel lt.
            let k : (n : ℕ) × (fuel ≡ suc i + n) = (fuel - suc i, omega arith) in
            ap (λ n. is_current_or_any_dependency_in_process n cu e) (k.1)
            ∙ chain-add cu v.data_sound.shaped i e h k.0
            ∙ found,
      )
