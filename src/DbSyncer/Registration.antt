-- ===== src/DbSyncer/Registration.antt =====
-- RegisterBundleHandlerFunctions of clusters_transport_to_db_syncer.go and of
-- policies_transport_to_db_syncer.go, in the order of Setup in pkg/controller/controllers.go.
-- The handler functions are arguments.
use mathlib.Core.List.{Memᴰ}
use mathlib.Core.Option.{some-injective}
use mathlib.Core.Path.{subst₂}
use hub_of_hubs_status_trans.Base.{
  zero, suc, ◌≡◌, ◌<◌, refl, ap, sym, ◌∙◌, [], arith, split_dots, String, Option, some, none,
  length, str_eq, if◌then◌else◌,
}
use hub_of_hubs_status_trans.Bundle.{
  get_bundle_type, new_managed_clusters_status_bundle, new_clusters_per_policy_bundle,
  new_compliance_status_bundle, new_minimal_compliance_status_bundle,
}
use hub_of_hubs_status_trans.Conflator.Registration.{
  ConflationRegistration, Dependency, new_conflation_registration, with_dependency, new_dependency,
  managed_clusters_priority, clusters_per_policy_priority, compliance_status_priority,
  minimal_compliance_status_priority,
}
use hub_of_hubs_status_trans.Conflator.Unit.{priority_of}
use hub_of_hubs_status_trans.Conflator.Unit.New.{IsProper, registered}
use hub_of_hubs_status_trans.Conflator.Manager.{ConflationManager, register, new_conflation_manager}

-- The only dependency: compliance status waits for clusters per policy.
abbrev pub expected_dependency : String → Option Dependency
expected_dependency bundle_type =
    if str_eq bundle_type (get_bundle_type new_compliance_status_bundle)
    then some (new_dependency (get_bundle_type new_clusters_per_policy_bundle))
    else none

module _ {H : Type 0} where
  unfoldable pub register_managed_clusters_handlers : H → ConflationManager H → ConflationManager H
  register_managed_clusters_handlers h cm = register cm (
      new_conflation_registration managed_clusters_priority
        (get_bundle_type new_managed_clusters_status_bundle) h)

  -- The handlers for clusters per policy, compliance and minimal compliance.
  unfoldable pub register_policies_handlers : H → H → H → ConflationManager H → ConflationManager H
  register_policies_handlers clusters_per_policy compliance minimal cm =
      let clusters_per_policy_bundle_type = get_bundle_type new_clusters_per_policy_bundle in
      let cm1 = register cm (
        new_conflation_registration clusters_per_policy_priority clusters_per_policy_bundle_type
          clusters_per_policy) in
      let cm2 = register cm1 (
        with_dependency
          (new_conflation_registration compliance_status_priority
            (get_bundle_type new_compliance_status_bundle) compliance)
          (new_dependency clusters_per_policy_bundle_type)) in
      register cm2 (
        new_conflation_registration minimal_compliance_status_priority
          (get_bundle_type new_minimal_compliance_status_bundle) minimal)

  -- The loop of `Setup` over the syncers, as far as the conflation manager goes.
  unfoldable pub setup : H → H → H → H → ConflationManager H → ConflationManager H
  unfolding register_managed_clusters_handlers register_policies_handlers
  setup managed clusters_per_policy compliance minimal cm =
      register_policies_handlers clusters_per_policy compliance minimal
        (register_managed_clusters_handlers managed cm)

  pub setup-IsProper :
      (managed clusters_per_policy compliance minimal : H)
      → IsProper
          (setup managed clusters_per_policy compliance minimal
            (new_conflation_manager [])).registrations
  unfolding setup register new_conflation_manager new_conflation_registration with_dependency
      new_dependency get_bundle_type new_managed_clusters_status_bundle
      new_clusters_per_policy_bundle new_compliance_status_bundle
      new_minimal_compliance_status_bundle split_dots priority_of
  setup-IsProper managed clusters_per_policy compliance minimal = record {
    some_registration = omega arith;
    below = λ r. elim [
      | Memᴰ.head e ↦ ground (arith, e)
      | Memᴰ.tail (Memᴰ.head e) ↦ ground (arith, e)
      | Memᴰ.tail (Memᴰ.tail (Memᴰ.head e)) ↦ ground (arith, e)
      | Memᴰ.tail (Memᴰ.tail (Memᴰ.tail (Memᴰ.head e))) ↦ ground (arith, e)
      | Memᴰ.tail (Memᴰ.tail (Memᴰ.tail (Memᴰ.tail m))) ↦ elim m [ ]
    ];
    covers = elim [
      | zero ↦ λ _. (_, Memᴰ.head refl, refl)
      | suc zero ↦ λ _. (_, Memᴰ.tail (Memᴰ.head refl), refl)
      | suc (suc zero) ↦ λ _. (_, Memᴰ.tail (Memᴰ.tail (Memᴰ.head refl)), refl)
      | suc (suc (suc zero)) ↦ λ _. (_, Memᴰ.tail (Memᴰ.tail (Memᴰ.tail (Memᴰ.head refl))), refl)
      | suc (suc (suc (suc n))) ↦ λ h. absurd (omega arith)
    ];
    dependency_before = λ r d. elim [
      | Memᴰ.head e ↦ λ h. absurd (ground (arith, e))
      | Memᴰ.tail (Memᴰ.head e) ↦ λ h. absurd (ground (arith, e))
      | Memᴰ.tail (Memᴰ.tail (Memᴰ.head e)) ↦ λ h.
          let same : new_dependency (get_bundle_type new_clusters_per_policy_bundle) ≡ d =
            some-injective _ d (sym (ap (λ x. x.dependency) e) ∙ h) in
          subst₂
            (λ (x : Dependency) n.
              priority_of
                (registered
                  (setup managed clusters_per_policy compliance minimal
                    (new_conflation_manager [])).registrations
                  [])
                x.bundle_type
              < n)
            same (sym (ap (λ x. x.priority) e)) (omega arith)
      | Memᴰ.tail (Memᴰ.tail (Memᴰ.tail (Memᴰ.head e))) ↦ λ h. absurd (ground (arith, e))
      | Memᴰ.tail (Memᴰ.tail (Memᴰ.tail (Memᴰ.tail m))) ↦ elim m [ ]
    ];
  }

  -- `Setup` leaves four registrations, which are proper (the priorities are 0 to 3, each once, and a
  -- dependency comes before what depends on it); that of compliance status depends on clusters per
  -- policy, and no other depends on anything.
  pub setup-Registered :
      (managed clusters_per_policy compliance minimal : H)
      → let rs =
          (setup managed clusters_per_policy compliance minimal
            (new_conflation_manager [])).registrations in
        IsProper rs
        × (length rs ≡ 4)
        × ((r : ConflationRegistration H)
            → Memᴰ r rs
            → r.dependency ≡ expected_dependency r.bundle_type)
  unfolding setup register new_conflation_manager new_conflation_registration with_dependency
      new_dependency get_bundle_type new_managed_clusters_status_bundle
      new_clusters_per_policy_bundle new_compliance_status_bundle
      new_minimal_compliance_status_bundle split_dots
  setup-Registered managed clusters_per_policy compliance minimal = (
    setup-IsProper managed clusters_per_policy compliance minimal,
    refl,
    λ r. elim [
      | Memᴰ.head e ↦ rw e refl
      | Memᴰ.tail (Memᴰ.head e) ↦ rw e refl
      | Memᴰ.tail (Memᴰ.tail (Memᴰ.head e)) ↦ rw e refl
      | Memᴰ.tail (Memᴰ.tail (Memᴰ.tail (Memᴰ.head e))) ↦ rw e refl
      | Memᴰ.tail (Memᴰ.tail (Memᴰ.tail (Memᴰ.tail m))) ↦ elim m [ ]
    ],
  )
