-- ===== src/DbSyncer/MinimalCompliance/Success.antt =====
-- handleMinimalComplianceBundle on a database without errors.
use hub_of_hubs_status_trans.Base.{◌≡◌, refl, ℕ, String, List, [], ◌∷◌, none}
use hub_of_hubs_status_trans.Bundle.{
  Bundle, Object, managed_cluster, clusters_per_policy, policy_compliance_status,
  minimal_policy_compliance_status, get_objects, get_leaf_hub_name,
}
use hub_of_hubs_status_trans.Db.{rows}
use hub_of_hubs_status_trans.Db.Sets.{Sets}
use hub_of_hubs_status_trans.Db.Policies.{AggregatedPoliciesStatusDb}
use hub_of_hubs_status_trans.DbSyncer.MinimalCompliance.{
  update_policies, delete_policies, handle_minimal_compliance_bundle,
}

-- No call on the database fails.
pub record IsWorking {D S : Type 0} (client : AggregatedPoliciesStatusDb D S) : Type 0 where
  pub fetches :
      (hub : String) (d : D) → (ids : S) × (client.get_policy_ids_by_leaf_hub hub d ≡ rows ids)
  pub updates :
      (hub p : String) (applied non_compliant : ℕ) (d : D)
      → (client.insert_or_update_aggregated_policy_compliance hub p applied non_compliant d).1
        ≡ none
  pub deletes : (hub p : String) (d : D) → (client.delete_all_compliance_rows hub p d).1 ≡ none

module _ {D S : Type 0} (sets : Sets S) (client : AggregatedPoliciesStatusDb D S)
    (works : IsWorking client) (hub : String) where
  update_policies-none :
      (objects : List Object) (ids : S) (d : D)
      → (update_policies sets client hub objects ids d).1.0 ≡ none
  unfolding update_policies
  update_policies-none [] ids d = refl
  update_policies-none (minimal_policy_compliance_status p ∷ objects) ids d =
      rw
        (
          update_policies,
          works.updates hub p.policy_id p.applied_clusters p.non_compliant_clusters d,
        )
        (update_policies-none objects (sets.remove p.policy_id ids) _)
  update_policies-none (managed_cluster p ∷ objects) ids d = update_policies-none objects ids d
  update_policies-none (clusters_per_policy p ∷ objects) ids d = update_policies-none objects ids d
  update_policies-none (policy_compliance_status p ∷ objects) ids d =
      update_policies-none objects ids d

  delete_policies-none :
      (ps : List String) (d : D) → (delete_policies sets client hub ps d).1 ≡ none
  unfolding delete_policies
  delete_policies-none [] d = refl
  delete_policies-none (p ∷ ps) d =
      rw (delete_policies, works.deletes hub p d) (delete_policies-none ps _)

-- On a database none of whose calls fails, handleMinimalComplianceBundle returns no error.
pub handle_minimal_compliance_bundle-none :
    {D S : Type 0} (sets : Sets S) (client : AggregatedPoliciesStatusDb D S)
    (works : IsWorking client) (bundle : Bundle) (d : D)
    → (handle_minimal_compliance_bundle sets client bundle d).1 ≡ none
unfolding handle_minimal_compliance_bundle
handle_minimal_compliance_bundle-none sets client works bundle d =
    let hub = get_leaf_hub_name bundle in
    let (ids, e) = works.fetches hub d in
    let fine = update_policies-none sets client works hub (get_objects bundle) ids d in
    rw (handle_minimal_compliance_bundle, e, fine) (delete_policies-none sets client works hub _ _)
