-- ===== src/DbSyncer/MinimalCompliance.antt =====
-- handleMinimalComplianceBundle of pkg/dbsyncer/policies_transport_to_db_syncer.go. Each row goes to
-- the database at once, and the first error ends the handler. Log lines are left out.
pub mod Mirror
pub mod Success
use hub_of_hubs_status_trans.Base.{String, List, [], ◌∷◌, Option, none, some, wrap, str_append}
use hub_of_hubs_status_trans.Bundle.{
  Bundle, Object, managed_cluster, clusters_per_policy, policy_compliance_status,
  minimal_policy_compliance_status, get_objects, get_leaf_hub_name,
}
use hub_of_hubs_status_trans.Db.{rows, failed}
use hub_of_hubs_status_trans.Db.Sets.{Sets}
use hub_of_hubs_status_trans.Db.Policies.{AggregatedPoliciesStatusDb}

-- `fmt.Errorf("<what> policy '<policy_id>', leaf hub '<leaf_hub_name>' <where> - %w", err)`.
failed_for : String → String → String → String → Option String → Option String
failed_for what policy_id leaf_hub_name place = wrap (
    str_append what
      (str_append policy_id (str_append "', leaf hub '" (str_append leaf_hub_name place))))

module _ {D S : Type 0} (sets : Sets S) (client : AggregatedPoliciesStatusDb D S) where
  -- The loop over the objects, others than minimal compliance skipped: the database, the error if
  -- any, and what is left in `policyIDsFromDB`.
  unfoldable pub update_policies : String → List Object → S → D → D × (Option String × S)
  unfolding failed_for
  update_policies leaf_hub_name [] ids d = (d, (none, ids))
  update_policies leaf_hub_name (minimal_policy_compliance_status p ∷ objects) ids d =
      let (d', result) =
        client.insert_or_update_aggregated_policy_compliance leaf_hub_name p.policy_id
          p.applied_clusters p.non_compliant_clusters d in
      elim result [
        | some message ↦ (
          d',
          (
            failed_for "failed to update minimal compliance of policy '" p.policy_id leaf_hub_name
                "' in db - " (some message),
            ids,
          ),
        )
        | none ↦ update_policies leaf_hub_name objects (sets.remove p.policy_id ids) d'
      ]
  update_policies leaf_hub_name (managed_cluster p ∷ objects) ids d =
      update_policies leaf_hub_name objects ids d
  update_policies leaf_hub_name (clusters_per_policy p ∷ objects) ids d =
      update_policies leaf_hub_name objects ids d
  update_policies leaf_hub_name (policy_compliance_status p ∷ objects) ids d =
      update_policies leaf_hub_name objects ids d

  -- The loop over the policies that the bundle does not have.
  unfoldable pub delete_policies : String → List String → D → D × Option String
  unfolding failed_for
  delete_policies leaf_hub_name [] d = (d, none)
  delete_policies leaf_hub_name (p ∷ ps) d =
      let (d', result) = client.delete_all_compliance_rows leaf_hub_name p d in
      elim result [
        | some message ↦ (
          d',
          failed_for "failed deleted compliance rows of policy '" p leaf_hub_name "' from db - "
              (some message),
        )
        | none ↦ delete_policies leaf_hub_name ps d'
      ]

  unfoldable pub handle_minimal_compliance_bundle : Bundle → D → D × Option String
  handle_minimal_compliance_bundle bundle d =
      let leaf_hub_name = get_leaf_hub_name bundle in
      elim (client.get_policy_ids_by_leaf_hub leaf_hub_name d) [
        | failed message ↦ (
          d,
          wrap
              (str_append "failed fetching leaf hub '"
                (str_append leaf_hub_name "' policies from db - "))
              (some message),
        )
        | rows ids ↦
            let (d', (error, left)) = update_policies leaf_hub_name (get_objects bundle) ids d in
            elim error [
              | some message ↦ (d', some message)
              | none ↦ delete_policies leaf_hub_name (sets.elements left) d'
            ]
      ]
