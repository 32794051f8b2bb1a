-- ===== src/DbSyncer/Policies.antt =====
-- The bundle handlers of pkg/dbsyncer/policies_transport_to_db_syncer.go. Log lines are left out, and
-- so are the type assertions on set elements, which are texts.
pub mod Relevance
pub mod RelevanceBundle
pub mod RelevanceTouched
pub mod RelevanceOrder
pub mod ComplianceOrder
pub mod Compliance
pub mod ComplianceEntries
pub mod ComplianceBundle
use hub_of_hubs_status_trans.Base.{
  ℕ, String, Bool, true, false, List, [], ◌∷◌, ◌++◌, map, Option, none, some, if◌then◌else◌, lookup,
  remove, keys, wrap, str_append, or_else,
}
use hub_of_hubs_status_trans.Bundle.{
  Bundle, Object, ClustersPerPolicy, PolicyComplianceStatus, managed_cluster, clusters_per_policy,
  policy_compliance_status, minimal_policy_compliance_status, get_objects, get_leaf_hub_name,
}
use hub_of_hubs_status_trans.Db.{rows, failed, error_none}
use hub_of_hubs_status_trans.Db.Sets.{Sets}
use hub_of_hubs_status_trans.Db.Policies.{
  compliant, non_compliant, unknown, PoliciesCall, insert_row, update_policy_compliance,
  update_cluster_compliance, delete_policy, delete_cluster_status, NonCompliantClusterSets,
  new_non_compliant_cluster_sets, PoliciesStatusDb, AggregatedPoliciesStatusDb,
}

failed_fetching : String → String → Option String
failed_fetching leaf_hub_name message =
    wrap
      (str_append "failed fetching leaf hub '"
        (str_append leaf_hub_name "' compliance status rows from db - "))
      (some message)

module _ {S : Type 0} (sets : Sets S) where
  -- One round of the loop over the clusters of a policy: the calls made, and the clusters left in
  -- `clustersFromDB`.
  unfoldable pub insert_cluster : String → String → S → List PoliciesCall × S
  insert_cluster policy_id c from_db =
      if sets.contains c from_db
      then ([], sets.remove c from_db)
      else (insert_row policy_id c error_none unknown ∷ [], from_db)

  unfoldable pub insert_clusters : String → List String → S → List PoliciesCall × S
  insert_clusters policy_id [] from_db = ([], from_db)
  insert_clusters policy_id (c ∷ cs) from_db =
      let (calls, left) = insert_cluster policy_id c from_db in
      let (more, rest) = insert_clusters policy_id cs left in (calls ++ more, rest)

  unfoldable pub handle_cluster_per_policy : ClustersPerPolicy → S → List PoliciesCall
  handle_cluster_per_policy policy from_db =
      let (calls, left) = insert_clusters policy.policy_id policy.clusters from_db in
      calls ++ map (delete_cluster_status policy.policy_id) (sets.elements left)

  -- The loop over the objects; objects of other types are skipped.
  unfoldable pub sync_policies :
      List Object → List (String × S) → List PoliciesCall × List (String × S)
  sync_policies [] from_db = ([], from_db)
  sync_policies (clusters_per_policy p ∷ objects) from_db =
      let (more, rest) = sync_policies objects (remove p.policy_id from_db) in
      (
        handle_cluster_per_policy p (or_else (lookup p.policy_id from_db) sets.new_set) ++ more,
        rest,
      )
  sync_policies (managed_cluster p ∷ objects) from_db = sync_policies objects from_db
  sync_policies (policy_compliance_status p ∷ objects) from_db = sync_policies objects from_db
  sync_policies (minimal_policy_compliance_status p ∷ objects) from_db =
      sync_policies objects from_db

  unfoldable pub relevance_calls : List Object → List (String × S) → List PoliciesCall
  relevance_calls objects from_db =
      let (calls, left) = sync_policies objects from_db in calls ++ map delete_policy (keys left)

  unfoldable pub handle_clusters_per_policy_bundle :
      {D : Type 0} → PoliciesStatusDb D S → Bundle → D → D × Option String
  unfolding failed_fetching
  handle_clusters_per_policy_bundle client bundle d =
      elim (client.get_compliance_status_by_leaf_hub (get_leaf_hub_name bundle) d) [
        | failed message ↦ (d, failed_fetching (get_leaf_hub_name bundle) message)
        | rows from_db ↦
            let (d', error) =
              client.send_batch (get_leaf_hub_name bundle)
                (relevance_calls (get_objects bundle) from_db) d in
            (d', wrap "failed to perform batch - " error)
      ]

  -- One of the two loops over reported clusters: a call for each that `reported_in_db` lacks; all are
  -- taken out of `clustersFromDB`.
  unfoldable pub update_clusters : String → String → S → List String → S → List PoliciesCall × S
  update_clusters policy_id state reported_in_db [] from_db = ([], from_db)
  update_clusters policy_id state reported_in_db (c ∷ cs) from_db =
      let calls =
        (if sets.contains c reported_in_db
          then []
          else update_cluster_compliance policy_id c state ∷ []) in
      let (more, rest) =
        update_clusters policy_id state reported_in_db cs (sets.remove c from_db) in
      (calls ++ more, rest)

  unfoldable pub handle_policy_compliance_status :
      PolicyComplianceStatus → S → S → List PoliciesCall
  handle_policy_compliance_status status non_compliant_from_db unknown_from_db =
      let (calls, left) =
        update_clusters status.policy_id non_compliant non_compliant_from_db
          status.non_compliant_clusters (sets.union non_compliant_from_db unknown_from_db) in
      let (more, rest) =
        update_clusters status.policy_id unknown unknown_from_db status.unknown_compliance_clusters
          left in
      calls
      ++ more
      ++ map (λ c. update_cluster_compliance status.policy_id c compliant) (sets.elements rest)

  unfoldable pub sync_compliance :
      List Object
      → List (String × NonCompliantClusterSets S)
      → List PoliciesCall × List (String × NonCompliantClusterSets S)
  sync_compliance [] from_db = ([], from_db)
  sync_compliance (policy_compliance_status p ∷ objects) from_db =
      let found = or_else (lookup p.policy_id from_db) (new_non_compliant_cluster_sets sets) in
      let (more, rest) = sync_compliance objects (remove p.policy_id from_db) in
      (
        handle_policy_compliance_status p found.non_compliant_clusters found.unknown_clusters
            ++ more,
        rest,
      )
  sync_compliance (managed_cluster p ∷ objects) from_db = sync_compliance objects from_db
  sync_compliance (clusters_per_policy p ∷ objects) from_db = sync_compliance objects from_db
  sync_compliance (minimal_policy_compliance_status p ∷ objects) from_db =
      sync_compliance objects from_db

  unfoldable pub compliance_calls :
      List Object → List (String × NonCompliantClusterSets S) → List PoliciesCall
  compliance_calls objects from_db =
      let (calls, left) = sync_compliance objects from_db in
      calls ++ map (λ p. update_policy_compliance p compliant) (keys left)

  unfoldable pub handle_compliance_bundle :
      {D : Type 0} → PoliciesStatusDb D S → Bundle → D → D × Option String
  unfolding failed_fetching
  handle_compliance_bundle client bundle d =
      elim (client.get_non_compliant_clusters_by_leaf_hub (get_leaf_hub_name bundle) d) [
        | failed message ↦ (d, failed_fetching (get_leaf_hub_name bundle) message)
        | rows from_db ↦
            let (d', error) =
              client.send_batch (get_leaf_hub_name bundle)
                (compliance_calls (get_objects bundle) from_db) d in
            (d', wrap "failed to perform batch - " error)
      ]
