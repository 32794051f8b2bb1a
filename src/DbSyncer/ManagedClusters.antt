-- ===== src/DbSyncer/ManagedClusters.antt =====
-- handleManagedClustersBundle of pkg/dbsyncer/clusters_transport_to_db_syncer.go. Log lines are
-- left out.
pub mod Mirror
pub mod Order
use hub_of_hubs_status_trans.Base.{
  ℕ, String, Bool, true, false, List, [], ◌∷◌, ◌++◌, map, Option, none, some, if◌then◌else◌, str_eq,
  lookup, remove, keys, wrap,
}
use hub_of_hubs_status_trans.Bundle.{
  Bundle, Object, ManagedCluster, managed_cluster, clusters_per_policy, policy_compliance_status,
  minimal_policy_compliance_status, get_objects, get_leaf_hub_name,
}
use hub_of_hubs_status_trans.Db.{
  ManagedClustersCall, insert, update, delete, Fetched, rows, failed, ManagedClustersStatusDb,
  error_none,
}

-- What one round of the loop does with a cluster: the calls made, and the clusters left in
-- `clustersFromDB`.
unfoldable pub sync_cluster :
    ManagedCluster → List (String × String) → List ManagedClustersCall × List (String × String)
sync_cluster c from_db = elim (lookup c.name from_db) [
  | none ↦ (insert c error_none ∷ [], from_db)
  | some resource_version ↦ (
    if str_eq c.resource_version resource_version then [] else update c.name c ∷ [],
    remove c.name from_db,
  )
]

-- The loop over the objects of the bundle; objects of other types are skipped.
unfoldable pub sync_clusters :
    List Object → List (String × String) → List ManagedClustersCall × List (String × String)
sync_clusters [] from_db = ([], from_db)
sync_clusters (managed_cluster c ∷ objects) from_db =
    let (calls, left) = sync_cluster c from_db in
    let (more, rest) = sync_clusters objects left in (calls ++ more, rest)
sync_clusters (clusters_per_policy p ∷ objects) from_db = sync_clusters objects from_db
sync_clusters (policy_compliance_status p ∷ objects) from_db = sync_clusters objects from_db
sync_clusters (minimal_policy_compliance_status p ∷ objects) from_db = sync_clusters objects from_db

-- All calls made to the batch builder: those of the loop, and a delete for each cluster left. Go
-- goes over what is left in no particular order.
unfoldable pub batch_calls : List Object → List (String × String) → List ManagedClustersCall
batch_calls objects from_db =
    let (calls, left) = sync_clusters objects from_db in calls ++ map delete (keys left)

-- A failed fetch ends the handler; the error of a failed `SendBatch` is returned.
unfoldable pub handle_managed_clusters_bundle :
    {D : Type 0} → ManagedClustersStatusDb D → Bundle → D → D × Option String
handle_managed_clusters_bundle client bundle d =
    elim (client.get_managed_clusters_by_leaf_hub (get_leaf_hub_name bundle) d) [
      | failed message ↦
          (d, wrap "failed fetching leaf hub managed clusters from db - " (some message))
      | rows from_db ↦
          let (d', error) =
            client.send_batch (get_leaf_hub_name bundle) (batch_calls (get_objects bundle) from_db)
              d in
          (d', wrap "failed to perform batch - " error)
    ]
