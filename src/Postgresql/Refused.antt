-- ===== src/Postgresql/Refused.antt =====
-- The PostgreSQL client as the database of handleManagedClustersBundle, when the query is refused.
use hub_of_hubs_status_trans.Base.{
  ◌≡◌, refl, ap, ◌∙◌, String, List, [], ◌∷◌, ◌++◌, map, wrap, lookup, keys,
}
use mathlib.Core.List.{append-nil}
use hub_of_hubs_status_trans.Bundle.{
  Bundle, Object, managed_cluster, clusters_per_policy, policy_compliance_status,
  minimal_policy_compliance_status, get_objects, get_leaf_hub_name,
}
use hub_of_hubs_status_trans.Db.{ManagedClustersStatusDb, error_none, delete, rows}
use hub_of_hubs_status_trans.DbSyncer.ManagedClusters.{
  sync_cluster, sync_clusters, batch_calls, handle_managed_clusters_bundle,
}
use hub_of_hubs_status_trans.Batch.{Statement}
use hub_of_hubs_status_trans.Batch.Inserted.{args_of}
use hub_of_hubs_status_trans.Batch.ManagedClusters.{Arg, value, payload, batch_of}
use hub_of_hubs_status_trans.Batch.ManagedClusters.Rows.{inserted_rows, batch_of-inserted}
use hub_of_hubs_status_trans.Postgresql.{
  Driver, text, query_failed, pgx_batch, send_batch, get_managed_clusters_by_leaf_hub,
  read_managed_clusters,
}
use hub_of_hubs_status_trans.Postgresql.Sql.{managed_clusters_sql}
use hub_of_hubs_status_trans.Postgresql.Aggregated.{status_schema}

abbrev pub managed_clusters_table : String
managed_clusters_table = "managed_clusters"

-- The client with the schema and the table that the handler gives it, and with its batch builder.
unfoldable pub clusters_client : {D : Type 0} → Driver D Arg → ManagedClustersStatusDb D
clusters_client driver = record {
  get_managed_clusters_by_leaf_hub =
      get_managed_clusters_by_leaf_hub driver status_schema managed_clusters_table;
  send_batch = λ leaf_hub_name calls.
      send_batch driver
        (pgx_batch (batch_of status_schema managed_clusters_table leaf_hub_name calls));
}

-- A row for each managed cluster among the objects, without an error.
abbrev pub rows_of_all : String → List Object → List Arg
rows_of_all leaf_hub_name [] = []
rows_of_all leaf_hub_name (managed_cluster c ∷ objects) =
    value leaf_hub_name ∷ payload c ∷ value error_none ∷ rows_of_all leaf_hub_name objects
rows_of_all leaf_hub_name (clusters_per_policy p ∷ objects) = rows_of_all leaf_hub_name objects
rows_of_all leaf_hub_name (policy_compliance_status p ∷ objects) = rows_of_all leaf_hub_name objects
rows_of_all leaf_hub_name (minimal_policy_compliance_status p ∷ objects) =
    rows_of_all leaf_hub_name objects

-- With nothing fetched every cluster is a new one, and nothing is left to delete.
sync_clusters-all :
    (hub : String) (objects : List Object)
    → (inserted_rows (value hub) (sync_clusters objects []).0 ≡ rows_of_all hub objects)
      × ((sync_clusters objects []).1 ≡ [])
unfolding sync_clusters sync_cluster lookup
sync_clusters-all hub [] = (refl, refl)
sync_clusters-all hub (managed_cluster c ∷ objects) =
    let (all, left) = sync_clusters-all hub objects in (rw all refl, left)
sync_clusters-all hub (clusters_per_policy p ∷ objects) = sync_clusters-all hub objects
sync_clusters-all hub (policy_compliance_status p ∷ objects) = sync_clusters-all hub objects
sync_clusters-all hub (minimal_policy_compliance_status p ∷ objects) = sync_clusters-all hub objects

batch_calls-all :
    (hub : String) (objects : List Object)
    → inserted_rows (value hub) (batch_calls objects []) ≡ rows_of_all hub objects
unfolding batch_calls keys
batch_calls-all hub objects =
    let (all, left) = sync_clusters-all hub objects in
    let calls = (sync_clusters objects []).0 in
    ap (λ xs. inserted_rows (value hub) (calls ++ map delete (keys xs))) left
    ∙ ap (inserted_rows (value hub)) (append-nil calls)
    ∙ all

module _ {D : Type 0} (driver : Driver D Arg) (bundle : Bundle) (d : D) {message : String} where
  fetched :
      driver.query_two
          (managed_clusters_sql status_schema managed_clusters_table)
          (text (get_leaf_hub_name bundle) ∷ [])
          d
        ≡ query_failed message
      → get_managed_clusters_by_leaf_hub driver status_schema managed_clusters_table
          (get_leaf_hub_name bundle)
          d
        ≡ rows []
  unfolding get_managed_clusters_by_leaf_hub read_managed_clusters
  fetched refused = rw refused refl

  -- If the database refuses the query for the managed clusters of the bundle's leaf hub,
  -- `handleManagedClustersBundle` over the PostgreSQL client does not end with that error: it sends a
  -- batch whose INSERT statements have a row for every managed cluster of the bundle, and what it
  -- returns is what the sending of that batch returns.
  pub handle_managed_clusters_bundle-inserts_all :
      driver.query_two
          (managed_clusters_sql status_schema managed_clusters_table)
          (text (get_leaf_hub_name bundle) ∷ [])
          d
        ≡ query_failed message
      → (batch : List (Statement Arg)) × (args_of "INSERT into " batch
          ≡ rows_of_all (get_leaf_hub_name bundle) (get_objects bundle))
        × (handle_managed_clusters_bundle (clusters_client driver) bundle d ≡ (
          (send_batch driver (pgx_batch batch) d).0,
          wrap "failed to perform batch - " (send_batch driver (pgx_batch batch) d).1,
        ))
  unfolding handle_managed_clusters_bundle clusters_client
  handle_managed_clusters_bundle-inserts_all refused =
      let hub = get_leaf_hub_name bundle in
      let calls = batch_calls (get_objects bundle) [] in
      (
        batch_of status_schema managed_clusters_table hub calls,
        batch_of-inserted status_schema managed_clusters_table hub calls
            ∙ batch_calls-all hub (get_objects bundle),
        rw (handle_managed_clusters_bundle, fetched refused) refl,
      )
