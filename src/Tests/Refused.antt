-- ===== src/Tests/Refused.antt =====
-- The managed clusters handler over a client whose queries are all refused.
use hub_of_hubs_status_trans.Base.{◌≡◌, refl, String, List, [], ◌∷◌, none, wrap}
use hub_of_hubs_status_trans.Bundle.{get_objects, get_leaf_hub_name}
use hub_of_hubs_status_trans.DbSyncer.ManagedClusters.{handle_managed_clusters_bundle}
use hub_of_hubs_status_trans.Batch.{Statement}
use hub_of_hubs_status_trans.Batch.Inserted.{args_of}
use hub_of_hubs_status_trans.Batch.ManagedClusters.{Arg, value, payload}
use hub_of_hubs_status_trans.Postgresql.{Driver, query_failed, unreadable, pgx_batch, send_batch}
use hub_of_hubs_status_trans.Postgresql.Refused.{
  clusters_client, handle_managed_clusters_bundle-inserts_all,
}
use hub_of_hubs_status_trans.Tests.Handlers.{clusters_bundle}
use hub_of_hubs_status_trans.Tests.Syncing.{cluster}

abbrev refusing : Driver (List String) Arg
refusing = record {
  max_conns = 4;
  query_one = λ sql args d. query_failed "no table";
  query_two = λ sql args d. query_failed "no table";
  query_three = λ sql args d. query_failed "no table";
  query_row = λ sql args d. unreadable "no table";
  exec = λ sql args d. (d, none);
  send = λ batch d. ("batch" ∷ d, none ∷ []);
}

handle_managed_clusters_bundle-inserts_all_example :
    (batch : List (Statement Arg)) × (args_of "INSERT into " batch
      ≡ value "hub1"
        ∷ payload (cluster "b" "2")
        ∷ value "none"
        ∷ value "hub1"
        ∷ payload (cluster "c" "1")
        ∷ value "none"
        ∷ [])
    × (handle_managed_clusters_bundle (clusters_client refusing) clusters_bundle [] ≡ (
      (send_batch refusing (pgx_batch batch) []).0,
      wrap "failed to perform batch - " (send_batch refusing (pgx_batch batch) []).1,
    ))
unfolding get_leaf_hub_name get_objects
handle_managed_clusters_bundle-inserts_all_example =
    handle_managed_clusters_bundle-inserts_all refusing clusters_bundle [] refl
