-- ===== src/Tests/Queries.antt =====
-- The PostgreSQL client over a driver with fixed answers, and the policies batch builder.
use hub_of_hubs_status_trans.Base.{
  ◌≡◌, ◌↔◌, String, true, List, [], ◌∷◌, Option, none, some, elem, str_eq, if◌then◌else◌,
}
use hub_of_hubs_status_trans.Tests.ListSets.{lists, lists-IsSets}
use hub_of_hubs_status_trans.Db.Policies.{
  non_compliant, unknown, PoliciesCall, insert_row, update_cluster_compliance,
  delete_cluster_status,
}
use hub_of_hubs_status_trans.Batch.{Statement}
use hub_of_hubs_status_trans.Batch.Chunks.{AllFilled}
use hub_of_hubs_status_trans.Batch.Policies.{build_rows, builder_of}
use hub_of_hubs_status_trans.Batch.Policies.Statements.{build_rows-AllFilled}
use hub_of_hubs_status_trans.Postgresql.{
  Driver, text, Answer, scanned, unreadable, answered, rows_of, pgx_batch, send_batch,
  get_non_compliant_clusters_by_leaf_hub,
}
use hub_of_hubs_status_trans.Postgresql.Sql.{managed_clusters_sql, non_compliant_sql}
use hub_of_hubs_status_trans.Postgresql.Queries.{Reads, has_row, found_in}
use hub_of_hubs_status_trans.Postgresql.ByLeafHub.{get_non_compliant_clusters_by_leaf_hub-Reads}
use hub_of_hubs_status_trans.Postgresql.Sending.{send_batch-none, all_executed}

-- A driver that answers every query in this way, and whose batches have these results.
abbrev driver_with :
    Answer (String × String)
    → Answer (String × String)
    → Answer (String × (String × String))
    → Answer String
    → List (Option String)
    → Driver (List String) String
driver_with clusters compliance states ids results = record {
  max_conns = 4;
  query_one = λ sql args d. ids;
  query_two = λ sql args d.
      if str_eq sql (managed_clusters_sql "status" "managed_clusters")
      then clusters
      else compliance;
  query_three = λ sql args d. states;
  query_row = λ sql args d. scanned true;
  exec = λ sql args d. (d, none);
  send = λ batch d. ("batch" ∷ d, results);
}

abbrev answering : Driver (List String) String
answering =
    driver_with (answered (scanned ("a", "1") ∷ scanned ("b", "1") ∷ scanned ("a", "2") ∷ []))
      (answered (scanned ("p", "a") ∷ scanned ("q", "a") ∷ scanned ("p", "b") ∷ []))
      (answered (
        scanned ("p", ("a", non_compliant))
        ∷ scanned ("p", ("b", unknown))
        ∷ scanned ("q", ("a", "pending"))
        ∷ []))
      (answered (scanned "p" ∷ unreadable "no text" ∷ [])) (none ∷ some "duplicate key" ∷ [])

get_non_compliant_clusters_by_leaf_hub-Reads_example :
    Reads
      (rows_of
        (answering.query_three (non_compliant_sql "status" "compliance") (text "hub1" ∷ []) []))
      (get_non_compliant_clusters_by_leaf_hub lists answering "status" "compliance" "hub1" [])
      (λ xs b.
        (p n : String)
        → (elem n (found_in lists lists-IsSets p b).non_compliant_clusters
            ≡ has_row p n non_compliant xs)
          × (elem n (found_in lists lists-IsSets p b).unknown_clusters ≡ has_row p n unknown xs))
get_non_compliant_clusters_by_leaf_hub-Reads_example =
    get_non_compliant_clusters_by_leaf_hub-Reads lists lists-IsSets answering "status" "compliance"
      "hub1" []

abbrev statement : Statement String
statement = record { sql = []; args = [] }

send_batch-none_example :
    let reported = send_batch answering (pgx_batch (statement ∷ statement ∷ [])) [] in
    (reported.0 ≡ "batch" ∷ [])
    × ((reported.1 ≡ none) ↔ (all_executed (none ∷ some "duplicate key" ∷ []) ≡ true))
send_batch-none_example = send_batch-none answering statement (statement ∷ []) []

abbrev calls : List PoliciesCall
calls =
    insert_row "p" "a" "none" unknown
    ∷ update_cluster_compliance "q" "a" non_compliant
    ∷ delete_cluster_status "p" "b"
    ∷ delete_cluster_status "q" "b"
    ∷ delete_cluster_status "p" "c"
    ∷ []

build_rows-AllFilled_example :
    AllFilled 5 (build_rows (builder_of "status" "compliance" "hub1" calls))
build_rows-AllFilled_example = build_rows-AllFilled "status" "compliance" "hub1" calls
