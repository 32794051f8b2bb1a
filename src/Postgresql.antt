-- ===== src/Postgresql.antt =====
-- pkg/db/postgresql/postgresql.go. The driver pgx is a parameter: a query gives the rows that `Next`
-- and `Scan` read one by one. The SQL texts are in Sql. Log lines and contexts are left out.
pub mod Sql
pub mod Queries
pub mod ByLeafHub
pub mod Sending
pub mod Columns
pub mod Aggregated
pub mod Refused
use hub_of_hubs_status_trans.Base.{
  ℕ, String, Bool, true, false, List, [], ◌∷◌, Option, none, some, or_else, if◌then◌else◌, str_eq,
  str_append, lookup, assign, wrap, length, ◌==◌,
}
use hub_of_hubs_status_trans.Db.{Fetched, rows, failed}
use hub_of_hubs_status_trans.Db.Sets.{Sets}
use hub_of_hubs_status_trans.Db.Policies.{
  non_compliant, unknown, NonCompliantClusterSets, new_non_compliant_cluster_sets,
  add_non_compliant_cluster, add_unknown_cluster,
}
use hub_of_hubs_status_trans.Batch.{Statement}
use hub_of_hubs_status_trans.Postgresql.Sql.{
  managed_clusters_sql, compliance_sql, non_compliant_sql, policy_ids_sql, exists_sql, update_sql,
  insert_sql, delete_sql,
}

-- What `Scan` makes of a row.
pub data Scanned {ℓ} (A : Type ℓ) : Type ℓ where
  scanned : A → Scanned A
  unreadable : String → Scanned A

-- What `Query` returns. After an error the rows that it returns have no next row.
pub data Answer {ℓ} (A : Type ℓ) : Type ℓ where
  answered : List (Scanned A) → Answer A
  query_failed : String → Answer A

-- The rows of an answer, its error ignored.
abbrev pub rows_of {ℓ} : {A : Type ℓ} → Answer A → List (Scanned A)
rows_of (answered rs) = rs
rows_of (query_failed message) = []

-- An argument of a statement, for `$1`, `$2` and so on.
pub data Argument : Type 0 where
  text : String → Argument
  number : ℕ → Argument

-- The connection pool to a database of type `D`: queries whose rows have one, two or three columns, a
-- query for one Boolean, and `Exec`, each with the statement's SQL and its arguments. `send` gives
-- the result of `Exec` for each statement of a batch with arguments of type `A`.
pub record Driver (D A : Type 0) : Type 0 where
  pub max_conns : ℕ
  pub query_one : String → List Argument → D → Answer String
  pub query_two : String → List Argument → D → Answer (String × String)
  pub query_three : String → List Argument → D → Answer (String × (String × String))
  pub query_row : String → List Argument → D → Scanned Bool
  pub exec : String → List Argument → D → D × Option String
  pub send : List (Statement A) → D → D × List (Option String)

-- A value of type `interface{}` as `SendBatch` takes it: a batch of the driver, or another value.
pub data AnyBatch (A : Type 0) : Type 0 where
  pgx_batch : List (Statement A) → AnyBatch A
  other_batch : AnyBatch A

-- The text that the loop over the results gathers.
unfoldable pub batch_errors : List (Option String) → String
batch_errors [] = ""
batch_errors (none ∷ results) = batch_errors results
batch_errors (some message ∷ results) =
    str_append "failed to execute batch statement "
      (str_append message (str_append ", " (batch_errors results)))

unfoldable pub errors_message : String → Option String
errors_message error_string =
    if str_eq error_string ""
    then none
    else some (str_append "some of the batch statements failed to execute - " error_string)

-- The loop over the rows of managed clusters.
unfoldable pub read_managed_clusters :
    String
    → String
    → List (Scanned (String × String))
    → List (String × String)
    → Fetched (List (String × String))
read_managed_clusters schema table_name [] result = rows result
read_managed_clusters schema table_name (unreadable message ∷ rs) result = failed (
    str_append "error reading from table "
      (str_append schema (str_append "." (str_append table_name (str_append " - " message)))))
read_managed_clusters schema table_name (scanned (cluster_name, resource_version) ∷ rs) result =
    read_managed_clusters schema table_name rs (assign cluster_name resource_version result)

module _ {S : Type 0} (sets : Sets S) where
  -- The loop over the rows of the compliance table: a policy's set is made with its first row.
  unfoldable pub read_compliance :
      List (Scanned (String × String)) → List (String × S) → Fetched (List (String × S))
  read_compliance [] result = rows result
  read_compliance (unreadable message ∷ rs) result =
      failed (str_append "error in reading compliance table rows - " message)
  read_compliance (scanned (policy_id, cluster_name) ∷ rs) result = read_compliance rs (
      assign policy_id (sets.add cluster_name (or_else (lookup policy_id result) sets.new_set))
        result)

  -- What a row adds to the sets of its policy; a row with another compliance adds nothing.
  unfoldable pub add_row : String → String → NonCompliantClusterSets S → NonCompliantClusterSets S
  add_row cluster_name compliance s =
      if str_eq compliance non_compliant
      then add_non_compliant_cluster sets cluster_name s
      else (if str_eq compliance unknown then add_unknown_cluster sets cluster_name s else s)

  unfoldable pub read_non_compliant :
      List (Scanned (String × (String × String)))
      → List (String × NonCompliantClusterSets S)
      → Fetched (List (String × NonCompliantClusterSets S))
  read_non_compliant [] result = rows result
  read_non_compliant (unreadable message ∷ rs) result =
      failed (str_append "error in reading compliance table rows - " message)
  read_non_compliant (scanned (policy_id, (cluster_name, compliance)) ∷ rs) result =
      read_non_compliant rs (
        assign policy_id
          (add_row cluster_name compliance
            (or_else (lookup policy_id result) (new_non_compliant_cluster_sets sets)))
          result)

  unfoldable pub read_policy_ids : String → List (Scanned String) → S → Fetched S
  read_policy_ids table_name [] result = rows result
  read_policy_ids table_name (unreadable message ∷ rs) result = failed (
      str_append "error reading from table status."
        (str_append table_name (str_append " - " message)))
  read_policy_ids table_name (scanned policy_id ∷ rs) result =
      read_policy_ids table_name rs (sets.add policy_id result)

module _ {D A : Type 0} (driver : Driver D A) where
  unfoldable pub get_pool_size : ℕ
  get_pool_size = driver.max_conns

  unfoldable pub send_batch : AnyBatch A → D → D × Option String
  send_batch other_batch d =
      (d, some "failed to send batch - given batch doesn't match postgresql library")
  send_batch (pgx_batch batch) d =
      if length batch == 0
      then (d, none)
      else (let (d', results) = driver.send batch d in (d', errors_message (batch_errors results)))

  unfoldable pub get_managed_clusters_by_leaf_hub :
      String → String → String → D → Fetched (List (String × String))
  get_managed_clusters_by_leaf_hub schema table_name leaf_hub_name d =
      read_managed_clusters schema table_name
        (rows_of
          (driver.query_two (managed_clusters_sql schema table_name) (text leaf_hub_name ∷ []) d))
        []

  -- Exists, then update or insert.
  unfoldable pub insert_or_update_aggregated_policy_compliance :
      String → String → String → String → ℕ → ℕ → D → D × Option String
  insert_or_update_aggregated_policy_compliance schema table_name leaf_hub_name policy_id
        applied_clusters non_compliant_clusters d =
      elim (driver.query_row (exists_sql schema table_name)
        (text leaf_hub_name ∷ text policy_id ∷ []) d) [
          | unreadable message ↦ (d, wrap "failed to read from database: " (some message))
          | scanned exists ↦
              if exists
              then (let (d', error) =
                    driver.exec (update_sql schema table_name)
                      (number applied_clusters
                        ∷ number non_compliant_clusters
                        ∷ text leaf_hub_name
                        ∷ text policy_id
                        ∷ [])
                      d in
                  (d', wrap "failed to update compliance row in database: " error))
              else (let (d', error) =
                    driver.exec (insert_sql schema table_name)
                      (text policy_id
                        ∷ text leaf_hub_name
                        ∷ number applied_clusters
                        ∷ number non_compliant_clusters
                        ∷ [])
                      d in
                  (d', wrap "failed to insertRowsArgs into database: " error))
        ]

  unfoldable pub delete_all_compliance_rows :
      String → String → String → String → D → D × Option String
  delete_all_compliance_rows schema table_name leaf_hub_name policy_id d =
      let (d', error) =
        driver.exec (delete_sql schema table_name) (text leaf_hub_name ∷ text policy_id ∷ []) d in
      (d', wrap "failed to delete compliance rows from database: " error)

module _ {D S A : Type 0} (sets : Sets S) (driver : Driver D A) where
  unfoldable pub get_compliance_status_by_leaf_hub :
      String → String → String → D → Fetched (List (String × S))
  get_compliance_status_by_leaf_hub schema table_name leaf_hub_name d =
      read_compliance sets
        (rows_of (driver.query_two (compliance_sql schema table_name) (text leaf_hub_name ∷ []) d))
        []

  unfoldable pub get_non_compliant_clusters_by_leaf_hub :
      String → String → String → D → Fetched (List (String × NonCompliantClusterSets S))
  get_non_compliant_clusters_by_leaf_hub schema table_name leaf_hub_name d =
      read_non_compliant sets
        (rows_of
          (driver.query_three (non_compliant_sql schema table_name) (text leaf_hub_name ∷ []) d))
        []

  unfoldable pub get_policy_ids_by_leaf_hub : String → String → String → D → Fetched S
  get_policy_ids_by_leaf_hub schema table_name leaf_hub_name d =
      read_policy_ids sets table_name
        (rows_of (driver.query_one (policy_ids_sql schema table_name) (text leaf_hub_name ∷ []) d))
        sets.new_set
