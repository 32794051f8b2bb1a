-- ===== src/Batch/ManagedClusters.antt =====
-- managed_clusters_batch_builder.go of pkg/db/postgresql/batch.
pub mod Statements
pub mod Rows
use hub_of_hubs_status_trans.Base.{
  ℕ, ◌==◌, ◌/◌, String, List, [], ◌∷◌, ◌++◌, Option, none, some, length, if◌then◌else◌,
}
use hub_of_hubs_status_trans.Bundle.{ManagedCluster}
use hub_of_hubs_status_trans.Db.{ManagedClustersCall, insert, update, delete}
use hub_of_hubs_status_trans.Batch.{
  Piece, text, SpecialColumns, generate_insert_or_update_args, Statement, BaseBatchBuilder,
  new_base_batch_builder, build,
}
use hub_of_hubs_status_trans.Batch

-- An argument of a statement.
pub data Arg : Type 0 where
  value : String → Arg
  payload : ManagedCluster → Arg

abbrev pub managed_clusters_jsonb_column_index : ℕ
managed_clusters_jsonb_column_index = 2

unfoldable pub new_managed_clusters_batch_builder : String → String → String → BaseBatchBuilder Arg
new_managed_clusters_batch_builder schema table_name leaf_hub_name =
    new_base_batch_builder schema table_name
      (λ i. if i == managed_clusters_jsonb_column_index then some "jsonb" else none)
      (value leaf_hub_name) "payload->'metadata'->>'name'"

unfoldable pub generate_update_statement : BaseBatchBuilder Arg → List Piece
generate_update_statement b =
    (text "UPDATE "
      ∷ text b.schema
      ∷ text "."
      ∷ text b.table_name
      ∷ text " AS old SET payload=new.payload FROM (values "
      ∷ generate_insert_or_update_args b.update_rows_count
          (length b.update_args / b.update_rows_count) b.table_special_columns)
    ++ (text ") AS new(leaf_hub_name,payload,cluster_name) "
        ∷ text "WHERE old.leaf_hub_name=new.leaf_hub_name "
        ∷ text "AND old.payload->'metadata'->>'name'=new.cluster_name"
        ∷ [])

-- The builder's methods `Insert`, `Update` and `Delete`.
unfoldable pub call : ManagedClustersCall → BaseBatchBuilder Arg → BaseBatchBuilder Arg
call (insert cluster error) b =
    Batch.insert (b.leaf_hub_name ∷ payload cluster ∷ value error ∷ []) b
call (update name cluster) b =
    Batch.update generate_update_statement (b.leaf_hub_name ∷ payload cluster ∷ value name ∷ []) b
call (delete name) b = Batch.delete (value name ∷ []) b

unfoldable pub call_all : List ManagedClustersCall → BaseBatchBuilder Arg → BaseBatchBuilder Arg
call_all [] b = b
call_all (c ∷ cs) b = call_all cs (call c b)

-- The batch that the calls make, once built.
unfoldable pub batch_of : String → String → String → List ManagedClustersCall → List (Statement Arg)
batch_of schema table_name leaf_hub_name calls =
    build generate_update_statement
      (call_all calls (new_managed_clusters_batch_builder schema table_name leaf_hub_name))
