-- ===== src/Batch/Policies.antt =====
-- policies_batch_builder.go of pkg/db/postgresql/batch. All arguments are texts.
pub mod Statements
pub mod ClusterDeletes
use hub_of_hubs_status_trans.Base.{
  ℕ, ◌+◌, ◌-◌, ◌/◌, ◌==◌, String, List, [], ◌∷◌, ◌++◌, Option, none, some, or_else, length, ltb,
  lookup, assign, keys, is_some, if◌then◌else◌,
}
use hub_of_hubs_status_trans.Db.Policies.{
  PoliciesCall, insert_row, update_policy_compliance, update_cluster_compliance, delete_policy,
  delete_cluster_status,
}
use hub_of_hubs_status_trans.Batch.{
  Piece, text, placeholder, SpecialColumns, generate_args_list, generate_insert_or_update_args,
  Statement, BaseBatchBuilder, new_base_batch_builder, build, queue, queue_rest, insert, update,
  delete, max_args_in_statement,
}

abbrev pub policy_uuid_column_index : ℕ
policy_uuid_column_index = 1

abbrev pub delete_cluster_compliance_prefix_args_count : ℕ
delete_cluster_compliance_prefix_args_count = 2

abbrev pub update_policy_compliance_type_column_index : ℕ
update_policy_compliance_type_column_index = 3

abbrev pub update_cluster_compliance_type_column_index : ℕ
update_cluster_compliance_type_column_index = 4

abbrev pub PolicyBuilder : Type 0
PolicyBuilder = BaseBatchBuilder String

-- `delete_cluster_compliance_args` maps policy ids to the arguments of one statement each.
pub record PoliciesBatchBuilder : Type 0 where
  pub base : PolicyBuilder
  pub update_cluster_compliance_args : List String
  pub update_cluster_compliance_rows_count : ℕ
  pub delete_cluster_compliance_args : List (String × List String)

unfoldable pub new_policies_batch_builder : String → String → String → PoliciesBatchBuilder
new_policies_batch_builder schema table_name leaf_hub_name = record {
  base =
      new_base_batch_builder schema table_name
        (λ i. if i == policy_uuid_column_index then some "uuid" else none) leaf_hub_name "id";
  update_cluster_compliance_args = [];
  update_cluster_compliance_rows_count = 0;
  delete_cluster_compliance_args = [];
}

-- `UPDATE <table> AS old SET compliance=new.compliance FROM (values `.
abbrev pub update_head : PolicyBuilder → List Piece → List Piece
update_head b pieces =
    text "UPDATE "
    ∷ text b.schema
    ∷ text "."
    ∷ text b.table_name
    ∷ text " AS old SET compliance=new.compliance FROM (values "
    ∷ pieces

-- The special columns of both update statements: the id and the compliance.
abbrev pub compliance_columns : ℕ → SpecialColumns
compliance_columns compliance_column_index i =
    if i == compliance_column_index
    then some "status.compliance_type"
    else (if i == policy_uuid_column_index then some "uuid" else none)

unfoldable pub generate_update_policy_compliance_statement : PolicyBuilder → List Piece
generate_update_policy_compliance_statement b = update_head b (
    generate_insert_or_update_args b.update_rows_count (length b.update_args / b.update_rows_count)
      (compliance_columns update_policy_compliance_type_column_index)
    ++ (text ") AS new(id,leaf_hub_name,compliance) "
        ∷ text "WHERE old.leaf_hub_name=new.leaf_hub_name AND old.id=new.id"
        ∷ []))

unfoldable pub generate_update_cluster_compliance_statement : PoliciesBatchBuilder → List Piece
generate_update_cluster_compliance_statement b = update_head b.base (
    generate_insert_or_update_args b.update_cluster_compliance_rows_count
      (length b.update_cluster_compliance_args / b.update_cluster_compliance_rows_count)
      (compliance_columns update_cluster_compliance_type_column_index)
    ++ (text ") AS new(id,cluster_name,leaf_hub_name,compliance) "
        ∷ text "WHERE old.leaf_hub_name=new.leaf_hub_name "
        ∷ text "AND old.id=new.id AND old.cluster_name=new.cluster_name"
        ∷ []))

-- The arguments gathered for a policy; a missing key reads as an empty slice.
abbrev pub delete_args_of : PoliciesBatchBuilder → String → List String
delete_args_of b policy_id = or_else (lookup policy_id b.delete_cluster_compliance_args) []

unfoldable pub generate_delete_cluster_compliance_statement :
    PoliciesBatchBuilder → String → List Piece
generate_delete_cluster_compliance_statement b policy_id =
    text "DELETE from "
    ∷ text b.base.schema
    ∷ text "."
    ∷ text b.base.table_name
    ∷ text " WHERE leaf_hub_name="
    ∷ placeholder 1 none
    ∷ text " AND id="
    ∷ placeholder 2 none
    ∷ text " AND cluster_name IN ("
    ∷ (generate_args_list
          (length (delete_args_of b policy_id) - delete_cluster_compliance_prefix_args_count)
          (delete_cluster_compliance_prefix_args_count + 1) (λ i. none)
        ++ (text ")" ∷ []))

unfoldable pub update_cluster :
    String → String → String → PoliciesBatchBuilder → PoliciesBatchBuilder
update_cluster policy_id cluster_name compliance b =
    let b1 : PoliciesBatchBuilder = record b {
      update_cluster_compliance_args =
          b.update_cluster_compliance_args
          ++ (policy_id ∷ cluster_name ∷ b.base.leaf_hub_name ∷ compliance ∷ []);
      update_cluster_compliance_rows_count = b.update_cluster_compliance_rows_count + 1;
    } in
    if ltb max_args_in_statement (length b1.update_cluster_compliance_args)
    then record b1 {
      base =
          queue (generate_update_cluster_compliance_statement b1) b1.update_cluster_compliance_args
            b1.base;
      update_cluster_compliance_args = [];
      update_cluster_compliance_rows_count = 0;
    }
    else b1

unfoldable pub delete_cluster : String → String → PoliciesBatchBuilder → PoliciesBatchBuilder
delete_cluster policy_id cluster_name b =
    let found =
      or_else (lookup policy_id b.delete_cluster_compliance_args)
        (b.base.leaf_hub_name ∷ policy_id ∷ []) in
    record b {
      delete_cluster_compliance_args =
          assign policy_id (found ++ (cluster_name ∷ [])) b.delete_cluster_compliance_args;
    }

-- The builder's methods `Insert`, `UpdatePolicyCompliance`, `UpdateClusterCompliance`,
-- `DeletePolicy` and `DeleteClusterStatus`.
unfoldable pub call : PoliciesCall → PoliciesBatchBuilder → PoliciesBatchBuilder
call (insert_row policy_id cluster_name error compliance) b = record b {
  base = insert (policy_id ∷ cluster_name ∷ b.base.leaf_hub_name ∷ error ∷ compliance ∷ []) b.base;
}
call (update_policy_compliance policy_id compliance) b = record b {
  base =
      update generate_update_policy_compliance_statement
        (policy_id ∷ b.base.leaf_hub_name ∷ compliance ∷ []) b.base;
}
call (update_cluster_compliance policy_id cluster_name compliance) b =
    update_cluster policy_id cluster_name compliance b
call (delete_policy policy_id) b = record b { base = delete (policy_id ∷ []) b.base }
call (delete_cluster_status policy_id cluster_name) b = delete_cluster policy_id cluster_name b

unfoldable pub call_all : List PoliciesCall → PoliciesBatchBuilder → PoliciesBatchBuilder
call_all [] b = b
call_all (c ∷ cs) b = call_all cs (call c b)

-- The statements up to the deletes of clusters, as `Build` queues them.
unfoldable pub build_rows : PoliciesBatchBuilder → List (Statement String)
build_rows b =
    queue_rest b.update_cluster_compliance_rows_count
      (generate_update_cluster_compliance_statement b) b.update_cluster_compliance_args
      (build generate_update_policy_compliance_statement b.base)

-- One statement for each policy with clusters to delete. Go goes over the map in no particular
-- order.
unfoldable pub build_cluster_deletes : PoliciesBatchBuilder → List String → List (Statement String)
build_cluster_deletes b [] = []
build_cluster_deletes b (policy_id ∷ ps) =
    record {
      sql = generate_delete_cluster_compliance_statement b policy_id;
      args = delete_args_of b policy_id;
    }
    ∷ build_cluster_deletes b ps

unfoldable pub build_policies : PoliciesBatchBuilder → List (Statement String)
build_policies b = build_rows b ++ build_cluster_deletes b (keys b.delete_cluster_compliance_args)

-- The builder after the calls.
unfoldable pub builder_of : String → String → String → List PoliciesCall → PoliciesBatchBuilder
builder_of schema table_name leaf_hub_name calls =
    call_all calls (new_policies_batch_builder schema table_name leaf_hub_name)
