-- ===== src/Batch/ManagedClusters/Statements.antt =====
-- The statements of a managed clusters batch.
use hub_of_hubs_status_trans.Base.{◌/◌, refl, ◌∙◌, String, List, [], ◌∷◌, arith, length}
use mathlib.Core.List.{append-nil}
use hub_of_hubs_status_trans.Db.{ManagedClustersCall, insert, update, delete}
use hub_of_hubs_status_trans.Batch.{
  BaseBatchBuilder, new_base_batch_builder, generate_insert_or_update_args,
}
use hub_of_hubs_status_trans.Batch.Placeholders.{
  placeholders, placeholders-append, generate_insert_or_update_args-numbers,
}
use hub_of_hubs_status_trans.Batch.Gathered.{IsNumbered, rows_numbered}
use hub_of_hubs_status_trans.Batch.Chunks.{
  AllFilled, Fits, IsSoundBuilder, insert-IsSoundBuilder, update-IsSoundBuilder,
  delete-IsSoundBuilder, build-AllFilled,
}
use hub_of_hubs_status_trans.Batch.ManagedClusters.{
  Arg, new_managed_clusters_batch_builder, generate_update_statement, call, call_all, batch_of,
}

three_columns : Fits 3 3 3
three_columns = omega arith

generate_update_statement-IsNumbered : IsNumbered 3 generate_update_statement
unfolding generate_update_statement
generate_update_statement-IsNumbered b rows count full =
    let args =
      generate_insert_or_update_args b.update_rows_count
        (length b.update_args / b.update_rows_count) b.table_special_columns in
    placeholders-append args _
    ∙ append-nil (placeholders args)
    ∙ generate_insert_or_update_args-numbers b.update_rows_count
        (length b.update_args / b.update_rows_count) b.table_special_columns
    ∙ rows_numbered 3 b.update_rows_count rows b.update_args count full

pub new-IsSoundBuilder :
    (schema table_name leaf_hub_name : String)
    → IsSoundBuilder 3 3 3 (new_managed_clusters_batch_builder schema table_name leaf_hub_name)
unfolding new_managed_clusters_batch_builder new_base_batch_builder
new-IsSoundBuilder schema table_name leaf_hub_name = record {
  inserts = record { full = omega arith; room = omega arith };
  updates = record { full = omega arith; room = omega arith };
  deletes = omega arith;
  deletes_room = omega arith;
  queued = tt;
}

call-IsSoundBuilder :
    (c : ManagedClustersCall) (b : BaseBatchBuilder Arg)
    → IsSoundBuilder 3 3 3 b
    → IsSoundBuilder 3 3 3 (call c b)
unfolding call
call-IsSoundBuilder (insert cluster error) b v = insert-IsSoundBuilder three_columns _ b refl v
call-IsSoundBuilder (update name cluster) b v =
    update-IsSoundBuilder three_columns generate_update_statement _ b
      generate_update_statement-IsNumbered refl v
call-IsSoundBuilder (delete name) b v = delete-IsSoundBuilder three_columns _ b v

pub call_all-IsSoundBuilder :
    (cs : List ManagedClustersCall) (b : BaseBatchBuilder Arg)
    → IsSoundBuilder 3 3 3 b
    → IsSoundBuilder 3 3 3 (call_all cs b)
unfolding call_all
call_all-IsSoundBuilder [] b v = v
call_all-IsSoundBuilder (c ∷ cs) b v =
    call_all-IsSoundBuilder cs (call c b) (call-IsSoundBuilder c b v)

-- Whatever calls are made to a managed clusters batch builder, each statement of the batch that it
-- builds has the placeholders 1, 2 and so on in this order, one for each argument, and at most three
-- arguments more than the limit of 50000.
pub batch_of-AllFilled :
    (schema table_name leaf_hub_name : String) (calls : List ManagedClustersCall)
    → AllFilled 3 (batch_of schema table_name leaf_hub_name calls)
unfolding batch_of
batch_of-AllFilled schema table_name leaf_hub_name calls =
    build-AllFilled three_columns generate_update_statement _ generate_update_statement-IsNumbered
      (call_all-IsSoundBuilder calls _ (new-IsSoundBuilder schema table_name leaf_hub_name))
