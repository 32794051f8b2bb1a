-- ===== src/Batch/ManagedClusters/Rows.antt =====
-- The rows that a managed clusters batch inserts.
use mathlib.Core.List.{append-nil, append_assoc}
use hub_of_hubs_status_trans.Base.{
  ◌≡◌, refl, ap, sym, ◌∙◌, false, String, List, [], ◌∷◌, ◌++◌, arith,
}
use hub_of_hubs_status_trans.Db.{ManagedClustersCall, insert, update, delete}
use hub_of_hubs_status_trans.Batch
use hub_of_hubs_status_trans.Batch.{BaseBatchBuilder, new_base_batch_builder}
use hub_of_hubs_status_trans.Batch.Inserted.{
  begins, args_of, inserted, insert-inserted, update-inserted, delete-inserted, build-inserted,
}
use hub_of_hubs_status_trans.Batch.ManagedClusters.{
  Arg, value, payload, new_managed_clusters_batch_builder, generate_update_statement, call,
  call_all, batch_of,
}
use hub_of_hubs_status_trans.Batch.ManagedClusters.Statements.{
  new-IsSoundBuilder, call_all-IsSoundBuilder,
}

-- The row of the table that a call inserts.
abbrev pub inserted_row : Arg → ManagedClustersCall → List Arg
inserted_row hub (insert cluster error) = hub ∷ payload cluster ∷ value error ∷ []
inserted_row hub (update name cluster) = []
inserted_row hub (delete name) = []

abbrev pub inserted_rows : Arg → List ManagedClustersCall → List Arg
inserted_rows hub [] = []
inserted_rows hub (c ∷ cs) = inserted_row hub c ++ inserted_rows hub cs

generate_update_statement-begins :
    (b : BaseBatchBuilder Arg) → begins "INSERT into " (generate_update_statement b) ≡ false
unfolding generate_update_statement
generate_update_statement-begins b = refl

call-inserted :
    (c : ManagedClustersCall) (b : BaseBatchBuilder Arg)
    → inserted (call c b) ≡ inserted b ++ inserted_row b.leaf_hub_name c
unfolding call
call-inserted (insert cluster error) b = insert-inserted _ b
call-inserted (update name cluster) b =
    update-inserted generate_update_statement _ b generate_update_statement-begins
    ∙ sym (append-nil (inserted b))
call-inserted (delete name) b = delete-inserted _ b ∙ sym (append-nil (inserted b))

call-hub :
    (c : ManagedClustersCall) (b : BaseBatchBuilder Arg)
    → (call c b).leaf_hub_name ≡ b.leaf_hub_name
unfolding call Batch.insert Batch.update Batch.delete
call-hub (insert cluster error) b = ground arith
call-hub (update name cluster) b = ground arith
call-hub (delete name) b = ground arith

call_all-inserted :
    (cs : List ManagedClustersCall) (b : BaseBatchBuilder Arg)
    → inserted (call_all cs b) ≡ inserted b ++ inserted_rows b.leaf_hub_name cs
unfolding call_all
call_all-inserted [] b = sym (append-nil (inserted b))
call_all-inserted (c ∷ cs) b =
    call_all-inserted cs (call c b)
    ∙ ap (λ h. inserted (call c b) ++ inserted_rows h cs) (call-hub c b)
    ∙ ap (λ r. r ++ inserted_rows b.leaf_hub_name cs) (call-inserted c b)
    ∙ append_assoc (inserted b) (inserted_row b.leaf_hub_name c) (inserted_rows b.leaf_hub_name cs)

-- The arguments of the INSERT statements of a managed clusters batch, one statement after the other,
-- are the rows of the Insert calls in their order, each with the name of the leaf hub: no row is
-- lost, repeated or moved by the cut into statements.
pub batch_of-inserted :
    (schema table_name leaf_hub_name : String) (calls : List ManagedClustersCall)
    → args_of "INSERT into " (batch_of schema table_name leaf_hub_name calls)
      ≡ inserted_rows (value leaf_hub_name) calls
unfolding batch_of new_managed_clusters_batch_builder new_base_batch_builder
batch_of-inserted schema table_name leaf_hub_name calls =
    let b = new_managed_clusters_batch_builder schema table_name leaf_hub_name in
    let sound =
      call_all-IsSoundBuilder calls b (new-IsSoundBuilder schema table_name leaf_hub_name) in
    build-inserted generate_update_statement (call_all calls b) 3 generate_update_statement-begins
      sound.inserts.full
    ∙ call_all-inserted calls b
