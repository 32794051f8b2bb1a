-- ===== src/Batch/Policies/Statements.antt =====
-- The statements of a policies batch, up to the deletes of clusters.
use mathlib.Core.List.{append-nil}
use hub_of_hubs_status_trans.Base.{
  ℕ, suc, ◌+◌, ◌*◌, ◌/◌, ◌≡◌, refl, ap, ◌∙◌, String, List, [], ◌∷◌, ◌++◌, arith, length, ltb,
  Bool-cases, inl, inr,
}
use hub_of_hubs_status_trans.Db.Policies.{
  PoliciesCall, insert_row, update_policy_compliance, update_cluster_compliance, delete_policy,
  delete_cluster_status,
}
use hub_of_hubs_status_trans.Batch.{
  Piece, SpecialColumns, new_base_batch_builder, generate_insert_or_update_args,
  max_args_in_statement,
}
use hub_of_hubs_status_trans.Batch.Placeholders.{
  placeholders, numbers, placeholders-append, generate_insert_or_update_args-numbers,
}
use hub_of_hubs_status_trans.Batch.Gathered.{
  IsGathered, IsNumbered, rows_numbered, gathers, none_gathered,
}
use hub_of_hubs_status_trans.Batch.Chunks.{
  AllFilled, AllFilled-append, queue_rest-AllFilled, Fits, IsSoundBuilder, insert-IsSoundBuilder,
  update-IsSoundBuilder, delete-IsSoundBuilder, build-AllFilled,
}
use hub_of_hubs_status_trans.Batch.Policies.{
  PoliciesBatchBuilder, new_policies_batch_builder, compliance_columns,
  generate_update_policy_compliance_statement, generate_update_cluster_compliance_statement,
  update_cluster, delete_cluster, call, call_all, build_rows, builder_of,
}

five_columns : Fits 5 5 3
five_columns = omega arith

-- The placeholders of an update statement's rows, whatever text follows.
update_rows-numbered :
    (columns n rows : ℕ) (args : List String) (special : SpecialColumns) (pieces : List Piece)
    → placeholders pieces ≡ []
    → n ≡ suc rows
    → length args ≡ suc rows * columns
    → placeholders (generate_insert_or_update_args n (length args / n) special ++ pieces)
      ≡ numbers 1 (length args)
update_rows-numbered columns n rows args special pieces bare count full =
    let values = generate_insert_or_update_args n (length args / n) special in
    placeholders-append values pieces
    ∙ ap (λ r. placeholders values ++ r) bare
    ∙ append-nil (placeholders values)
    ∙ generate_insert_or_update_args-numbers n (length args / n) special
    ∙ rows_numbered columns n rows args count full

policy_statement-IsNumbered : IsNumbered 3 generate_update_policy_compliance_statement
unfolding generate_update_policy_compliance_statement
policy_statement-IsNumbered b rows count full =
    update_rows-numbered 3 b.update_rows_count rows b.update_args (compliance_columns 3) _ refl
      count full

cluster_statement-numbered :
    (b : PoliciesBatchBuilder) (rows : ℕ)
    → b.update_cluster_compliance_rows_count ≡ suc rows
    → length b.update_cluster_compliance_args ≡ suc rows * 4
    → placeholders (generate_update_cluster_compliance_statement b)
      ≡ numbers 1 (length b.update_cluster_compliance_args)
unfolding generate_update_cluster_compliance_statement
cluster_statement-numbered b rows count full =
    update_rows-numbered 4 b.update_cluster_compliance_rows_count rows
      b.update_cluster_compliance_args (compliance_columns 4) _ refl count full

pub record IsSoundPolicies (b : PoliciesBatchBuilder) : Type 0 where
  pub base_sound : IsSoundBuilder 5 5 3 b.base
  pub clusters :
      IsGathered 4 b.update_cluster_compliance_rows_count b.update_cluster_compliance_args

new-IsSoundPolicies :
    (schema table_name leaf_hub_name : String)
    → IsSoundPolicies (new_policies_batch_builder schema table_name leaf_hub_name)
unfolding new_policies_batch_builder new_base_batch_builder
new-IsSoundPolicies schema table_name leaf_hub_name = record {
  base_sound = record {
    inserts = record { full = omega arith; room = omega arith };
    updates = record { full = omega arith; room = omega arith };
    deletes = omega arith;
    deletes_room = omega arith;
    queued = tt;
  };
  clusters = record { full = omega arith; room = omega arith };
}

update_cluster-IsSoundPolicies :
    (p c v : String) (b : PoliciesBatchBuilder)
    → IsSoundPolicies b
    → IsSoundPolicies (update_cluster p c v b)
unfolding update_cluster
update_cluster-IsSoundPolicies p c v b s =
    let row = p ∷ c ∷ b.base.leaf_hub_name ∷ v ∷ [] in
    let args = b.update_cluster_compliance_args ++ row in
    let rows = b.update_cluster_compliance_rows_count in
    let (full, bound) = gathers 4 rows b.update_cluster_compliance_args row s.clusters refl in
    let b1 : PoliciesBatchBuilder = record b {
      update_cluster_compliance_args = args;
      update_cluster_compliance_rows_count = rows + 1;
    } in
    let base = s.base_sound in
    elim (Bool-cases (ltb max_args_in_statement (length args))) [
      | inl over ↦ rw over (record {
        base_sound = record {
          inserts = base.inserts;
          updates = base.updates;
          deletes = base.deletes;
          deletes_room = base.deletes_room;
          queued = AllFilled-append 5 b.base.batch _ base.queued (record {
            numbered = cluster_statement-numbered b1 rows (omega arith) full;
            bounded = omega (arith, bound);
          });
        };
        clusters = none_gathered 4;
      })
      | inr under ↦ rw under (record {
        base_sound = base;
        clusters = record { full = omega (arith, full); room = ground (arith, under) };
      })
    ]

call-IsSoundPolicies :
    (c : PoliciesCall) (b : PoliciesBatchBuilder) → IsSoundPolicies b → IsSoundPolicies (call c b)
unfolding call delete_cluster
call-IsSoundPolicies (insert_row p c e v) b s = record {
  base_sound = insert-IsSoundBuilder five_columns _ b.base refl s.base_sound;
  clusters = s.clusters;
}
call-IsSoundPolicies (update_policy_compliance p v) b s = record {
  base_sound =
      update-IsSoundBuilder five_columns generate_update_policy_compliance_statement _ b.base
        policy_statement-IsNumbered refl s.base_sound;
  clusters = s.clusters;
}
call-IsSoundPolicies (update_cluster_compliance p c v) b s =
    update_cluster-IsSoundPolicies p c v b s
call-IsSoundPolicies (delete_policy p) b s = record {
  base_sound = delete-IsSoundBuilder five_columns p b.base s.base_sound;
  clusters = s.clusters;
}
call-IsSoundPolicies (delete_cluster_status p c) b s = record {
  base_sound = s.base_sound;
  clusters = s.clusters;
}

call_all-IsSoundPolicies :
    (cs : List PoliciesCall) (b : PoliciesBatchBuilder)
    → IsSoundPolicies b
    → IsSoundPolicies (call_all cs b)
unfolding call_all
call_all-IsSoundPolicies [] b s = s
call_all-IsSoundPolicies (c ∷ cs) b s =
    call_all-IsSoundPolicies cs (call c b) (call-IsSoundPolicies c b s)

-- Whatever calls are made to a policies batch builder, each statement that it builds, the deletes of
-- clusters aside, has the placeholders 1, 2 and so on in this order, one for each argument, and at
-- most five arguments more than the limit of 50000.
pub build_rows-AllFilled :
    (schema table_name leaf_hub_name : String) (calls : List PoliciesCall)
    → AllFilled 5 (build_rows (builder_of schema table_name leaf_hub_name calls))
unfolding build_rows builder_of
build_rows-AllFilled schema table_name leaf_hub_name calls =
    let b = call_all calls (new_policies_batch_builder schema table_name leaf_hub_name) in
    let s =
      call_all-IsSoundPolicies calls _ (new-IsSoundPolicies schema table_name leaf_hub_name) in
    queue_rest-AllFilled 5 b.update_cluster_compliance_rows_count
      (generate_update_cluster_compliance_statement b) b.update_cluster_compliance_args _
      (build-AllFilled five_columns generate_update_policy_compliance_statement b.base
        policy_statement-IsNumbered s.base_sound)
      (λ rows e. cluster_statement-numbered b rows e (s.clusters.full ∙ ap (λ n. n * 4) e))
      s.clusters.room
