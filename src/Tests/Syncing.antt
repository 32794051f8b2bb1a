-- ===== src/Tests/Syncing.antt =====
-- The handlers on concrete bundles: a table of two rows, and sets kept as lists.
use hub_of_hubs_status_trans.Tests.ListSets.{lists, lists-IsSets, without}
use hub_of_hubs_status_trans.DbSyncer.MinimalCompliance.Success.{
  handle_minimal_compliance_bundle-none, IsWorking,
}
use hub_of_hubs_status_trans.Batch.ManagedClusters.Rows.{batch_of-inserted}
use hub_of_hubs_status_trans.Batch.Inserted.{args_of}
use hub_of_hubs_status_trans.Batch.ManagedClusters.Statements.{batch_of-AllFilled}
use hub_of_hubs_status_trans.Batch.ManagedClusters.{batch_of, value, payload}
use hub_of_hubs_status_trans.Batch.Chunks.{AllFilled}
use hub_of_hubs_status_trans.DbSyncer.MinimalCompliance.Mirror.{
  handle_minimal_compliance_bundle-mirrors, last_entry, Counts, IsAggregated,
}
use hub_of_hubs_status_trans.DbSyncer.MinimalCompliance.{
  handle_minimal_compliance_bundle, update_policies, delete_policies,
}
use hub_of_hubs_status_trans.DbSyncer.Policies.ComplianceEntries.{
  report, find_status, IsFound, found_for,
}
use hub_of_hubs_status_trans.DbSyncer.Policies.ComplianceBundle.{compliance_calls-reported}
use hub_of_hubs_status_trans.Base.{
  ◌≡◌, refl, String, List, [], ◌∷◌, Option, none, some, if◌then◌else◌, str_eq, eq_iff, arith, elem,
  lookup, is_some, inl, inr, subst, sym, Option-cases, lookup-assign, lookup-remove, assign, remove,
  keys, elem-keys,
}
use hub_of_hubs_status_trans.Bundle.{
  Object, ManagedCluster, managed_cluster, clusters_per_policy, policy_compliance_status, Bundle,
  minimal_compliance_status, get_leaf_hub_name, get_objects,
}
use hub_of_hubs_status_trans.Db.{Clusters, rows}
use hub_of_hubs_status_trans.Db.Policies.{
  Rows, compliant, non_compliant, unknown, replaced, NonCompliantClusterSets,
  new_non_compliant_cluster_sets, AggregatedPoliciesStatusDb,
}
use hub_of_hubs_status_trans.DbSyncer.ManagedClusters.{batch_calls}
use hub_of_hubs_status_trans.DbSyncer.ManagedClusters.Mirror.{
  batch_calls-mirrors, find_cluster, version,
}
use hub_of_hubs_status_trans.DbSyncer.Policies.{relevance_calls, compliance_calls}
use hub_of_hubs_status_trans.DbSyncer.Policies.RelevanceBundle.{
  relevance_calls-relevant, relevant, find_policy,
}
use hub_of_hubs_status_trans.DbSyncer.Policies.Compliance.{IsState}
use hub_of_hubs_status_trans.Db
use hub_of_hubs_status_trans.Db.Policies

abbrev pub cluster : String → String → ManagedCluster
cluster name version = record { name = name; resource_version = version; document = "" }

-- The table has clusters a and b; the bundle has b in a new version, and c.
abbrev pub objects : List Object
objects = managed_cluster (cluster "b" "2") ∷ managed_cluster (cluster "c" "1") ∷ []

abbrev pub clusters_from_db : List (String × String)
clusters_from_db = ("a", "1") ∷ ("b", "1") ∷ []

abbrev pub table : Clusters
table n =
    if str_eq "a" n
    then some (cluster "a" "1")
    else (if str_eq "b" n then some (cluster "b" "1") else none)

batch_calls-mirrors_example :
    Db.perform_all (batch_calls objects clusters_from_db) table "a" ≡ find_cluster "a" objects
unfolding lookup
batch_calls-mirrors_example =
    batch_calls-mirrors objects clusters_from_db table (refl, (refl, _)) (λ n. ground arith)
      (λ n old c h found v. ground (arith, eq_iff "a" n, eq_iff "b" n, eq_iff "c" n)) "a"

-- Policy p has rows for a, compliant, and b, unknown; policy q has one for a.
abbrev pub compliance_rows : Rows
compliance_rows p n =
    if str_eq "p" p
    then (if str_eq "a" n then some compliant else (if str_eq "b" n then some unknown else none))
    else (if str_eq "q" p then (if str_eq "a" n then some non_compliant else none) else none)

abbrev pub policies_from_db : List (String × List String)
policies_from_db = ("p", "a" ∷ "b" ∷ []) ∷ ("q", "a" ∷ []) ∷ []

abbrev pub policies : List Object
policies = clusters_per_policy (record { policy_id = "p"; clusters = "b" ∷ "c" ∷ [] }) ∷ []

relevance_calls-relevant_example :
    Policies.perform_all (relevance_calls lists policies policies_from_db) compliance_rows "p" "c"
    ≡ relevant (find_policy "p" policies) "c" (compliance_rows "p" "c")
unfolding lookup
relevance_calls-relevant_example =
    relevance_calls-relevant lists lists-IsSets policies policies_from_db compliance_rows
      (refl, (refl, (refl, _)), _)
      (λ p m. ground (arith, eq_iff "p" p, eq_iff "q" p, eq_iff "a" m, eq_iff "b" m)) "p" "c"

-- Policy p has an unknown row for b, and the bundle reports a as not compliant.
abbrev pub reports : List Object
reports =
    policy_compliance_status (record {
      policy_id = "p";
      non_compliant_clusters = "a" ∷ [];
      unknown_compliance_clusters = [];
    })
    ∷ []

abbrev pub unknown_rows : Rows
unknown_rows p n = if str_eq "p" p then (if str_eq "b" n then some unknown else none) else none

abbrev pub reports_from_db : List (String × NonCompliantClusterSets (List String))
reports_from_db = ("p", record { non_compliant_clusters = []; unknown_clusters = "b" ∷ [] }) ∷ []

unknown_rows-IsState : (p n : String) → IsState (unknown_rows p n)
unknown_rows-IsState p n = elim (Option-cases (unknown_rows p n)) [
  | inl empty ↦ subst IsState (sym empty) _
  | inr (v, found) ↦ subst IsState (sym found) (inr (inr (ground arith)))
]

pub unknown_rows-IsFound :
    (p : String) → IsFound lists (found_for lists lists-IsSets p reports_from_db) (unknown_rows p)
unfolding lookup new_non_compliant_cluster_sets
unknown_rows-IsFound p = record {
  non_compliant_rows = λ n. ground arith;
  unknown_rows = λ n. ground arith;
  states = unknown_rows-IsState p;
}

compliance_calls-reported_example :
    Policies.perform_all (compliance_calls lists reports reports_from_db) unknown_rows "p" "b"
    ≡ replaced (report (find_status "p" reports) "b") (unknown_rows "p" "b")
compliance_calls-reported_example =
    compliance_calls-reported lists lists-IsSets reports reports_from_db unknown_rows
      (refl, (λ n. ground arith), _) unknown_rows-IsFound "p" "b"

-- A database of one leaf hub, without errors.
abbrev one_hub : AggregatedPoliciesStatusDb (List (String × Counts)) (List String)
one_hub = record {
  get_policy_ids_by_leaf_hub = λ hub d. rows (keys d);
  insert_or_update_aggregated_policy_compliance =
      λ hub p applied non_compliant d. (assign p (applied, non_compliant) d, none);
  delete_all_compliance_rows = λ hub p d. (remove p d, none);
}

abbrev pub row_of : List (String × Counts) → String → String → Option Counts
row_of d hub p = lookup p d

one_hub-IsAggregated : IsAggregated lists one_hub row_of
one_hub-IsAggregated = record {
  fetched = λ hub d ids e p.
      let same : keys d ≡ ids = cc in
      subst (λ k. elem p k ≡ is_some (lookup p d)) same (elem-keys p d);
  updated = λ hub p a n d e q. lookup-assign p q (a, n) d;
  deleted = λ hub p d e q. lookup-remove p q d;
}

abbrev pub minimal : Bundle
minimal = minimal_compliance_status (record {
  objects = record { policy_id = "p"; applied_clusters = 3; non_compliant_clusters = 1 } ∷ [];
  leaf_hub_name = "hub1";
  generation = 1;
})

handle_minimal_compliance_bundle-mirrors_example :
    row_of
      (handle_minimal_compliance_bundle lists one_hub minimal (("q", (1, 1)) ∷ [])).0
      (get_leaf_hub_name minimal)
      "p"
    ≡ last_entry "p" (get_objects minimal)
unfolding handle_minimal_compliance_bundle update_policies delete_policies get_leaf_hub_name
    get_objects keys without
handle_minimal_compliance_bundle-mirrors_example =
    handle_minimal_compliance_bundle-mirrors lists lists-IsSets one_hub row_of one_hub-IsAggregated
      minimal (("q", (1, 1)) ∷ []) refl "p"

batch_of-AllFilled_example : AllFilled 3 (
    batch_of "status" "managed_clusters" "hub1"
      (Db.insert (cluster "a" "1") "none" ∷ Db.update "b" (cluster "b" "2") ∷ Db.delete "c" ∷ []))
batch_of-AllFilled_example =
    batch_of-AllFilled "status" "managed_clusters" "hub1"
      (Db.insert (cluster "a" "1") "none" ∷ Db.update "b" (cluster "b" "2") ∷ Db.delete "c" ∷ [])

batch_of-inserted_example :
    args_of "INSERT into "
      (batch_of "status" "managed_clusters" "hub1" (Db.insert (cluster "a" "1") "none" ∷ []))
    ≡ value "hub1" ∷ payload (cluster "a" "1") ∷ value "none" ∷ []
batch_of-inserted_example =
    batch_of-inserted "status" "managed_clusters" "hub1" (Db.insert (cluster "a" "1") "none" ∷ [])

one_hub-IsWorking : IsWorking one_hub
one_hub-IsWorking = record {
  fetches = λ hub d. (keys d, refl);
  updates = λ hub p a n d. refl;
  deletes = λ hub p d. refl;
}

handle_minimal_compliance_bundle-none_example :
    (handle_minimal_compliance_bundle lists one_hub minimal (("q", (1, 1)) ∷ [])).1 ≡ none
handle_minimal_compliance_bundle-none_example =
    handle_minimal_compliance_bundle-none lists one_hub one_hub-IsWorking minimal
      (("q", (1, 1)) ∷ [])
