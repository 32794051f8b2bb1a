-- ===== src/Tests/Handlers.antt =====
-- The handlers over a database that answers one fetch and keeps what one batch makes of it.
use mathlib.Core.List.Permᴰ
use mathlib.Core.Option
use hub_of_hubs_status_trans.Base.{
  ◌≡◌, refl, String, true, List, [], ◌∷◌, none, lookup, keys, arith, eq_iff, is_some, or_else,
  IsDistinct, ap, subst,
}
use hub_of_hubs_status_trans.Tests.ListSets.{lists, lists-IsSets}
use hub_of_hubs_status_trans.Tests.Syncing.{
  objects, clusters_from_db, table, compliance_rows, policies_from_db, policies, reports,
  unknown_rows, reports_from_db, unknown_rows-IsFound, cluster,
}
use hub_of_hubs_status_trans.Bundle.{
  Bundle, get_objects, get_leaf_hub_name, managed_clusters, clusters_per_policy_list,
  compliance_status,
}
use hub_of_hubs_status_trans.Db
use hub_of_hubs_status_trans.Db.{Fetched, rows, failed, Clusters, ManagedClustersStatusDb}
use hub_of_hubs_status_trans.Db.Policies
use hub_of_hubs_status_trans.Db.Policies.{NonCompliantClusterSets, Rows, PoliciesStatusDb, replaced}
use hub_of_hubs_status_trans.DbSyncer.ManagedClusters.{handle_managed_clusters_bundle}
use hub_of_hubs_status_trans.DbSyncer.ManagedClusters.Mirror.{find_cluster, version}
use hub_of_hubs_status_trans.DbSyncer.Policies.{
  handle_clusters_per_policy_bundle, handle_compliance_bundle,
}
use hub_of_hubs_status_trans.DbSyncer.Policies.RelevanceBundle.{relevant, find_policy}
use hub_of_hubs_status_trans.DbSyncer.Policies.ComplianceEntries.{
  report, find_status, IsFound, found_for,
}
use hub_of_hubs_status_trans.DbSyncer.Handled.{
  IsPoliciesTable, IsClustersTable, handle_clusters_per_policy_bundle-mirrors,
  handle_compliance_bundle-mirrors, handle_managed_clusters_bundle-mirrors,
}

-- The database at first, or after a batch, when it no longer answers.
data Once (T : Type 0) : Type 0 where
  at_first : Once T
  written : T → Once T

abbrev content : {T : Type 0} → T → Once T → String → T
content t at_first hub = t
content t (written t') hub = t'

abbrev answer : {T A : Type 0} → Fetched A → Once T → Fetched A
answer f at_first = f
answer f (written t) = failed "no answer"

abbrev rows_or : {A : Type 0} → A → Fetched A → A
rows_or a (rows b) = b
rows_or a (failed message) = a

abbrev Listed : Type 0
Listed = List (String × List String)

abbrev States : Type 0
States = List (String × NonCompliantClusterSets (List String))

abbrev policies_db :
    Rows → Fetched Listed → Fetched States → PoliciesStatusDb (Once Rows) (List String)
policies_db t f g = record {
  get_compliance_status_by_leaf_hub = λ hub d. answer f d;
  get_non_compliant_clusters_by_leaf_hub = λ hub d. answer g d;
  send_batch = λ hub calls d. (written (Policies.perform_all calls (content t d hub)), none);
}

policies_db-IsPoliciesTable :
    (t : Rows) (f : Fetched Listed) (g : Fetched States)
    → ((from_db : Listed)
        → f ≡ rows from_db
        → IsDistinct (keys from_db)
          × ((p n : String) → lists.contains n (or_else (lookup p from_db) []) ≡ is_some (t p n)))
    → ((from_db : States)
        → g ≡ rows from_db
        → IsDistinct (keys from_db)
          × ((p : String) → IsFound lists (found_for lists lists-IsSets p from_db) (t p)))
    → IsPoliciesTable lists lists-IsSets (policies_db t f g) (content t)
policies_db-IsPoliciesTable t f g listed found = record {
  fetched_rows =
      λ hub. elim [ at_first ↦ λ from_db e. listed from_db e | written t' ↦ λ from_db e. cc ];
  fetched_states =
      λ hub. elim [ at_first ↦ λ from_db e. found from_db e | written t' ↦ λ from_db e. cc ];
  sent = λ hub calls d e. (calls, Permᴰ.refl calls, λ p n. refl);
}

abbrev relevance_bundle : Bundle
relevance_bundle = clusters_per_policy_list (record {
  objects = record { policy_id = "p"; clusters = "b" ∷ "c" ∷ [] } ∷ [];
  leaf_hub_name = "hub1";
  generation = 1;
})

abbrev relevance_db : PoliciesStatusDb (Once Rows) (List String)
relevance_db = policies_db compliance_rows (rows policies_from_db) (failed "no answer")

relevance_db-IsPoliciesTable :
    IsPoliciesTable lists lists-IsSets relevance_db (content compliance_rows)
unfolding lookup keys
relevance_db-IsPoliciesTable =
    policies_db-IsPoliciesTable compliance_rows (rows policies_from_db) (failed "no answer")
      (λ from_db e.
        let same : policies_from_db ≡ from_db = ap (rows_or policies_from_db) e in
        subst
          (λ (m : Listed).
            IsDistinct (keys m)
            × ((p n : String)
                → lists.contains n (or_else (lookup p m) []) ≡ is_some (compliance_rows p n)))
          same
          (
            (refl, (refl, _)),
            λ p n. ground (arith, eq_iff "p" p, eq_iff "q" p, eq_iff "a" n, eq_iff "b" n),
          ))
      (λ from_db e. cc)

handle_clusters_per_policy_bundle-mirrors_example :
    let result = handle_clusters_per_policy_bundle lists relevance_db relevance_bundle at_first in
    (result.1 ≡ none
      → (p n : String)
      → content compliance_rows result.0 "hub1" p n
        ≡ relevant (find_policy p policies) n (compliance_rows p n))
    × ((message : String)
        → rows policies_from_db ≡ failed message
        → (result.0 ≡ at_first) × (is_some result.1 ≡ true))
unfolding get_leaf_hub_name get_objects
handle_clusters_per_policy_bundle-mirrors_example =
    handle_clusters_per_policy_bundle-mirrors lists lists-IsSets relevance_db
      (content compliance_rows) relevance_db-IsPoliciesTable relevance_bundle at_first
      (refl, (refl, (refl, _)), _)

abbrev compliance_bundle : Bundle
compliance_bundle = compliance_status (record {
  objects =
      record {
        policy_id = "p";
        non_compliant_clusters = "a" ∷ [];
        unknown_compliance_clusters = [];
      }
      ∷ [];
  leaf_hub_name = "hub1";
  base_bundle_generation = 1;
  generation = 1;
})

abbrev compliance_db : PoliciesStatusDb (Once Rows) (List String)
compliance_db = policies_db unknown_rows (failed "no answer") (rows reports_from_db)

compliance_db-IsPoliciesTable :
    IsPoliciesTable lists lists-IsSets compliance_db (content unknown_rows)
unfolding keys
compliance_db-IsPoliciesTable =
    policies_db-IsPoliciesTable unknown_rows (failed "no answer") (rows reports_from_db)
      (λ from_db e. cc)
      (λ from_db e.
        let same : reports_from_db ≡ from_db = ap (rows_or reports_from_db) e in
        subst
          (λ (m : States).
            IsDistinct (keys m)
            × ((p : String) → IsFound lists (found_for lists lists-IsSets p m) (unknown_rows p)))
          same ((refl, _), unknown_rows-IsFound))

handle_compliance_bundle-mirrors_example :
    let result = handle_compliance_bundle lists compliance_db compliance_bundle at_first in
    (result.1 ≡ none
      → (p n : String)
      → content unknown_rows result.0 "hub1" p n
        ≡ replaced (report (find_status p reports) n) (unknown_rows p n))
    × ((message : String)
        → rows reports_from_db ≡ failed message
        → (result.0 ≡ at_first) × (is_some result.1 ≡ true))
unfolding get_leaf_hub_name get_objects
handle_compliance_bundle-mirrors_example =
    handle_compliance_bundle-mirrors lists lists-IsSets compliance_db (content unknown_rows)
      compliance_db-IsPoliciesTable compliance_bundle at_first (refl, (λ n. ground arith), _)
      ((refl, _), _, _)

abbrev clusters_db : ManagedClustersStatusDb (Once Clusters)
clusters_db = record {
  get_managed_clusters_by_leaf_hub = λ hub d. answer (rows clusters_from_db) d;
  send_batch = λ hub calls d. (written (Db.perform_all calls (content table d hub)), none);
}

clusters_db-IsClustersTable : IsClustersTable clusters_db (content table)
unfolding lookup keys
clusters_db-IsClustersTable = record {
  fetched = λ hub. elim [
    | at_first ↦ λ from_db e.
        let same : clusters_from_db ≡ from_db = ap (rows_or clusters_from_db) e in
        subst
          (λ (m : List (String × String)).
            IsDistinct (keys m) × ((n : String) → lookup n m ≡ Option.map version (table n)))
          same ((refl, (refl, _)), λ n. ground arith)
    | written t ↦ λ from_db e. cc
  ];
  sent = λ hub calls d e. (calls, Permᴰ.refl calls, λ n. refl);
}

abbrev pub clusters_bundle : Bundle
clusters_bundle = managed_clusters (record {
  objects = cluster "b" "2" ∷ cluster "c" "1" ∷ [];
  leaf_hub_name = "hub1";
  generation = 1;
})

handle_managed_clusters_bundle-mirrors_example :
    let result = handle_managed_clusters_bundle clusters_db clusters_bundle at_first in
    (result.1 ≡ none → (n : String) → content table result.0 "hub1" n ≡ find_cluster n objects)
    × ((message : String)
        → rows clusters_from_db ≡ failed message
        → (result.0 ≡ at_first) × (is_some result.1 ≡ true))
unfolding get_leaf_hub_name get_objects
handle_managed_clusters_bundle-mirrors_example =
    handle_managed_clusters_bundle-mirrors clusters_db (content table) clusters_db-IsClustersTable
      clusters_bundle at_first (refl, (refl, _))
      (λ n old c h found v. ground (arith, eq_iff "a" n, eq_iff "b" n, eq_iff "c" n))
