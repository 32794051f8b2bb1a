-- ===== src/Tests/Orders.antt =====
-- The calls of the handlers in another order, on concrete bundles.
use mathlib.Core.List.{Permᴰ}
use hub_of_hubs_status_trans.Base.{◌≡◌, refl, List, [], ◌∷◌, lookup, keys, arith, eq_iff, remove}
use hub_of_hubs_status_trans.Tests.ListSets.{lists, lists-IsSets, without}
use hub_of_hubs_status_trans.Tests.Syncing.{
  compliance_rows, policies_from_db, policies, reports, unknown_rows, reports_from_db,
  unknown_rows-IsFound,
}
use hub_of_hubs_status_trans.Db.Policies
use hub_of_hubs_status_trans.Db.Policies.{
  PoliciesCall, compliant, non_compliant, unknown, new_non_compliant_cluster_sets, replaced,
}
use hub_of_hubs_status_trans.DbSyncer.Policies.{
  relevance_calls, compliance_calls, sync_policies, handle_cluster_per_policy, insert_clusters,
  insert_cluster, sync_compliance, handle_policy_compliance_status, update_clusters,
}
use hub_of_hubs_status_trans.DbSyncer.Policies.RelevanceBundle.{relevant, find_policy}
use hub_of_hubs_status_trans.DbSyncer.Policies.RelevanceOrder.{relevance_calls-any_order}
use hub_of_hubs_status_trans.DbSyncer.Policies.ComplianceEntries.{report, find_status}
use hub_of_hubs_status_trans.DbSyncer.Policies.ComplianceOrder.{compliance_calls-any_order}

-- The calls are an insert of c, then the deletes of the cluster a and of the policy q.
abbrev deletes_swapped : List PoliciesCall
deletes_swapped =
    Policies.delete_cluster_status "p" "a"
    ∷ Policies.insert_row "p" "c" "none" unknown
    ∷ Policies.delete_policy "q"
    ∷ []

relevance_calls-any_order_example :
    Policies.perform_all deletes_swapped compliance_rows "p" "c"
    ≡ relevant (find_policy "p" policies) "c" (compliance_rows "p" "c")
unfolding lookup relevance_calls sync_policies handle_cluster_per_policy insert_clusters
    insert_cluster keys remove without
relevance_calls-any_order_example =
    relevance_calls-any_order lists lists-IsSets policies policies_from_db compliance_rows
      deletes_swapped (refl, (refl, (refl, _)), _) (refl, (refl, _))
      (λ p m. ground (arith, eq_iff "p" p, eq_iff "q" p, eq_iff "a" m, eq_iff "b" m))
      (Permᴰ.swap refl refl) "p" "c"

abbrev compliant_first : List PoliciesCall
compliant_first =
    Policies.update_cluster_compliance "p" "b" compliant
    ∷ Policies.update_cluster_compliance "p" "a" non_compliant
    ∷ []

compliance_calls-any_order_example :
    Policies.perform_all compliant_first unknown_rows "p" "b"
    ≡ replaced (report (find_status "p" reports) "b") (unknown_rows "p" "b")
unfolding lookup compliance_calls sync_compliance handle_policy_compliance_status update_clusters
    keys remove without new_non_compliant_cluster_sets
compliance_calls-any_order_example =
    compliance_calls-any_order lists lists-IsSets reports reports_from_db unknown_rows
      compliant_first (refl, (λ n. ground arith), _) ((refl, _), _, _) (refl, _)
      unknown_rows-IsFound (Permᴰ.swap refl refl) "p" "b"
