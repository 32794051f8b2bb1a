-- ===== src/DbSyncer/Handled.antt =====
-- The bundle handlers of pkg/dbsyncer from the fetch to the batch, over databases that keep the
-- promises of pkg/db/db.go.
use mathlib.Core.List.{Permᴰ}
use mathlib.Core.Option
use hub_of_hubs_status_trans.Base.{
  ◌≡◌, refl, ap, ◌∙◌, String, List, Option, none, some, arith, lookup, keys, is_some, or_else,
  IsDistinct, wrap, ◌⊎◌, inl, inr, true,
}
use hub_of_hubs_status_trans.Bundle.{Bundle, ManagedCluster, get_objects, get_leaf_hub_name}
use hub_of_hubs_status_trans.Db.{
  Fetched, rows, failed, ManagedClustersCall, ManagedClustersStatusDb, Clusters, perform_all,
}
use hub_of_hubs_status_trans.Db.Sets.{Sets, IsSets}
use hub_of_hubs_status_trans.Db.Policies.{
  PoliciesCall, PoliciesStatusDb, NonCompliantClusterSets, Rows, replaced,
}
use hub_of_hubs_status_trans.Db.Policies
use hub_of_hubs_status_trans.DbSyncer.ManagedClusters.{handle_managed_clusters_bundle, batch_calls}
use hub_of_hubs_status_trans.DbSyncer.ManagedClusters.Mirror.{
  find_cluster, HasDistinctNames, version,
}
use hub_of_hubs_status_trans.DbSyncer.ManagedClusters.Order.{batch_calls-any_order}
use hub_of_hubs_status_trans.DbSyncer.Policies.{
  handle_clusters_per_policy_bundle, handle_compliance_bundle, relevance_calls, compliance_calls,
}
use hub_of_hubs_status_trans.DbSyncer.Policies.RelevanceBundle.{find_policy, IsProperList, relevant}
use hub_of_hubs_status_trans.DbSyncer.Policies.RelevanceOrder.{relevance_calls-any_order}
use hub_of_hubs_status_trans.DbSyncer.Policies.ComplianceEntries.{
  find_status, IsProperReport, report, IsFound, found_for,
}
use hub_of_hubs_status_trans.DbSyncer.Policies.ComplianceOrder.{
  HasDistinctLists, compliance_calls-any_order,
}

Fetched-cases {ℓ} :
    {A : Type ℓ} (f : Fetched A)
    → ((message : String) × (f ≡ failed message)) ⊎ ((a : A) × (f ≡ rows a))
Fetched-cases (failed message) = inl (message, refl)
Fetched-cases (rows a) = inr (a, refl)

wrap-none : (message : String) (error : Option String) → wrap message error ≡ none → error ≡ none
wrap-none message none h = refl
wrap-none message (some e) h = cc

-- A database whose policy table is `table`, by leaf hub. A fetch that succeeds tells which rows there
-- are, each policy once; a batch that is sent without an error has had the effect of its calls, each
-- of them once, in some order.
pub record IsPoliciesTable {D S : Type 0} (sets : Sets S) (laws : IsSets sets)
    (client : PoliciesStatusDb D S) (table : D → String → Rows) : Type 0 where
  pub fetched_rows :
      (hub : String) (d : D) (from_db : List (String × S))
      → client.get_compliance_status_by_leaf_hub hub d ≡ rows from_db
      → IsDistinct (keys from_db)
        × ((p n : String)
            → sets.contains n (or_else (lookup p from_db) sets.new_set) ≡ is_some (table d hub p n))
  pub fetched_states :
      (hub : String) (d : D) (from_db : List (String × NonCompliantClusterSets S))
      → client.get_non_compliant_clusters_by_leaf_hub hub d ≡ rows from_db
      → IsDistinct (keys from_db)
        × ((p : String) → IsFound sets (found_for sets laws p from_db) (table d hub p))
  pub sent :
      (hub : String) (calls : List PoliciesCall) (d : D)
      → (client.send_batch hub calls d).1 ≡ none
      → (calls' : List PoliciesCall) × Permᴰ calls calls'
        × ((p n : String)
            → table (client.send_batch hub calls d).0 hub p n
              ≡ Policies.perform_all calls' (table d hub) p n)

module _ {D S : Type 0} (sets : Sets S) (laws : IsSets sets) (client : PoliciesStatusDb D S)
    (table : D → String → Rows) (promise : IsPoliciesTable sets laws client table) (bundle : Bundle)
    (d : D) where
  -- If `handleClustersPerPolicyBundle` returns no error, the rows of the bundle's leaf hub are those
  -- of the clusters that the bundle lists for a policy: a row that was there keeps its compliance, a
  -- new one is unknown, and every other row is gone; given that the database keeps its promises, that
  -- each policy has one entry in the bundle at most, and that an entry lists no cluster twice. If the
  -- fetch fails, the handler returns an error and leaves the database as it was.
  pub handle_clusters_per_policy_bundle-mirrors :
      IsProperList (get_objects bundle)
      → let result = handle_clusters_per_policy_bundle sets client bundle d in
        let hub = get_leaf_hub_name bundle in
        (result.1 ≡ none
          → (p n : String)
          → table result.0 hub p n
            ≡ relevant (find_policy p (get_objects bundle)) n (table d hub p n))
        × ((message : String)
            → client.get_compliance_status_by_leaf_hub hub d ≡ failed message
            → (result.0 ≡ d) × (is_some result.1 ≡ true))
  unfolding handle_clusters_per_policy_bundle
  handle_clusters_per_policy_bundle-mirrors proper =
      let hub = get_leaf_hub_name bundle in
      let objects = get_objects bundle in
      let result = handle_clusters_per_policy_bundle sets client bundle d in
      (
        λ succeeds p n. elim (Fetched-cases (client.get_compliance_status_by_leaf_hub hub d)) [
          | inl (message, e) ↦ absurd (ground arith)
          | inr (from_db, e) ↦
              let batch = client.send_batch hub (relevance_calls sets objects from_db) d in
              let done : batch.1 ≡ none = ground arith in
              let left : result.0 ≡ batch.0 = ground arith in
              let (calls, order, at) =
                promise.sent hub (relevance_calls sets objects from_db) d done in
              let (distinct, agree) = promise.fetched_rows hub d from_db e in
              ap (λ x. table x hub p n) left
              ∙ at p n
              ∙ relevance_calls-any_order sets laws objects from_db (table d hub) calls proper
                  distinct agree order p n
        ],
        λ message e. (ground arith, ground arith),
      )

  -- If `handleComplianceBundle` returns no error, each row of the bundle's leaf hub has the compliance
  -- that the bundle reports, compliant where the bundle lists its cluster or policy nowhere, and no
  -- row is added or lost; given that the database keeps its promises, that each policy has one entry
  -- at most, that no list of an entry has a cluster twice, and that no entry lists a cluster both
  -- ways. If the fetch fails, the handler returns an error and leaves the database as it was.
  pub handle_compliance_bundle-mirrors :
      IsProperReport (get_objects bundle)
      → HasDistinctLists (get_objects bundle)
      → let result = handle_compliance_bundle sets client bundle d in
        let hub = get_leaf_hub_name bundle in
        (result.1 ≡ none
          → (p n : String)
          → table result.0 hub p n
            ≡ replaced (report (find_status p (get_objects bundle)) n) (table d hub p n))
        × ((message : String)
            → client.get_non_compliant_clusters_by_leaf_hub hub d ≡ failed message
            → (result.0 ≡ d) × (is_some result.1 ≡ true))
  unfolding handle_compliance_bundle
  handle_compliance_bundle-mirrors proper lists =
      let hub = get_leaf_hub_name bundle in
      let objects = get_objects bundle in
      let result = handle_compliance_bundle sets client bundle d in
      (
        λ succeeds p n. elim (Fetched-cases (client.get_non_compliant_clusters_by_leaf_hub hub d)) [
          | inl (message, e) ↦ absurd (ground arith)
          | inr (from_db, e) ↦
              let batch = client.send_batch hub (compliance_calls sets objects from_db) d in
              let done : batch.1 ≡ none = ground arith in
              let left : result.0 ≡ batch.0 = ground arith in
              let (calls, order, at) =
                promise.sent hub (compliance_calls sets objects from_db) d done in
              let (distinct, agree) = promise.fetched_states hub d from_db e in
              ap (λ x. table x hub p n) left
              ∙ at p n
              ∙ compliance_calls-any_order sets laws objects from_db (table d hub) calls proper
                  lists distinct agree order p n
        ],
        λ message e. (ground arith, ground arith),
      )

-- The same for the table of managed clusters.
pub record IsClustersTable {D : Type 0} (client : ManagedClustersStatusDb D)
    (table : D → String → Clusters) : Type 0 where
  pub fetched :
      (hub : String) (d : D) (from_db : List (String × String))
      → client.get_managed_clusters_by_leaf_hub hub d ≡ rows from_db
      → IsDistinct (keys from_db)
        × ((n : String) → lookup n from_db ≡ Option.map version (table d hub n))
  pub sent :
      (hub : String) (calls : List ManagedClustersCall) (d : D)
      → (client.send_batch hub calls d).1 ≡ none
      → (calls' : List ManagedClustersCall) × Permᴰ calls calls'
        × ((n : String)
            → table (client.send_batch hub calls d).0 hub n ≡ perform_all calls' (table d hub) n)

-- If `handleManagedClustersBundle` returns no error, the clusters of the bundle's leaf hub are those
-- of the bundle, by name; given that the database keeps its promises, that no two clusters of the
-- bundle share a name, and that a row with the name and the version of a cluster of the bundle is
-- that cluster. If the fetch fails, the handler returns an error and leaves the database as it was.
pub handle_managed_clusters_bundle-mirrors :
    {D : Type 0} (client : ManagedClustersStatusDb D) (table : D → String → Clusters)
    (promise : IsClustersTable client table) (bundle : Bundle) (d : D)
    → HasDistinctNames (get_objects bundle)
    → ((n : String) (old c : ManagedCluster)
        → table d (get_leaf_hub_name bundle) n ≡ some old
        → find_cluster n (get_objects bundle) ≡ some c
        → version old ≡ version c
        → old ≡ c)
    → let result = handle_managed_clusters_bundle client bundle d in
      let hub = get_leaf_hub_name bundle in
      (result.1 ≡ none → (n : String) → table result.0 hub n ≡ find_cluster n (get_objects bundle))
      × ((message : String)
          → client.get_managed_clusters_by_leaf_hub hub d ≡ failed message
          → (result.0 ≡ d) × (is_some result.1 ≡ true))
unfolding handle_managed_clusters_bundle
handle_managed_clusters_bundle-mirrors client table promise bundle d names same =
    let hub = get_leaf_hub_name bundle in
    let objects = get_objects bundle in
    let result = handle_managed_clusters_bundle client bundle d in
    (
      λ succeeds n. elim (Fetched-cases (client.get_managed_clusters_by_leaf_hub hub d)) [
        | inl (message, e) ↦ absurd (ground arith)
        | inr (from_db, e) ↦
            let batch = client.send_batch hub (batch_calls objects from_db) d in
            let done : batch.1 ≡ none = ground arith in
            let left : result.0 ≡ batch.0 = ground arith in
            let (calls, order, at) = promise.sent hub (batch_calls objects from_db) d done in
            let (distinct, agree) = promise.fetched hub d from_db e in
            ap (λ x. table x hub n) left
            ∙ at n
            ∙ batch_calls-any_order objects from_db (table d hub) calls names distinct agree same
                order n
      ],
      λ message e. (ground arith, ground arith),
    )
