-- ===== src/DbSyncer/ManagedClusters/Mirror.antt =====
-- handleManagedClustersBundle: its calls, read in the table of managed clusters.
use mathlib.Core.Option
use hub_of_hubs_status_trans.Base.{
  ◌≡◌, refl, ap, sym, subst, ◌∙◌, String, false, List, [], ◌∷◌, ◌++◌, map, Option, none, some,
  if◌then◌else◌, str_eq, eq_iff, lookup, inl, inr, Bool-cases, Option-cases, arith, keys,
  lookup-remove,
}
use hub_of_hubs_status_trans.Bundle.{
  Object, ManagedCluster, managed_cluster, clusters_per_policy, policy_compliance_status,
  minimal_policy_compliance_status,
}
use hub_of_hubs_status_trans.Db.{ManagedClustersCall, delete, Clusters, perform, perform_all}
use hub_of_hubs_status_trans.DbSyncer.ManagedClusters.{sync_cluster, sync_clusters, batch_calls}

-- The cluster of that name among the objects of a bundle.
abbrev pub find_cluster : String → List Object → Option ManagedCluster
find_cluster name [] = none
find_cluster name (managed_cluster c ∷ objects) =
    if str_eq c.name name then some c else find_cluster name objects
find_cluster name (clusters_per_policy p ∷ objects) = find_cluster name objects
find_cluster name (policy_compliance_status p ∷ objects) = find_cluster name objects
find_cluster name (minimal_policy_compliance_status p ∷ objects) = find_cluster name objects

-- No two clusters of the bundle share a name.
abbrev pub HasDistinctNames : List Object → Type 0
HasDistinctNames [] = Unit {0}
HasDistinctNames (managed_cluster c ∷ objects) =
    (find_cluster c.name objects ≡ none) × HasDistinctNames objects
HasDistinctNames (clusters_per_policy p ∷ objects) = HasDistinctNames objects
HasDistinctNames (policy_compliance_status p ∷ objects) = HasDistinctNames objects
HasDistinctNames (minimal_policy_compliance_status p ∷ objects) = HasDistinctNames objects

abbrev pub version : ManagedCluster → String
version c = c.resource_version

perform_all-append :
    (xs ys : List ManagedClustersCall) (t : Clusters)
    → perform_all (xs ++ ys) t ≡ perform_all ys (perform_all xs t)
perform_all-append [] ys t = refl
perform_all-append (x ∷ xs) ys t = perform_all-append xs ys (perform x t)

-- The cluster `c` itself: it ends up in the table, and out of the clusters left to delete.
sync_cluster-named :
    (c : ManagedCluster) (from_db : List (String × String)) (t : Clusters) (n : String)
    → c.name ≡ n
    → lookup n from_db ≡ Option.map version (t n)
    → ((old : ManagedCluster) → t n ≡ some old → version old ≡ version c → old ≡ c)
    → (perform_all (sync_cluster c from_db).0 t n ≡ some c)
      × (lookup n (sync_cluster c from_db).1 ≡ none)
unfolding sync_cluster
sync_cluster-named c from_db t n own agree same = elim (Option-cases (t n)) [
  | inl missing ↦ ground (arith, eq_iff c.name n)
  | inr (old, found) ↦ ground (
    arith,
    eq_iff c.name n,
    eq_iff c.resource_version old.resource_version,
    lookup-remove c.name n from_db,
    same old found,
  )
]

sync_cluster-other :
    (c : ManagedCluster) (from_db : List (String × String)) (t : Clusters) (n : String)
    → str_eq c.name n ≡ false
    → (perform_all (sync_cluster c from_db).0 t n ≡ t n)
      × (lookup n (sync_cluster c from_db).1 ≡ lookup n from_db)
unfolding sync_cluster
sync_cluster-other c from_db t n ne = elim (Option-cases (lookup c.name from_db)) [
  | inl missing ↦ ground arith
  | inr (v, found) ↦ ground (arith, lookup-remove c.name n from_db)
]

perform_all-sync_clusters :
    (c : ManagedCluster) (objects : List Object) (from_db : List (String × String)) (t : Clusters)
    (n : String)
    → perform_all (sync_clusters (managed_cluster c ∷ objects) from_db).0 t n
      ≡ perform_all
          (sync_clusters objects (sync_cluster c from_db).1).0
          (perform_all (sync_cluster c from_db).0 t)
          n
unfolding sync_clusters
perform_all-sync_clusters c objects from_db t n =
    ap (λ f. f n)
      (perform_all-append (sync_cluster c from_db).0
        (sync_clusters objects (sync_cluster c from_db).1).0 t)

-- A cluster that the bundle does not have is left as it was.
sync_clusters-absent :
    (objects : List Object) (from_db : List (String × String)) (t : Clusters) (n : String)
    → find_cluster n objects ≡ none
    → (perform_all (sync_clusters objects from_db).0 t n ≡ t n)
      × (lookup n (sync_clusters objects from_db).1 ≡ lookup n from_db)
unfolding sync_clusters
sync_clusters-absent [] from_db t n h = (refl, refl)
sync_clusters-absent (managed_cluster c ∷ objects) from_db t n h =
    let ne : str_eq c.name n ≡ false = ground arith in
    let (calls, left) = sync_cluster-other c from_db t n ne in
    let (more, rest) =
      sync_clusters-absent objects (sync_cluster c from_db).1
        (perform_all (sync_cluster c from_db).0 t) n (ground arith) in
    (perform_all-sync_clusters c objects from_db t n ∙ more ∙ calls, rest ∙ left)
sync_clusters-absent (clusters_per_policy p ∷ objects) from_db t n h =
    sync_clusters-absent objects from_db t n h
sync_clusters-absent (policy_compliance_status p ∷ objects) from_db t n h =
    sync_clusters-absent objects from_db t n h
sync_clusters-absent (minimal_policy_compliance_status p ∷ objects) from_db t n h =
    sync_clusters-absent objects from_db t n h

sync_clusters-head :
    (d : ManagedCluster) (objects : List Object) (from_db : List (String × String)) (t : Clusters)
    (n : String) (c : ManagedCluster)
    → d.name ≡ n
    → d ≡ c
    → find_cluster d.name objects ≡ none
    → lookup n from_db ≡ Option.map version (t n)
    → ((old : ManagedCluster) → t n ≡ some old → version old ≡ version c → old ≡ c)
    → (perform_all (sync_clusters (managed_cluster d ∷ objects) from_db).0 t n ≡ some c)
      × (lookup n (sync_clusters (managed_cluster d ∷ objects) from_db).1 ≡ none)
unfolding sync_clusters
sync_clusters-head d objects from_db t n c own eq absent agree same =
    let absent_n : find_cluster n objects ≡ none =
      subst (λ m. find_cluster m objects ≡ none) own absent in
    let (more, rest) =
      sync_clusters-absent objects (sync_cluster d from_db).1
        (perform_all (sync_cluster d from_db).0 t) n absent_n in
    let (calls, left) =
      sync_cluster-named d from_db t n own (agree)
        (λ old found v. same old found (v ∙ ap version eq) ∙ sym eq) in
    (perform_all-sync_clusters d objects from_db t n ∙ more ∙ calls ∙ ap some eq, rest ∙ left)

-- A cluster of the bundle ends up in the table, and out of what is left to delete.
sync_clusters-present :
    (objects : List Object) (from_db : List (String × String)) (t : Clusters) (n : String)
    (c : ManagedCluster)
    → HasDistinctNames objects
    → find_cluster n objects ≡ some c
    → lookup n from_db ≡ Option.map version (t n)
    → ((old : ManagedCluster) → t n ≡ some old → version old ≡ version c → old ≡ c)
    → (perform_all (sync_clusters objects from_db).0 t n ≡ some c)
      × (lookup n (sync_clusters objects from_db).1 ≡ none)
unfolding sync_clusters
sync_clusters-present [] from_db t n c distinct h agree same = cc
sync_clusters-present (managed_cluster d ∷ objects) from_db t n c distinct h agree same =
    elim (Bool-cases (str_eq d.name n)) [
      | inl own ↦
          sync_clusters-head d objects from_db t n c ((eq_iff d.name n).0 own) (ground arith)
            distinct.0 agree same
      | inr other ↦
          let (calls, left) = sync_cluster-other d from_db t n other in
          let (more, rest) =
            sync_clusters-present objects (sync_cluster d from_db).1
              (perform_all (sync_cluster d from_db).0 t) n c distinct.1 (ground arith)
              (left ∙ agree ∙ ap (Option.map version) (sym calls))
              (λ old found. same old (sym calls ∙ found)) in
          (perform_all-sync_clusters d objects from_db t n ∙ more, rest)
    ]
sync_clusters-present (clusters_per_policy p ∷ objects) from_db t n c distinct h agree same =
    sync_clusters-present objects from_db t n c distinct h agree same
sync_clusters-present (policy_compliance_status p ∷ objects) from_db t n c distinct h agree same =
    sync_clusters-present objects from_db t n c distinct h agree same
sync_clusters-present (minimal_policy_compliance_status p ∷ objects) from_db t n c distinct h agree
      same =
    sync_clusters-present objects from_db t n c distinct h agree same

-- The deletes of what is left.
perform_all-delete :
    (left : List (String × String)) (t : Clusters) (n : String)
    → perform_all (map delete (keys left)) t n
      ≡ (elim (lookup n left) [ none ↦ t n | some v ↦ none ])
unfolding lookup keys
perform_all-delete [] t n = refl
perform_all-delete ((k, v) ∷ left) t n =
    ground (arith, perform_all-delete left (perform (delete k) t) n, eq_iff k n)

-- The clusters that a bundle has, by name, are those of the table after the calls of
-- `handleManagedClustersBundle`, whatever the table held: given that the query returned the names
-- and the versions of the table's rows, that no two clusters of the bundle share a name, and that a
-- row with the name and the version of a cluster of the bundle is that cluster.
pub batch_calls-mirrors :
    (objects : List Object) (from_db : List (String × String)) (t : Clusters)
    → HasDistinctNames objects
    → ((n : String) → lookup n from_db ≡ Option.map version (t n))
    → ((n : String) (old c : ManagedCluster)
        → t n ≡ some old
        → find_cluster n objects ≡ some c
        → version old ≡ version c
        → old ≡ c)
    → (n : String) → perform_all (batch_calls objects from_db) t n ≡ find_cluster n objects
unfolding batch_calls
batch_calls-mirrors objects from_db t distinct agree same n =
    let (calls, left) = sync_clusters objects from_db in
    ap (λ f. f n) (perform_all-append calls (map delete (keys left)) t)
    ∙ perform_all-delete left (perform_all calls t) n
    ∙ elim (Option-cases (find_cluster n objects)) [
      | inl missing ↦
          let (a, b) = sync_clusters-absent objects from_db t n missing in
          ground (arith, a, b, agree n)
      | inr (c, found) ↦
          let (a, b) =
            sync_clusters-present objects from_db t n c distinct found (agree n)
              (λ old h. same n old c h found) in
          ground (arith, a, b)
    ]
