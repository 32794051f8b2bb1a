-- ===== src/DbSyncer/ManagedClusters/Order.antt =====
-- The calls of handleManagedClustersBundle in another order, as Go's maps and the batch builder
-- leave the order open.
use mathlib.Core.List.{Permᴰ}
use mathlib.Core.Option
use hub_of_hubs_status_trans.Base.{
  ℕ, ◌+◌, ◌≤◌, ◌≡◌, refl, ap, sym, subst, ◌∙◌, String, Bool, false, List, [], ◌∷◌, map, Option,
  none, some, if◌then◌else◌, str_eq, eq_iff, lookup, inl, inr, Bool-cases, Option-cases, arith,
  keys, lookup-remove, remove, elem, elem-keys, IsDistinct, is_some, remove-IsDistinct,
}
use hub_of_hubs_status_trans.Base.Rearranged.{touching, touching-append, run, run-Perm}
use hub_of_hubs_status_trans.Bundle.{
  Object, ManagedCluster, managed_cluster, clusters_per_policy, policy_compliance_status,
  minimal_policy_compliance_status,
}
use hub_of_hubs_status_trans.Db.{
  ManagedClustersCall, insert, update, delete, Clusters, perform, perform_all,
}
use hub_of_hubs_status_trans.DbSyncer.ManagedClusters.{sync_cluster, sync_clusters, batch_calls}
use hub_of_hubs_status_trans.DbSyncer.ManagedClusters.Mirror.{
  find_cluster, HasDistinctNames, version, batch_calls-mirrors,
}

abbrev touches : String → ManagedClustersCall → Bool
touches n (insert c message) = str_eq c.name n
touches n (update name c) = str_eq name n
touches n (delete name) = str_eq name n

-- What a call makes of the row of a cluster.
abbrev act : String → ManagedClustersCall → Option ManagedCluster → Option ManagedCluster
act n call row = perform call (λ m. row) n

act-untouched :
    (n : String) (c : ManagedClustersCall) (row : Option ManagedCluster)
    → touches n c ≡ false
    → act n c row ≡ row
act-untouched n (insert c message) row h = ground arith
act-untouched n (update name c) row h = ground arith
act-untouched n (delete name) row h = ground arith

perform-act : (n : String) (c : ManagedClustersCall) (t : Clusters) → perform c t n ≡ act n c (t n)
perform-act n (insert c message) t = refl
perform-act n (update name c) t = refl
perform-act n (delete name) t = refl

perform_all-run :
    (n : String) (calls : List ManagedClustersCall) (t : Clusters)
    → perform_all calls t n ≡ run (touches n) (act n) (act-untouched n) calls (t n)
perform_all-run n [] t = refl
perform_all-run n (c ∷ calls) t =
    perform_all-run n calls (perform c t)
    ∙ ap (run (touches n) (act n) (act-untouched n) calls) (perform-act n c t)

abbrev present : String → List (String × String) → ℕ
present n m = if is_some (lookup n m) then 1 else 0

sync_cluster-once :
    (c : ManagedCluster) (from_db : List (String × String)) (n : String)
    → c.name ≡ n
    → touching (touches n) (sync_cluster c from_db).0 + present n (sync_cluster c from_db).1 ≤ 1
unfolding sync_cluster
sync_cluster-once c from_db n own = elim (Option-cases (lookup c.name from_db)) [
  | inl missing ↦ ground (arith, eq_iff c.name n)
  | inr (v, found) ↦ ground (arith, eq_iff c.name n, lookup-remove c.name n from_db)
]

sync_cluster-other :
    (c : ManagedCluster) (from_db : List (String × String)) (n : String)
    → str_eq c.name n ≡ false
    → (touching (touches n) (sync_cluster c from_db).0 ≡ 0)
      × (lookup n (sync_cluster c from_db).1 ≡ lookup n from_db)
unfolding sync_cluster
sync_cluster-other c from_db n ne = elim (Option-cases (lookup c.name from_db)) [
  | inl missing ↦ ground arith
  | inr (v, found) ↦ ground (arith, lookup-remove c.name n from_db)
]

sync_clusters-absent :
    (objects : List Object) (from_db : List (String × String)) (n : String)
    → find_cluster n objects ≡ none
    → (touching (touches n) (sync_clusters objects from_db).0 ≡ 0)
      × (lookup n (sync_clusters objects from_db).1 ≡ lookup n from_db)
unfolding sync_clusters
sync_clusters-absent [] from_db n h = (refl, refl)
sync_clusters-absent (managed_cluster c ∷ objects) from_db n h =
    let (calls, left) = sync_cluster-other c from_db n (ground arith) in
    let (more, rest) = sync_clusters-absent objects (sync_cluster c from_db).1 n (ground arith) in
    (
      touching-append (touches n) (sync_cluster c from_db).0
            (sync_clusters objects (sync_cluster c from_db).1).0
          ∙ omega (arith, calls, more),
      rest ∙ left,
    )
sync_clusters-absent (clusters_per_policy p ∷ objects) from_db n h =
    sync_clusters-absent objects from_db n h
sync_clusters-absent (policy_compliance_status p ∷ objects) from_db n h =
    sync_clusters-absent objects from_db n h
sync_clusters-absent (minimal_policy_compliance_status p ∷ objects) from_db n h =
    sync_clusters-absent objects from_db n h

-- The loop touches the row of a cluster at most once, and not if the cluster is left to delete.
sync_clusters-once :
    (objects : List Object) (from_db : List (String × String)) (n : String)
    → HasDistinctNames objects
    → touching (touches n) (sync_clusters objects from_db).0
        + present n (sync_clusters objects from_db).1
      ≤ 1
unfolding sync_clusters
sync_clusters-once [] from_db n distinct = ground arith
sync_clusters-once (managed_cluster c ∷ objects) from_db n distinct =
    let left = (sync_cluster c from_db).1 in
    let split =
      touching-append (touches n) (sync_cluster c from_db).0 (sync_clusters objects left).0 in
    elim (Bool-cases (str_eq c.name n)) [
      | inl own ↦
          let eq = (eq_iff c.name n).0 own in
          let (more, rest) =
            sync_clusters-absent objects left n
              (subst (λ m. find_cluster m objects ≡ none) eq distinct.0) in
          ground (arith, split, more, rest, sync_cluster-once c from_db n eq)
      | inr other ↦
          let (calls, same) = sync_cluster-other c from_db n other in
          ground (arith, split, calls, sync_clusters-once objects left n distinct.1)
    ]
sync_clusters-once (clusters_per_policy p ∷ objects) from_db n distinct =
    sync_clusters-once objects from_db n distinct
sync_clusters-once (policy_compliance_status p ∷ objects) from_db n distinct =
    sync_clusters-once objects from_db n distinct
sync_clusters-once (minimal_policy_compliance_status p ∷ objects) from_db n distinct =
    sync_clusters-once objects from_db n distinct

touching-delete :
    (names : List String) (n : String)
    → IsDistinct names
    → touching (touches n) (map delete names) ≡ (if elem n names then 1 else 0)
touching-delete [] n distinct = refl
touching-delete (m ∷ names) n distinct =
    ground (arith, touching-delete names n distinct.1, distinct.0, eq_iff m n)

sync_cluster-IsDistinct :
    (c : ManagedCluster) (from_db : List (String × String))
    → IsDistinct (keys from_db)
    → IsDistinct (keys (sync_cluster c from_db).1)
unfolding sync_cluster
sync_cluster-IsDistinct c from_db distinct = elim (Option-cases (lookup c.name from_db)) [
  | inl missing ↦
      let left : from_db ≡ (sync_cluster c from_db).1 = ground arith in
      subst (λ m. IsDistinct (keys m)) left distinct
  | inr (v, found) ↦
      let left : remove c.name from_db ≡ (sync_cluster c from_db).1 = ground arith in
      subst (λ m. IsDistinct (keys m)) left (remove-IsDistinct c.name from_db distinct)
]

sync_clusters-IsDistinct :
    (objects : List Object) (from_db : List (String × String))
    → IsDistinct (keys from_db)
    → IsDistinct (keys (sync_clusters objects from_db).1)
unfolding sync_clusters
sync_clusters-IsDistinct [] from_db distinct = distinct
sync_clusters-IsDistinct (managed_cluster c ∷ objects) from_db distinct =
    sync_clusters-IsDistinct objects (sync_cluster c from_db).1
      (sync_cluster-IsDistinct c from_db distinct)
sync_clusters-IsDistinct (clusters_per_policy p ∷ objects) from_db distinct =
    sync_clusters-IsDistinct objects from_db distinct
sync_clusters-IsDistinct (policy_compliance_status p ∷ objects) from_db distinct =
    sync_clusters-IsDistinct objects from_db distinct
sync_clusters-IsDistinct (minimal_policy_compliance_status p ∷ objects) from_db distinct =
    sync_clusters-IsDistinct objects from_db distinct

batch_calls-once :
    (objects : List Object) (from_db : List (String × String)) (n : String)
    → HasDistinctNames objects
    → IsDistinct (keys from_db)
    → touching (touches n) (batch_calls objects from_db) ≤ 1
unfolding batch_calls
batch_calls-once objects from_db n names distinct =
    let left = (sync_clusters objects from_db).1 in
    ground (
      arith,
      touching-append (touches n) (sync_clusters objects from_db).0 (map delete (keys left)),
      touching-delete (keys left) n (sync_clusters-IsDistinct objects from_db distinct),
      elem-keys n left,
      sync_clusters-once objects from_db n names,
    )

-- In whatever order the calls of `handleManagedClustersBundle` take effect, each of them once, the
-- clusters of the table are afterwards those of the bundle, by name: given that the query returned
-- the names and the versions of the table's rows, each name once, that no two clusters of the bundle
-- share a name, and that a row with the name and the version of a cluster of the bundle is that
-- cluster.
pub batch_calls-any_order :
    (objects : List Object) (from_db : List (String × String)) (t : Clusters)
    (calls : List ManagedClustersCall)
    → HasDistinctNames objects
    → IsDistinct (keys from_db)
    → ((n : String) → lookup n from_db ≡ Option.map version (t n))
    → ((n : String) (old c : ManagedCluster)
        → t n ≡ some old
        → find_cluster n objects ≡ some c
        → version old ≡ version c
        → old ≡ c)
    → Permᴰ (batch_calls objects from_db) calls
    → (n : String) → perform_all calls t n ≡ find_cluster n objects
batch_calls-any_order objects from_db t calls names distinct agree same order n =
    perform_all-run n calls t
    ∙ sym (
        run-Perm (touches n) (act n) (act-untouched n) (t n) order
          (batch_calls-once objects from_db n names distinct))
    ∙ sym (perform_all-run n (batch_calls objects from_db) t)
    ∙ batch_calls-mirrors objects from_db t names agree same n
