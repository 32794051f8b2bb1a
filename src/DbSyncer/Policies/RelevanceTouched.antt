-- ===== src/DbSyncer/Policies/RelevanceTouched.antt =====
-- How often the calls of handleClusterPerPolicy touch a row.
use hub_of_hubs_status_trans.Base.{
  ℕ, ◌+◌, ◌≤◌, ◌≡◌, refl, subst, ◌∙◌, String, false, ◌&&◌, List, [], ◌∷◌, map, if◌then◌else◌,
  str_eq, eq_iff, arith, elem, IsDistinct, Bool-cases, inl, inr,
}
use hub_of_hubs_status_trans.Base.Rearranged.{touching, touching-append}
use hub_of_hubs_status_trans.Bundle.{ClustersPerPolicy}
use hub_of_hubs_status_trans.Db.Sets.{Sets, IsSets}
use hub_of_hubs_status_trans.Db.Policies.{delete_cluster_status}
use hub_of_hubs_status_trans.Db.Touched.{touches, touching-clusters}
use hub_of_hubs_status_trans.DbSyncer.Policies.{
  insert_cluster, insert_clusters, handle_cluster_per_policy,
}

module _ {S : Type 0} (sets : Sets S) (laws : IsSets sets) (p n : String) where
  abbrev in_set : S → ℕ
  in_set s = if sets.contains n s then 1 else 0

  insert_cluster-once :
      (q c : String) (s : S)
      → c ≡ n
      → touching (touches p n) (insert_cluster sets q c s).0 + in_set (insert_cluster sets q c s).1
        ≤ 1
  unfolding insert_cluster
  insert_cluster-once q c s own = ground (arith, own, eq_iff c n, laws.contains-remove n c s)

  insert_cluster-other :
      (q c : String) (s : S)
      → str_eq c n ≡ false
      → (touching (touches p n) (insert_cluster sets q c s).0 ≡ 0)
        × (sets.contains n (insert_cluster sets q c s).1 ≡ sets.contains n s)
  unfolding insert_cluster
  insert_cluster-other q c s ne = ground (arith, laws.contains-remove n c s)

  insert_clusters-absent :
      (q : String) (cs : List String) (s : S)
      → elem n cs ≡ false
      → (touching (touches p n) (insert_clusters sets q cs s).0 ≡ 0)
        × (sets.contains n (insert_clusters sets q cs s).1 ≡ sets.contains n s)
  unfolding insert_clusters
  insert_clusters-absent q [] s h = (refl, refl)
  insert_clusters-absent q (c ∷ cs) s h =
      let left = (insert_cluster sets q c s).1 in
      let (calls, same) = insert_cluster-other q c s (ground arith) in
      let (more, rest) = insert_clusters-absent q cs left (ground arith) in
      (
        touching-append (touches p n) (insert_cluster sets q c s).0
              (insert_clusters sets q cs left).0
            ∙ omega (arith, calls, more),
        rest ∙ same,
      )

  -- The loop touches the row of a cluster at most once, and not if the cluster is left to delete.
  insert_clusters-once :
      (q : String) (cs : List String) (s : S)
      → IsDistinct cs
      → touching (touches p n) (insert_clusters sets q cs s).0
          + in_set (insert_clusters sets q cs s).1
        ≤ 1
  unfolding insert_clusters
  insert_clusters-once q [] s distinct = ground arith
  insert_clusters-once q (c ∷ cs) s distinct =
      let left = (insert_cluster sets q c s).1 in
      let split =
        touching-append (touches p n) (insert_cluster sets q c s).0
          (insert_clusters sets q cs left).0 in
      elim (Bool-cases (str_eq c n)) [
        | inl own ↦
            let eq = (eq_iff c n).0 own in
            let (more, rest) =
              insert_clusters-absent q cs left (subst (λ m. elem m cs ≡ false) eq distinct.0) in
            ground (arith, split, more, rest, insert_cluster-once q c s eq)
        | inr other ↦
            let (calls, same) = insert_cluster-other q c s other in
            ground (arith, split, calls, insert_clusters-once q cs left distinct.1)
      ]

  insert_clusters-elsewhere :
      (q : String) (cs : List String) (s : S)
      → str_eq q p ≡ false
      → touching (touches p n) (insert_clusters sets q cs s).0 ≡ 0
  unfolding insert_clusters insert_cluster
  insert_clusters-elsewhere q [] s ne = refl
  insert_clusters-elsewhere q (c ∷ cs) s ne =
      let left = (insert_cluster sets q c s).1 in
      ground (
        arith,
        touching-append (touches p n) (insert_cluster sets q c s).0
            (insert_clusters sets q cs left).0,
        insert_clusters-elsewhere q cs left ne,
      )

  handle-touching :
      (c : ClustersPerPolicy) (s : S)
      → let left = (insert_clusters sets c.policy_id c.clusters s).1 in
        touching (touches p n) (handle_cluster_per_policy sets c s)
        ≡ touching (touches p n) (insert_clusters sets c.policy_id c.clusters s).0
          + (if str_eq c.policy_id p && sets.contains n left then 1 else 0)
  unfolding handle_cluster_per_policy
  handle-touching c s =
      let left = (insert_clusters sets c.policy_id c.clusters s).1 in
      ground (
        arith,
        touching-append (touches p n) (insert_clusters sets c.policy_id c.clusters s).0
            (map (delete_cluster_status c.policy_id) (sets.elements left)),
        touching-clusters delete_cluster_status (λ q m r k. refl) c.policy_id (sets.elements left) p
            n (laws.elements-IsDistinct left),
        laws.elem-elements n left,
      )

  pub handle-once :
      (c : ClustersPerPolicy) (s : S)
      → IsDistinct c.clusters
      → touching (touches p n) (handle_cluster_per_policy sets c s) ≤ 1
  handle-once c s distinct =
      ground (arith, handle-touching c s, insert_clusters-once c.policy_id c.clusters s distinct)

  pub handle-elsewhere :
      (c : ClustersPerPolicy) (s : S)
      → str_eq c.policy_id p ≡ false
      → touching (touches p n) (handle_cluster_per_policy sets c s) ≡ 0
  handle-elsewhere c s ne =
      ground (arith, handle-touching c s, insert_clusters-elsewhere c.policy_id c.clusters s ne)
