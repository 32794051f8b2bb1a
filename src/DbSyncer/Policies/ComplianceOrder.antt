-- ===== src/DbSyncer/Policies/ComplianceOrder.antt =====
-- The calls of handleComplianceBundle in another order, as Go's maps and the batch builder leave the
-- order open.
use mathlib.Core.List.{Permᴰ}
use hub_of_hubs_status_trans.Base.{
  ℕ, ◌+◌, ◌≤◌, ◌≡◌, refl, subst, ◌∙◌, String, Bool, false, ◌&&◌, List, [], ◌∷◌, ◌++◌, map, none,
  if◌then◌else◌, str_eq, eq_iff, arith, elem, IsDistinct, Bool-cases, inl, inr, lookup, remove,
  lookup-remove, keys, elem-keys, remove-IsDistinct, is_some,
}
use hub_of_hubs_status_trans.Base.Rearranged.{touching, touching-append}
use hub_of_hubs_status_trans.Bundle.{
  Object, PolicyComplianceStatus, managed_cluster, clusters_per_policy, policy_compliance_status,
  minimal_policy_compliance_status,
}
use hub_of_hubs_status_trans.Db.Sets.{Sets, IsSets}
use hub_of_hubs_status_trans.Db.Policies.{
  compliant, non_compliant, unknown, PoliciesCall, update_policy_compliance,
  update_cluster_compliance, NonCompliantClusterSets, Rows, perform_all, replaced,
}
use hub_of_hubs_status_trans.Db.Touched.{
  touches, perform_all-Perm, touching-clusters, touching-policies,
}
use hub_of_hubs_status_trans.DbSyncer.Policies.{
  update_clusters, handle_policy_compliance_status, sync_compliance, compliance_calls,
}
use hub_of_hubs_status_trans.DbSyncer.Policies.ComplianceEntries.{
  find_status, IsProperReport, report, IsFound, found_for,
}
use hub_of_hubs_status_trans.DbSyncer.Policies.ComplianceBundle.{compliance_calls-reported}

-- No list of an entry has a cluster twice.
abbrev pub HasDistinctLists : List Object → Type 0
HasDistinctLists [] = Unit {0}
HasDistinctLists (policy_compliance_status c ∷ objects) =
    IsDistinct c.non_compliant_clusters
    × IsDistinct c.unknown_compliance_clusters
    × HasDistinctLists objects
HasDistinctLists (managed_cluster c ∷ objects) = HasDistinctLists objects
HasDistinctLists (clusters_per_policy c ∷ objects) = HasDistinctLists objects
HasDistinctLists (minimal_policy_compliance_status c ∷ objects) = HasDistinctLists objects

module _ {S : Type 0} (sets : Sets S) (laws : IsSets sets) (p n : String) where
  abbrev once_if : Bool → ℕ
  once_if b = if b then 1 else 0

  update_clusters-touching :
      (q state : String) (reported : S) (cs : List String) (s : S)
      → IsDistinct cs
      → touching (touches p n) (update_clusters sets q state reported cs s).0
        ≤ once_if (str_eq q p && elem n cs)
  unfolding update_clusters
  update_clusters-touching q state reported [] s distinct = ground arith
  update_clusters-touching q state reported (c ∷ cs) s distinct =
      let first =
        (if sets.contains c reported then [] else update_cluster_compliance q c state ∷ []) in
      let rest = update_clusters-touching q state reported cs (sets.remove c s) distinct.1 in
      let split =
        touching-append (touches p n) first
          (update_clusters sets q state reported cs (sets.remove c s)).0 in
      ground (arith, split, rest, distinct.0, eq_iff c n)

  update_clusters-left :
      (q state : String) (reported : S) (cs : List String) (s : S)
      → sets.contains n (update_clusters sets q state reported cs s).1
        ≡ (if elem n cs then false else sets.contains n s)
  unfolding update_clusters
  update_clusters-left q state reported [] s = refl
  update_clusters-left q state reported (c ∷ cs) s =
      update_clusters-left q state reported cs (sets.remove c s)
      ∙ ground (arith, laws.contains-remove n c s)

  -- The calls for an entry touch the row of a cluster at most once, and only for its policy.
  handle-touching :
      (c : PolicyComplianceStatus) (nc unk : S)
      → IsDistinct c.non_compliant_clusters
      → IsDistinct c.unknown_compliance_clusters
      → elem n c.non_compliant_clusters && elem n c.unknown_compliance_clusters ≡ false
      → touching (touches p n) (handle_policy_compliance_status sets c nc unk)
        ≤ once_if (str_eq c.policy_id p)
  unfolding handle_policy_compliance_status
  handle-touching c nc unk distinct distinct' disjoint =
      let q = c.policy_id in
      let all = sets.union nc unk in
      let first = update_clusters sets q non_compliant nc c.non_compliant_clusters all in
      let second = update_clusters sets q unknown unk c.unknown_compliance_clusters first.1 in
      let last = map (λ m. update_cluster_compliance q m compliant) (sets.elements second.1) in
      ground (
        arith,
        touching-append (touches p n) (first.0 ++ second.0) last,
        touching-append (touches p n) first.0 second.0,
        update_clusters-touching q non_compliant nc c.non_compliant_clusters all distinct,
        update_clusters-touching q unknown unk c.unknown_compliance_clusters first.1 distinct',
        update_clusters-left q non_compliant nc c.non_compliant_clusters all,
        update_clusters-left q unknown unk c.unknown_compliance_clusters first.1,
        touching-clusters (λ r m. update_cluster_compliance r m compliant) (λ r m o k. refl) q
            (sets.elements second.1) p n (laws.elements-IsDistinct second.1),
        laws.elem-elements n second.1,
      )

  abbrev present : List (String × NonCompliantClusterSets S) → ℕ
  present m = once_if (is_some (lookup p m))

  abbrev calls_for :
      PolicyComplianceStatus → List (String × NonCompliantClusterSets S) → List PoliciesCall
  calls_for c from_db =
      handle_policy_compliance_status sets c
        (found_for sets laws c.policy_id from_db).non_compliant_clusters
        (found_for sets laws c.policy_id from_db).unknown_clusters

  sync_compliance-absent :
      (objects : List Object) (from_db : List (String × NonCompliantClusterSets S))
      → IsProperReport objects
      → HasDistinctLists objects
      → find_status p objects ≡ none
      → (touching (touches p n) (sync_compliance sets objects from_db).0 ≡ 0)
        × (lookup p (sync_compliance sets objects from_db).1 ≡ lookup p from_db)
  unfolding sync_compliance
  sync_compliance-absent [] from_db proper lists h = (refl, refl)
  sync_compliance-absent (policy_compliance_status c ∷ objects) from_db proper lists h =
      let found = found_for sets laws c.policy_id from_db in
      let (more, rest) =
        sync_compliance-absent objects (remove c.policy_id from_db) proper.2 lists.2
          (ground arith) in
      (
        touching-append (touches p n) (calls_for c from_db)
              (sync_compliance sets objects (remove c.policy_id from_db)).0
            ∙ ground (
              arith,
              more,
              handle-touching c found.non_compliant_clusters found.unknown_clusters lists.0 lists.1
                  (proper.1 n),
            ),
        rest ∙ ground (arith, lookup-remove c.policy_id p from_db),
      )
  sync_compliance-absent (managed_cluster c ∷ objects) from_db proper lists h =
      sync_compliance-absent objects from_db proper lists h
  sync_compliance-absent (clusters_per_policy c ∷ objects) from_db proper lists h =
      sync_compliance-absent objects from_db proper lists h
  sync_compliance-absent (minimal_policy_compliance_status c ∷ objects) from_db proper lists h =
      sync_compliance-absent objects from_db proper lists h

  sync_compliance-once :
      (objects : List Object) (from_db : List (String × NonCompliantClusterSets S))
      → IsProperReport objects
      → HasDistinctLists objects
      → touching (touches p n) (sync_compliance sets objects from_db).0
          + present (sync_compliance sets objects from_db).1
        ≤ 1
  unfolding sync_compliance
  sync_compliance-once [] from_db proper lists = ground arith
  sync_compliance-once (policy_compliance_status c ∷ objects) from_db proper lists =
      let left = remove c.policy_id from_db in
      let found = found_for sets laws c.policy_id from_db in
      let split =
        touching-append (touches p n) (calls_for c from_db) (sync_compliance sets objects left).0 in
      let entry =
        handle-touching c found.non_compliant_clusters found.unknown_clusters lists.0 lists.1
          (proper.1 n) in
      elim (Bool-cases (str_eq c.policy_id p)) [
        | inl own ↦
            let eq = (eq_iff c.policy_id p).0 own in
            let (more, rest) =
              sync_compliance-absent objects left proper.2 lists.2
                (subst (λ q. find_status q objects ≡ none) eq proper.0) in
            ground (arith, split, more, rest, lookup-remove c.policy_id p from_db, entry)
        | inr other ↦
            ground (arith, split, entry, sync_compliance-once objects left proper.2 lists.2)
      ]
  sync_compliance-once (managed_cluster c ∷ objects) from_db proper lists =
      sync_compliance-once objects from_db proper lists
  sync_compliance-once (clusters_per_policy c ∷ objects) from_db proper lists =
      sync_compliance-once objects from_db proper lists
  sync_compliance-once (minimal_policy_compliance_status c ∷ objects) from_db proper lists =
      sync_compliance-once objects from_db proper lists

  sync_compliance-IsDistinct :
      (objects : List Object) (from_db : List (String × NonCompliantClusterSets S))
      → IsDistinct (keys from_db)
      → IsDistinct (keys (sync_compliance sets objects from_db).1)
  unfolding sync_compliance
  sync_compliance-IsDistinct [] from_db distinct = distinct
  sync_compliance-IsDistinct (policy_compliance_status c ∷ objects) from_db distinct =
      sync_compliance-IsDistinct objects (remove c.policy_id from_db)
        (remove-IsDistinct c.policy_id from_db distinct)
  sync_compliance-IsDistinct (managed_cluster c ∷ objects) from_db distinct =
      sync_compliance-IsDistinct objects from_db distinct
  sync_compliance-IsDistinct (clusters_per_policy c ∷ objects) from_db distinct =
      sync_compliance-IsDistinct objects from_db distinct
  sync_compliance-IsDistinct (minimal_policy_compliance_status c ∷ objects) from_db distinct =
      sync_compliance-IsDistinct objects from_db distinct

  compliance_calls-once :
      (objects : List Object) (from_db : List (String × NonCompliantClusterSets S))
      → IsProperReport objects
      → HasDistinctLists objects
      → IsDistinct (keys from_db)
      → touching (touches p n) (compliance_calls sets objects from_db) ≤ 1
  unfolding compliance_calls
  compliance_calls-once objects from_db proper lists distinct =
      let left = (sync_compliance sets objects from_db).1 in
      ground (
        arith,
        touching-append (touches p n) (sync_compliance sets objects from_db).0
            (map (λ q. update_policy_compliance q compliant) (keys left)),
        touching-policies (λ q. update_policy_compliance q compliant) (λ q r k. refl) (keys left) p
            n (sync_compliance-IsDistinct objects from_db distinct),
        elem-keys p left,
        sync_compliance-once objects from_db proper lists,
      )

-- In whatever order the calls of `handleComplianceBundle` take effect, each of them once, each row of
-- the leaf hub has afterwards the compliance that the bundle reports, compliant where the bundle
-- lists its cluster or policy nowhere, and no row is added or lost; given that the query returned for
-- each policy, once, the clusters with non compliant and with unknown rows, that each row has one of
-- the three states, that each policy has one entry at most, that no list of an entry has a cluster
-- twice, and that no entry lists a cluster both ways.
pub compliance_calls-any_order :
    {S : Type 0} (sets : Sets S) (laws : IsSets sets) (objects : List Object)
    (from_db : List (String × NonCompliantClusterSets S)) (t : Rows) (calls : List PoliciesCall)
    → IsProperReport objects
    → HasDistinctLists objects
    → IsDistinct (keys from_db)
    → ((p : String) → IsFound sets (found_for sets laws p from_db) (t p))
    → Permᴰ (compliance_calls sets objects from_db) calls
    → (p n : String) → perform_all calls t p n ≡ replaced (report (find_status p objects) n) (t p n)
compliance_calls-any_order sets laws objects from_db t calls proper lists distinct agree order p n =
    perform_all-Perm p n (compliance_calls sets objects from_db) calls t order
      (compliance_calls-once sets laws p n objects from_db proper lists distinct)
    ∙ compliance_calls-reported sets laws objects from_db t proper agree p n
