-- ===== src/DbSyncer/Policies/RelevanceOrder.antt =====
-- The calls of handleClustersPerPolicyBundle in another order, as Go's maps and the batch builder
-- leave the order open.
use mathlib.Core.List.{Permᴰ}
use hub_of_hubs_status_trans.Base.{
  ℕ, ◌+◌, ◌≤◌, ◌≡◌, refl, subst, ◌∙◌, String, false, List, [], ◌∷◌, map, none, if◌then◌else◌,
  str_eq, eq_iff, arith, IsDistinct, Bool-cases, inl, inr, lookup, remove, lookup-remove, keys,
  elem-keys, remove-IsDistinct, is_some, or_else,
}
use hub_of_hubs_status_trans.Base.Rearranged.{touching, touching-append}
use hub_of_hubs_status_trans.Bundle.{
  Object, ClustersPerPolicy, managed_cluster, clusters_per_policy, policy_compliance_status,
  minimal_policy_compliance_status,
}
use hub_of_hubs_status_trans.Db.Sets.{Sets, IsSets}
use hub_of_hubs_status_trans.Db.Policies.{PoliciesCall, delete_policy, Rows, perform_all}
use hub_of_hubs_status_trans.Db.Touched.{touches, perform_all-Perm, touching-policies}
use hub_of_hubs_status_trans.DbSyncer.Policies.{
  handle_cluster_per_policy, sync_policies, relevance_calls,
}
use hub_of_hubs_status_trans.DbSyncer.Policies.RelevanceBundle.{
  find_policy, IsProperList, relevant, relevance_calls-relevant,
}
use hub_of_hubs_status_trans.DbSyncer.Policies.RelevanceTouched.{handle-once, handle-elsewhere}

module _ {S : Type 0} (sets : Sets S) (laws : IsSets sets) (p n : String) where
  abbrev present : List (String × S) → ℕ
  present m = if is_some (lookup p m) then 1 else 0

  abbrev clusters_of : ClustersPerPolicy → List (String × S) → S
  clusters_of c from_db = or_else (lookup c.policy_id from_db) sets.new_set

  sync_policies-absent :
      (objects : List Object) (from_db : List (String × S))
      → find_policy p objects ≡ none
      → (touching (touches p n) (sync_policies sets objects from_db).0 ≡ 0)
        × (lookup p (sync_policies sets objects from_db).1 ≡ lookup p from_db)
  unfolding sync_policies
  sync_policies-absent [] from_db h = (refl, refl)
  sync_policies-absent (clusters_per_policy c ∷ objects) from_db h =
      let ne : str_eq c.policy_id p ≡ false = ground arith in
      let (more, rest) = sync_policies-absent objects (remove c.policy_id from_db) (ground arith) in
      (
        touching-append (touches p n) (handle_cluster_per_policy sets c (clusters_of c from_db))
              (sync_policies sets objects (remove c.policy_id from_db)).0
            ∙ omega (arith, more, handle-elsewhere sets laws p n c (clusters_of c from_db) ne),
        rest ∙ ground (arith, lookup-remove c.policy_id p from_db),
      )
  sync_policies-absent (managed_cluster c ∷ objects) from_db h =
      sync_policies-absent objects from_db h
  sync_policies-absent (policy_compliance_status c ∷ objects) from_db h =
      sync_policies-absent objects from_db h
  sync_policies-absent (minimal_policy_compliance_status c ∷ objects) from_db h =
      sync_policies-absent objects from_db h

  sync_policies-once :
      (objects : List Object) (from_db : List (String × S))
      → IsProperList objects
      → touching (touches p n) (sync_policies sets objects from_db).0
          + present (sync_policies sets objects from_db).1
        ≤ 1
  unfolding sync_policies
  sync_policies-once [] from_db proper = ground arith
  sync_policies-once (clusters_per_policy c ∷ objects) from_db proper =
      let left = remove c.policy_id from_db in
      let split =
        touching-append (touches p n) (handle_cluster_per_policy sets c (clusters_of c from_db))
          (sync_policies sets objects left).0 in
      elim (Bool-cases (str_eq c.policy_id p)) [
        | inl own ↦
            let eq = (eq_iff c.policy_id p).0 own in
            let (more, rest) =
              sync_policies-absent objects left
                (subst (λ q. find_policy q objects ≡ none) eq proper.0) in
            ground (
              arith,
              split,
              more,
              rest,
              lookup-remove c.policy_id p from_db,
              handle-once sets laws p n c (clusters_of c from_db) proper.1,
            )
        | inr other ↦ ground (
          arith,
          split,
          handle-elsewhere sets laws p n c (clusters_of c from_db) other,
          sync_policies-once objects left proper.2,
        )
      ]
  sync_policies-once (managed_cluster c ∷ objects) from_db proper =
      sync_policies-once objects from_db proper
  sync_policies-once (policy_compliance_status c ∷ objects) from_db proper =
      sync_policies-once objects from_db proper
  sync_policies-once (minimal_policy_compliance_status c ∷ objects) from_db proper =
      sync_policies-once objects from_db proper

  sync_policies-IsDistinct :
      (objects : List Object) (from_db : List (String × S))
      → IsDistinct (keys from_db)
      → IsDistinct (keys (sync_policies sets objects from_db).1)
  unfolding sync_policies
  sync_policies-IsDistinct [] from_db distinct = distinct
  sync_policies-IsDistinct (clusters_per_policy c ∷ objects) from_db distinct =
      sync_policies-IsDistinct objects (remove c.policy_id from_db)
        (remove-IsDistinct c.policy_id from_db distinct)
  sync_policies-IsDistinct (managed_cluster c ∷ objects) from_db distinct =
      sync_policies-IsDistinct objects from_db distinct
  sync_policies-IsDistinct (policy_compliance_status c ∷ objects) from_db distinct =
      sync_policies-IsDistinct objects from_db distinct
  sync_policies-IsDistinct (minimal_policy_compliance_status c ∷ objects) from_db distinct =
      sync_policies-IsDistinct objects from_db distinct

  relevance_calls-once :
      (objects : List Object) (from_db : List (String × S))
      → IsProperList objects
      → IsDistinct (keys from_db)
      → touching (touches p n) (relevance_calls sets objects from_db) ≤ 1
  unfolding relevance_calls
  relevance_calls-once objects from_db proper distinct =
      let left = (sync_policies sets objects from_db).1 in
      ground (
        arith,
        touching-append (touches p n) (sync_policies sets objects from_db).0
            (map delete_policy (keys left)),
        touching-policies delete_policy (λ q r k. refl) (keys left) p n
            (sync_policies-IsDistinct objects from_db distinct),
        elem-keys p left,
        sync_policies-once objects from_db proper,
      )

-- In whatever order the calls of `handleClustersPerPolicyBundle` take effect, each of them once, the
-- rows of the leaf hub are afterwards those of the clusters that the bundle lists for a policy: a
-- row that was there keeps its compliance, a new one is unknown, and every other row is gone; given
-- that the query returned for each policy, once, the set of the clusters with a row, that each
-- policy has one entry in the bundle at most, and that an entry lists no cluster twice.
pub relevance_calls-any_order :
    {S : Type 0} (sets : Sets S) (laws : IsSets sets) (objects : List Object)
    (from_db : List (String × S)) (t : Rows) (calls : List PoliciesCall)
    → IsProperList objects
    → IsDistinct (keys from_db)
    → ((p m : String) → sets.contains m (or_else (lookup p from_db) sets.new_set) ≡ is_some (t p m))
    → Permᴰ (relevance_calls sets objects from_db) calls
    → (p n : String) → perform_all calls t p n ≡ relevant (find_policy p objects) n (t p n)
relevance_calls-any_order sets laws objects from_db t calls proper distinct agree order p n =
    perform_all-Perm p n (relevance_calls sets objects from_db) calls t order
      (relevance_calls-once sets laws p n objects from_db proper distinct)
    ∙ relevance_calls-relevant sets laws objects from_db t proper agree p n
