-- ===== src/DbSyncer/Policies/RelevanceBundle.antt =====
-- What handleClustersPerPolicyBundle asks of the compliance table, over all policies of a bundle.
use mathlib.Core.Path.{subst₂}
use hub_of_hubs_status_trans.Base.{
  ◌≡◌, refl, ap, sym, subst, String, false, List, [], ◌∷◌, map, Option, none, some, if◌then◌else◌,
  str_eq, eq_iff, arith, elem, IsDistinct, Bool-cases, Option-cases, inl, inr, ◌∙◌, lookup, remove,
  lookup-remove, keys, is_some, or_else,
}
use hub_of_hubs_status_trans.Bundle.{
  Object, ClustersPerPolicy, managed_cluster, clusters_per_policy, policy_compliance_status,
  minimal_policy_compliance_status,
}
use hub_of_hubs_status_trans.Db.Sets.{Sets, IsSets}
use hub_of_hubs_status_trans.Db.Policies.{
  unknown, delete_policy, Rows, perform, perform_all, perform_all-append,
}
use hub_of_hubs_status_trans.DbSyncer.Policies.{
  handle_cluster_per_policy, sync_policies, relevance_calls,
}
use hub_of_hubs_status_trans.DbSyncer.Policies.Relevance.{
  handle_cluster_per_policy-relevant, handle_cluster_per_policy-elsewhere,
}

-- The entry of that policy among the objects of a bundle.
abbrev pub find_policy : String → List Object → Option ClustersPerPolicy
find_policy p [] = none
find_policy p (clusters_per_policy c ∷ objects) =
    if str_eq c.policy_id p then some c else find_policy p objects
find_policy p (managed_cluster c ∷ objects) = find_policy p objects
find_policy p (policy_compliance_status c ∷ objects) = find_policy p objects
find_policy p (minimal_policy_compliance_status c ∷ objects) = find_policy p objects

-- Each policy has one entry at most, and an entry lists no cluster twice.
abbrev pub IsProperList : List Object → Type 0
IsProperList [] = Unit {0}
IsProperList (clusters_per_policy c ∷ objects) =
    (find_policy c.policy_id objects ≡ none) × IsDistinct c.clusters × IsProperList objects
IsProperList (managed_cluster c ∷ objects) = IsProperList objects
IsProperList (policy_compliance_status c ∷ objects) = IsProperList objects
IsProperList (minimal_policy_compliance_status c ∷ objects) = IsProperList objects

-- The row of a cluster after a bundle with that entry for its policy.
abbrev pub relevant : Option ClustersPerPolicy → String → Option String → Option String
relevant none n row = none
relevant (some c) n row = if elem n c.clusters then some (or_else row unknown) else none

module _ {S : Type 0} (sets : Sets S) (laws : IsSets sets) where
  perform_all-sync_policies :
      (c : ClustersPerPolicy) (objects : List Object) (from_db : List (String × S)) (t : Rows)
      (p n : String)
      → perform_all (sync_policies sets (clusters_per_policy c ∷ objects) from_db).0 t p n
        ≡ perform_all
            (sync_policies sets objects (remove c.policy_id from_db)).0
            (perform_all
              (handle_cluster_per_policy sets c (or_else (lookup c.policy_id from_db) sets.new_set))
              t)
            p
            n
  unfolding sync_policies
  perform_all-sync_policies c objects from_db t p n =
      ap (λ f. f p n)
        (perform_all-append
          (handle_cluster_per_policy sets c (or_else (lookup c.policy_id from_db) sets.new_set))
          (sync_policies sets objects (remove c.policy_id from_db)).0 t)

  sync_policies-absent :
      (objects : List Object) (from_db : List (String × S)) (t : Rows) (p n : String)
      → find_policy p objects ≡ none
      → (perform_all (sync_policies sets objects from_db).0 t p n ≡ t p n)
        × (lookup p (sync_policies sets objects from_db).1 ≡ lookup p from_db)
  unfolding sync_policies
  sync_policies-absent [] from_db t p n h = (refl, refl)
  sync_policies-absent (clusters_per_policy c ∷ objects) from_db t p n h =
      let ne : str_eq c.policy_id p ≡ false = ground arith in
      let s = or_else (lookup c.policy_id from_db) sets.new_set in
      let (more, rest) =
        sync_policies-absent objects (remove c.policy_id from_db)
          (perform_all (handle_cluster_per_policy sets c s) t) p n (ground arith) in
      (
        perform_all-sync_policies c objects from_db t p n
            ∙ more
            ∙ handle_cluster_per_policy-elsewhere sets laws c s t p n ne,
        rest ∙ ground (arith, lookup-remove c.policy_id p from_db),
      )
  sync_policies-absent (managed_cluster c ∷ objects) from_db t p n h =
      sync_policies-absent objects from_db t p n h
  sync_policies-absent (policy_compliance_status c ∷ objects) from_db t p n h =
      sync_policies-absent objects from_db t p n h
  sync_policies-absent (minimal_policy_compliance_status c ∷ objects) from_db t p n h =
      sync_policies-absent objects from_db t p n h

  -- The entry of the policy itself.
  sync_policies-head :
      (c : ClustersPerPolicy) (objects : List Object) (from_db : List (String × S)) (t : Rows)
      (n : String)
      → find_policy c.policy_id objects ≡ none
      → IsDistinct c.clusters
      → ((m : String)
          → sets.contains m (or_else (lookup c.policy_id from_db) sets.new_set)
            ≡ is_some (t c.policy_id m))
      → (perform_all
            (sync_policies sets (clusters_per_policy c ∷ objects) from_db).0
            t
            c.policy_id
            n
          ≡ relevant (some c) n (t c.policy_id n))
        × (lookup c.policy_id (sync_policies sets (clusters_per_policy c ∷ objects) from_db).1
            ≡ none)
  unfolding sync_policies
  sync_policies-head c objects from_db t n absent distinct agree =
      let s = or_else (lookup c.policy_id from_db) sets.new_set in
      let (more, rest) =
        sync_policies-absent objects (remove c.policy_id from_db)
          (perform_all (handle_cluster_per_policy sets c s) t) c.policy_id n absent in
      (
        perform_all-sync_policies c objects from_db t c.policy_id n
            ∙ more
            ∙ handle_cluster_per_policy-relevant sets laws c s t distinct agree n,
        rest
            ∙ ground (
              arith,
              eq_iff c.policy_id c.policy_id,
              lookup-remove c.policy_id c.policy_id from_db,
            ),
      )

  sync_policies-present :
      (objects : List Object) (from_db : List (String × S)) (t : Rows) (p n : String)
      (d : ClustersPerPolicy)
      → IsProperList objects
      → find_policy p objects ≡ some d
      → ((m : String) → sets.contains m (or_else (lookup p from_db) sets.new_set) ≡ is_some (t p m))
      → (perform_all (sync_policies sets objects from_db).0 t p n ≡ relevant (some d) n (t p n))
        × (lookup p (sync_policies sets objects from_db).1 ≡ none)
  unfolding sync_policies
  sync_policies-present [] from_db t p n d proper h agree = cc
  sync_policies-present (clusters_per_policy c ∷ objects) from_db t p n d proper h agree =
      elim (Bool-cases (str_eq c.policy_id p)) [
        | inl own ↦
            let eq : c.policy_id ≡ p = (eq_iff c.policy_id p).0 own in
            let same : c ≡ d = ground arith in
            let result = sync_policies-head c objects from_db t n proper.0 proper.1 (λ m.
              subst
                (λ q. sets.contains m (or_else (lookup q from_db) sets.new_set) ≡ is_some (t q m))
                (sym eq) (agree m)) in
            subst₂
              (λ (q : String) (e : ClustersPerPolicy).
                (perform_all (sync_policies sets (clusters_per_policy c ∷ objects) from_db).0 t q n
                  ≡ relevant (some e) n (t q n))
                × (lookup q (sync_policies sets (clusters_per_policy c ∷ objects) from_db).1
                    ≡ none))
              eq same result
        | inr other ↦
            let handle =
              handle_cluster_per_policy sets c
                (or_else (lookup c.policy_id from_db) sets.new_set) in
            let elsewhere : (m : String) → perform_all handle t p m ≡ t p m = λ m.
              handle_cluster_per_policy-elsewhere sets laws c
                (or_else (lookup c.policy_id from_db) sets.new_set) t p m other in
            let kept : lookup p (remove c.policy_id from_db) ≡ lookup p from_db =
              ground (arith, lookup-remove c.policy_id p from_db) in
            let (more, rest) =
              sync_policies-present objects (remove c.policy_id from_db) (perform_all handle t) p n
                d proper.2 (ground arith)
                (λ m.
                  ap (λ o. sets.contains m (or_else o sets.new_set)) kept
                  ∙ agree m
                  ∙ ap is_some (sym (elsewhere m))) in
            (
              perform_all-sync_policies c objects from_db t p n
                  ∙ more
                  ∙ ap (relevant (some d) n) (elsewhere n),
              rest,
            )
      ]
  sync_policies-present (managed_cluster c ∷ objects) from_db t p n d proper h agree =
      sync_policies-present objects from_db t p n d proper h agree
  sync_policies-present (policy_compliance_status c ∷ objects) from_db t p n d proper h agree =
      sync_policies-present objects from_db t p n d proper h agree
  sync_policies-present (minimal_policy_compliance_status c ∷ objects) from_db t p n d proper h
        agree =
      sync_policies-present objects from_db t p n d proper h agree

  perform_all-delete_policy :
      (left : List (String × S)) (t : Rows) (p n : String)
      → perform_all (map delete_policy (keys left)) t p n
        ≡ (elim (lookup p left) [ none ↦ t p n | some s ↦ none ])
  unfolding lookup keys
  perform_all-delete_policy [] t p n = refl
  perform_all-delete_policy ((k, s) ∷ left) t p n =
      ground (arith, perform_all-delete_policy left (perform (delete_policy k) t) p n)

-- After the calls of `handleClustersPerPolicyBundle` the rows of the leaf hub are those of the
-- clusters that the bundle lists for a policy: a row that was there keeps its compliance, a new one
-- is unknown, and every other row is gone; given that the query returned for each policy the set of
-- the clusters with a row, that each policy has one entry in the bundle at most, and that an entry
-- lists no cluster twice.
pub relevance_calls-relevant :
    {S : Type 0} (sets : Sets S) (laws : IsSets sets) (objects : List Object)
    (from_db : List (String × S)) (t : Rows)
    → IsProperList objects
    → ((p m : String) → sets.contains m (or_else (lookup p from_db) sets.new_set) ≡ is_some (t p m))
    → (p n : String)
    → perform_all (relevance_calls sets objects from_db) t p n
      ≡ relevant (find_policy p objects) n (t p n)
unfolding relevance_calls
relevance_calls-relevant sets laws objects from_db t proper agree p n =
    let (calls, left) = sync_policies sets objects from_db in
    ap (λ f. f p n) (perform_all-append calls (map delete_policy (keys left)) t)
    ∙ perform_all-delete_policy sets laws left (perform_all calls t) p n
    ∙ elim (Option-cases (find_policy p objects)) [
      | inl missing ↦
          let (a, b) = sync_policies-absent sets laws objects from_db t p n missing in
          ground (arith, a, b, agree p n, laws.contains-new_set n)
      | inr (d, found) ↦
          let (a, b) =
            sync_policies-present sets laws objects from_db t p n d proper found (agree p) in
          ground (arith, a, b)
    ]
