-- ===== src/DbSyncer/Policies/ComplianceEntries.antt =====
-- The loop of handleComplianceBundle over the entries of a bundle.
use hub_of_hubs_status_trans.Base.{
  ◌≡◌, refl, ap, sym, subst, String, false, ◌&&◌, List, [], ◌∷◌, Option, none, some, if◌then◌else◌,
  str_eq, eq_iff, arith, elem, Bool-cases, inl, inr, ◌∙◌, lookup, remove, lookup-remove, or_else,
}
use mathlib.Core.Path.{subst₂}
use hub_of_hubs_status_trans.Bundle.{
  Object, PolicyComplianceStatus, managed_cluster, clusters_per_policy, policy_compliance_status,
  minimal_policy_compliance_status,
}
use hub_of_hubs_status_trans.Db.Sets.{Sets, IsSets}
use hub_of_hubs_status_trans.Db.Policies.{
  compliant, non_compliant, unknown, NonCompliantClusterSets, new_non_compliant_cluster_sets, Rows,
  replaced, perform_all, perform_all-append, PoliciesCall,
}
use hub_of_hubs_status_trans.DbSyncer.Policies.{handle_policy_compliance_status, sync_compliance}
use hub_of_hubs_status_trans.DbSyncer.Policies.Compliance.{
  has_state, IsState, reported, handle_policy_compliance_status-reported,
  handle_policy_compliance_status-elsewhere,
}

-- The entry of that policy among the objects of a bundle.
abbrev pub find_status : String → List Object → Option PolicyComplianceStatus
find_status p [] = none
find_status p (policy_compliance_status c ∷ objects) =
    if str_eq c.policy_id p then some c else find_status p objects
find_status p (managed_cluster c ∷ objects) = find_status p objects
find_status p (clusters_per_policy c ∷ objects) = find_status p objects
find_status p (minimal_policy_compliance_status c ∷ objects) = find_status p objects

-- No cluster is listed both non compliant and unknown.
abbrev pub IsDisjoint : PolicyComplianceStatus → Type 0
IsDisjoint c =
    (n : String) → elem n c.non_compliant_clusters && elem n c.unknown_compliance_clusters ≡ false

-- Each policy has one entry at most, and no entry lists a cluster both ways.
abbrev pub IsProperReport : List Object → Type 0
IsProperReport [] = Unit {0}
IsProperReport (policy_compliance_status c ∷ objects) =
    (find_status c.policy_id objects ≡ none) × IsDisjoint c × IsProperReport objects
IsProperReport (managed_cluster c ∷ objects) = IsProperReport objects
IsProperReport (clusters_per_policy c ∷ objects) = IsProperReport objects
IsProperReport (minimal_policy_compliance_status c ∷ objects) = IsProperReport objects

-- The state that a bundle with that entry for a policy reports for a cluster.
abbrev pub report : Option PolicyComplianceStatus → String → String
report none n = compliant
report (some c) n = reported c n

-- What the query found for one policy: the clusters with a row of either state.
pub record IsFound {S : Type 0} (sets : Sets S) (found : NonCompliantClusterSets S)
    (row : String → Option String) : Type 0 where
  pub non_compliant_rows :
      (n : String) → sets.contains n found.non_compliant_clusters ≡ has_state non_compliant (row n)
  pub unknown_rows :
      (n : String) → sets.contains n found.unknown_clusters ≡ has_state unknown (row n)
  pub states : (n : String) → IsState (row n)

pub compliant_row :
    (row : Option String)
    → IsState row
    → has_state non_compliant row ≡ false
    → has_state unknown row ≡ false
    → row ≡ replaced compliant row
compliant_row none state nc unk = refl
compliant_row (some v) (inl e) nc unk = ap some e
compliant_row (some v) (inr (inl e)) nc unk = absurd (ground (arith, nc, e, eq_iff v non_compliant))
compliant_row (some v) (inr (inr e)) nc unk = absurd (ground (arith, unk, e, eq_iff v unknown))

module _ {S : Type 0} (sets : Sets S) (laws : IsSets sets) where
  abbrev pub found_for :
      String → List (String × NonCompliantClusterSets S) → NonCompliantClusterSets S
  found_for p from_db = or_else (lookup p from_db) (new_non_compliant_cluster_sets sets)

  -- The calls for one entry of the bundle.
  abbrev entry_calls :
      PolicyComplianceStatus → List (String × NonCompliantClusterSets S) → List PoliciesCall
  entry_calls c from_db =
      handle_policy_compliance_status sets c (found_for c.policy_id from_db).non_compliant_clusters
        (found_for c.policy_id from_db).unknown_clusters

  perform_all-sync_compliance :
      (c : PolicyComplianceStatus) (objects : List Object)
      (from_db : List (String × NonCompliantClusterSets S)) (t : Rows) (p n : String)
      → perform_all (sync_compliance sets (policy_compliance_status c ∷ objects) from_db).0 t p n
        ≡ perform_all
            (sync_compliance sets objects (remove c.policy_id from_db)).0
            (perform_all (entry_calls c from_db) t)
            p
            n
  unfolding sync_compliance
  perform_all-sync_compliance c objects from_db t p n =
      ap (λ f. f p n)
        (perform_all-append (entry_calls c from_db)
          (sync_compliance sets objects (remove c.policy_id from_db)).0 t)

  pub sync_compliance-absent :
      (objects : List Object) (from_db : List (String × NonCompliantClusterSets S)) (t : Rows)
      (p n : String)
      → find_status p objects ≡ none
      → (perform_all (sync_compliance sets objects from_db).0 t p n ≡ t p n)
        × (lookup p (sync_compliance sets objects from_db).1 ≡ lookup p from_db)
  unfolding sync_compliance
  sync_compliance-absent [] from_db t p n h = (refl, refl)
  sync_compliance-absent (policy_compliance_status c ∷ objects) from_db t p n h =
      let ne : str_eq c.policy_id p ≡ false = ground arith in
      let found = found_for c.policy_id from_db in
      let (more, rest) =
        sync_compliance-absent objects (remove c.policy_id from_db)
          (perform_all (entry_calls c from_db) t) p n (ground arith) in
      (
        perform_all-sync_compliance c objects from_db t p n
            ∙ more
            ∙ handle_policy_compliance_status-elsewhere sets laws c found.non_compliant_clusters
                found.unknown_clusters t p n ne,
        rest ∙ ground (arith, lookup-remove c.policy_id p from_db),
      )
  sync_compliance-absent (managed_cluster c ∷ objects) from_db t p n h =
      sync_compliance-absent objects from_db t p n h
  sync_compliance-absent (clusters_per_policy c ∷ objects) from_db t p n h =
      sync_compliance-absent objects from_db t p n h
  sync_compliance-absent (minimal_policy_compliance_status c ∷ objects) from_db t p n h =
      sync_compliance-absent objects from_db t p n h

  -- The entry of the policy itself.
  sync_compliance-head :
      (c : PolicyComplianceStatus) (objects : List Object)
      (from_db : List (String × NonCompliantClusterSets S)) (t : Rows) (n : String)
      → find_status c.policy_id objects ≡ none
      → IsDisjoint c
      → IsFound sets (found_for c.policy_id from_db) (t c.policy_id)
      → (perform_all
            (sync_compliance sets (policy_compliance_status c ∷ objects) from_db).0
            t
            c.policy_id
            n
          ≡ replaced (reported c n) (t c.policy_id n))
        × (lookup c.policy_id
              (sync_compliance sets (policy_compliance_status c ∷ objects) from_db).1
            ≡ none)
  unfolding sync_compliance
  sync_compliance-head c objects from_db t n absent disjoint agree =
      let found = found_for c.policy_id from_db in
      let (more, rest) =
        sync_compliance-absent objects (remove c.policy_id from_db)
          (perform_all (entry_calls c from_db) t) c.policy_id n absent in
      (
        perform_all-sync_compliance c objects from_db t c.policy_id n
            ∙ more
            ∙ handle_policy_compliance_status-reported sets laws c found.non_compliant_clusters
                found.unknown_clusters t agree.non_compliant_rows agree.unknown_rows agree.states
                disjoint n,
        rest
            ∙ ground (
              arith,
              eq_iff c.policy_id c.policy_id,
              lookup-remove c.policy_id c.policy_id from_db,
            ),
      )

  pub sync_compliance-present :
      (objects : List Object) (from_db : List (String × NonCompliantClusterSets S)) (t : Rows)
      (p n : String) (d : PolicyComplianceStatus)
      → IsProperReport objects
      → find_status p objects ≡ some d
      → IsFound sets (found_for p from_db) (t p)
      → (perform_all (sync_compliance sets objects from_db).0 t p n
          ≡ replaced (reported d n) (t p n))
        × (lookup p (sync_compliance sets objects from_db).1 ≡ none)
  unfolding sync_compliance
  sync_compliance-present [] from_db t p n d proper h agree = cc
  sync_compliance-present (policy_compliance_status c ∷ objects) from_db t p n d proper h agree =
      elim (Bool-cases (str_eq c.policy_id p)) [
        | inl own ↦
            let eq : c.policy_id ≡ p = (eq_iff c.policy_id p).0 own in
            let same : c ≡ d = ground arith in
            subst₂
              (λ (q : String) (e : PolicyComplianceStatus).
                (perform_all (sync_compliance sets (policy_compliance_status c ∷ objects) from_db).0
                    t q n
                  ≡ replaced (reported e n) (t q n))
                × (lookup q (sync_compliance sets (policy_compliance_status c ∷ objects) from_db).1
                    ≡ none))
              eq same
              (sync_compliance-head c objects from_db t n proper.0 proper.1
                (subst (λ q. IsFound sets (found_for q from_db) (t q)) (sym eq) agree))
        | inr other ↦
            let found = found_for c.policy_id from_db in
            let elsewhere : (m : String) → perform_all (entry_calls c from_db) t p m ≡ t p m = λ m.
              handle_policy_compliance_status-elsewhere sets laws c found.non_compliant_clusters
                found.unknown_clusters t p m other in
            let kept : lookup p (remove c.policy_id from_db) ≡ lookup p from_db =
              ground (arith, lookup-remove c.policy_id p from_db) in
            let agree' : IsFound sets (found_for p (remove c.policy_id from_db))
                (perform_all (entry_calls c from_db) t p) =
              record {
                non_compliant_rows = λ m. rw kept (rw (elsewhere m) (agree.non_compliant_rows m));
                unknown_rows = λ m. rw kept (rw (elsewhere m) (agree.unknown_rows m));
                states = λ m. rw (elsewhere m) (agree.states m);
              } in
            let (more, rest) =
              sync_compliance-present objects (remove c.policy_id from_db)
                (perform_all (entry_calls c from_db) t) p n d proper.2 (ground arith) agree' in
            (
              perform_all-sync_compliance c objects from_db t p n
                  ∙ more
                  ∙ ap (replaced (reported d n)) (elsewhere n),
              rest,
            )
      ]
  sync_compliance-present (managed_cluster c ∷ objects) from_db t p n d proper h agree =
      sync_compliance-present objects from_db t p n d proper h agree
  sync_compliance-present (clusters_per_policy c ∷ objects) from_db t p n d proper h agree =
      sync_compliance-present objects from_db t p n d proper h agree
  sync_compliance-present (minimal_policy_compliance_status c ∷ objects) from_db t p n d proper h
        agree =
      sync_compliance-present objects from_db t p n d proper h agree
