-- ===== src/DbSyncer/Policies/ComplianceBundle.antt =====
-- What handleComplianceBundle asks of the compliance table, over all policies of a bundle.
use hub_of_hubs_status_trans.Base.{
  ◌≡◌, refl, ap, String, List, [], ◌∷◌, map, Option, none, some, arith, Option-cases, inl, inr, ◌∙◌,
  lookup, keys,
}
use hub_of_hubs_status_trans.Bundle.{Object}
use hub_of_hubs_status_trans.Db.Sets.{Sets, IsSets}
use hub_of_hubs_status_trans.Db.Policies.{
  compliant, update_policy_compliance, NonCompliantClusterSets, new_non_compliant_cluster_sets,
  Rows, replaced, perform, perform_all, perform_all-append,
}
use hub_of_hubs_status_trans.DbSyncer.Policies.{sync_compliance, compliance_calls}
use hub_of_hubs_status_trans.DbSyncer.Policies.ComplianceEntries.{
  find_status, IsProperReport, report, IsFound, found_for, compliant_row, sync_compliance-absent,
  sync_compliance-present,
}

module _ {S : Type 0} (sets : Sets S) (laws : IsSets sets) where
  perform_all-update_policy :
      (left : List (String × NonCompliantClusterSets S)) (t : Rows) (p n : String)
      → perform_all (map (λ q. update_policy_compliance q compliant) (keys left)) t p n
        ≡ (elim (lookup p left) [ none ↦ t p n | some s ↦ replaced compliant (t p n) ])
  unfolding lookup keys
  perform_all-update_policy [] t p n = refl
  perform_all-update_policy ((k, s) ∷ left) t p n =
      ground (
        arith,
        perform_all-update_policy left (perform (update_policy_compliance k compliant) t) p n,
      )

  -- A policy that the query did not return has compliant rows only.
  compliant_already :
      (from_db : List (String × NonCompliantClusterSets S)) (row : String → Option String)
      (p n : String)
      → lookup p from_db ≡ none
      → IsFound sets (found_for sets laws p from_db) row
      → row n ≡ replaced compliant (row n)
  unfolding new_non_compliant_cluster_sets
  compliant_already from_db row p n h agree =
      compliant_row (row n) (agree.states n)
        (ground (arith, h, agree.non_compliant_rows n, laws.contains-new_set n))
        (ground (arith, h, agree.unknown_rows n, laws.contains-new_set n))

-- After the calls of `handleComplianceBundle` each row of the leaf hub has the compliance that the
-- bundle reports: that of its policy's entry, and compliant where the bundle has no entry for the
-- policy; no row is added or lost; given that the query returned for each policy the clusters with a
-- non compliant and with an unknown row, that each row has one of the three states, that each policy
-- has one entry in the bundle at most, and that no entry lists a cluster both ways.
pub compliance_calls-reported :
    {S : Type 0} (sets : Sets S) (laws : IsSets sets) (objects : List Object)
    (from_db : List (String × NonCompliantClusterSets S)) (t : Rows)
    → IsProperReport objects
    → ((p : String) → IsFound sets (found_for sets laws p from_db) (t p))
    → (p n : String)
    → perform_all (compliance_calls sets objects from_db) t p n
      ≡ replaced (report (find_status p objects) n) (t p n)
unfolding compliance_calls
compliance_calls-reported sets laws objects from_db t proper agree p n =
    let (calls, left) = sync_compliance sets objects from_db in
    ap (λ f. f p n)
      (perform_all-append calls (map (λ q. update_policy_compliance q compliant) (keys left)) t)
    ∙ perform_all-update_policy sets laws left (perform_all calls t) p n
    ∙ elim (Option-cases (find_status p objects)) [
      | inl missing ↦
          let (a, b) = sync_compliance-absent sets laws objects from_db t p n missing in
          elim (Option-cases (lookup p from_db)) [
            | inl none_found ↦
                let same = compliant_already sets laws from_db (t p) p n none_found (agree p) in
                ground (arith, a, b, same)
            | inr (s, some_found) ↦ ground (arith, a, b)
          ]
      | inr (d, found) ↦
          let (a, b) =
            sync_compliance-present sets laws objects from_db t p n d proper found (agree p) in
          ground (arith, a, b)
    ]
