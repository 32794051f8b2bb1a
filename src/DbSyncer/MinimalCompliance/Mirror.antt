-- ===== src/DbSyncer/MinimalCompliance/Mirror.antt =====
-- handleMinimalComplianceBundle: its calls, read in the table of aggregated compliance.
use hub_of_hubs_status_trans.Base.{
  ℕ, ◌≡◌, refl, ap, String, false, List, [], ◌∷◌, Option, none, some, if◌then◌else◌, str_eq, arith,
  elem, is_some, Option-cases, inl, inr, ◌⊎◌, ◌∙◌, sym,
}
use hub_of_hubs_status_trans.Bundle.{
  Bundle, Object, managed_cluster, clusters_per_policy, policy_compliance_status,
  minimal_policy_compliance_status, get_objects, get_leaf_hub_name, MinimalPolicyComplianceStatus,
}
use hub_of_hubs_status_trans.Db.{Fetched, rows, failed}
use hub_of_hubs_status_trans.Db.Sets.{Sets, IsSets}
use hub_of_hubs_status_trans.Db.Policies.{AggregatedPoliciesStatusDb}
use hub_of_hubs_status_trans.DbSyncer.MinimalCompliance.{
  update_policies, delete_policies, handle_minimal_compliance_bundle,
}

-- The two counts of a policy's row.
abbrev pub Counts : Type 0
Counts = ℕ × ℕ

abbrev pub counts : MinimalPolicyComplianceStatus → Counts
counts p = (p.applied_clusters, p.non_compliant_clusters)

-- The counts of a policy's last entry in a bundle.
abbrev pub last_entry : String → List Object → Option Counts
last_entry q [] = none
last_entry q (minimal_policy_compliance_status p ∷ objects) = elim (last_entry q objects) [
  | some found ↦ some found
  | none ↦ if str_eq p.policy_id q then some (counts p) else none
]
last_entry q (managed_cluster p ∷ objects) = last_entry q objects
last_entry q (clusters_per_policy p ∷ objects) = last_entry q objects
last_entry q (policy_compliance_status p ∷ objects) = last_entry q objects

-- What the database promises: `row` reads the row of a leaf hub's policy.
pub record IsAggregated {D S : Type 0} (sets : Sets S) (client : AggregatedPoliciesStatusDb D S)
    (row : D → String → String → Option Counts) : Type 0 where
  pub fetched :
      (hub : String) (d : D) (ids : S)
      → client.get_policy_ids_by_leaf_hub hub d ≡ rows ids
      → (p : String) → sets.contains p ids ≡ is_some (row d hub p)
  pub updated :
      (hub p : String) (applied non_compliant : ℕ) (d : D)
      → (client.insert_or_update_aggregated_policy_compliance hub p applied non_compliant d).1
        ≡ none
      → (q : String)
      → row
          (client.insert_or_update_aggregated_policy_compliance hub p applied non_compliant d).0
          hub
          q
        ≡ (if str_eq p q then some (applied, non_compliant) else row d hub q)
  pub deleted :
      (hub p : String) (d : D)
      → (client.delete_all_compliance_rows hub p d).1 ≡ none
      → (q : String)
      → row (client.delete_all_compliance_rows hub p d).0 hub q
        ≡ (if str_eq p q then none else row d hub q)

-- What an insert or update that returns no error does to the rows.
abbrev pub Upserts :
    {D S : Type 0} → AggregatedPoliciesStatusDb D S → (D → String → String → Option Counts) → Type 0
Upserts {D} client row =
    (hub p : String) (applied non_compliant : ℕ) (d : D)
    → let run =
        client.insert_or_update_aggregated_policy_compliance hub p applied non_compliant d in
      run.1 ≡ none
      → (q : String)
      → row run.0 hub q ≡ (if str_eq p q then some (applied, non_compliant) else row d hub q)

-- The counts after an entry of a bundle, if there is one, over those before.
abbrev pub over : Option Counts → Option Counts → Option Counts
over none old = old
over (some new) old = some new

module _ {D S : Type 0} (sets : Sets S) (laws : IsSets sets)
    (client : AggregatedPoliciesStatusDb D S) (row : D → String → String → Option Counts)
    (upserts : Upserts client row) (hub : String) where
  -- The database and the error after the row of one policy.
  abbrev upsert : MinimalPolicyComplianceStatus → D → D × Option String
  upsert p d =
      client.insert_or_update_aggregated_policy_compliance hub p.policy_id p.applied_clusters
        p.non_compliant_clusters d

  update_policies-goes_on :
      (p : MinimalPolicyComplianceStatus) (objects : List Object) (ids : S) (d : D)
      → (update_policies sets client hub (minimal_policy_compliance_status p ∷ objects) ids d).1.0
        ≡ none
      → ((upsert p d).1 ≡ none)
        × (update_policies sets client hub (minimal_policy_compliance_status p ∷ objects) ids d
            ≡ update_policies sets client hub objects (sets.remove p.policy_id ids) (upsert p d).0)
  unfolding update_policies
  update_policies-goes_on p objects ids d ok = elim (Option-cases (upsert p d).1) [
    | inl fine ↦ (fine, rw (update_policies, fine) refl)
    | inr (message, e) ↦ absurd (ground (arith, ok))
  ]

  pub update_policies-rows :
      (objects : List Object) (ids : S) (d : D)
      → (update_policies sets client hub objects ids d).1.0 ≡ none
      → (q : String)
      → (row (update_policies sets client hub objects ids d).0 hub q
          ≡ over (last_entry q objects) (row d hub q))
        × (sets.contains q (update_policies sets client hub objects ids d).1.1
            ≡ (if is_some (last_entry q objects) then false else sets.contains q ids))
  unfolding update_policies
  update_policies-rows [] ids d ok q = (refl, refl)
  update_policies-rows (minimal_policy_compliance_status p ∷ objects) ids d ok q =
      let (fine, e) = update_policies-goes_on p objects ids d ok in
      let (a, b) =
        update_policies-rows objects (sets.remove p.policy_id ids) (upsert p d).0
          (sym (ap (λ x. x.1.0) e) ∙ ok) q in
      rw e (
        ground (
          arith,
          a,
          b,
          laws.contains-remove q p.policy_id ids,
          upserts hub p.policy_id p.applied_clusters p.non_compliant_clusters d fine q,
        ))
  update_policies-rows (managed_cluster p ∷ objects) ids d ok q =
      update_policies-rows objects ids d ok q
  update_policies-rows (clusters_per_policy p ∷ objects) ids d ok q =
      update_policies-rows objects ids d ok q
  update_policies-rows (policy_compliance_status p ∷ objects) ids d ok q =
      update_policies-rows objects ids d ok q

module _ {D S : Type 0} (sets : Sets S) (client : AggregatedPoliciesStatusDb D S)
    (row : D → String → String → Option Counts) (promises : IsAggregated sets client row)
    (hub : String) where
  delete_policies-goes_on :
      (p : String) (ps : List String) (d : D)
      → (delete_policies sets client hub (p ∷ ps) d).1 ≡ none
      → ((client.delete_all_compliance_rows hub p d).1 ≡ none)
        × (delete_policies sets client hub (p ∷ ps) d
            ≡ delete_policies sets client hub ps (client.delete_all_compliance_rows hub p d).0)
  unfolding delete_policies
  delete_policies-goes_on p ps d ok =
      elim (Option-cases (client.delete_all_compliance_rows hub p d).1) [
        | inl fine ↦ (fine, rw (delete_policies, fine) refl)
        | inr (message, e) ↦ absurd (ground (arith, ok))
      ]

  delete_policies-rows :
      (ps : List String) (d : D)
      → (delete_policies sets client hub ps d).1 ≡ none
      → (q : String)
      → row (delete_policies sets client hub ps d).0 hub q
        ≡ (if elem q ps then none else row d hub q)
  unfolding delete_policies
  delete_policies-rows [] d ok q = refl
  delete_policies-rows (p ∷ ps) d ok q =
      let (fine, e) = delete_policies-goes_on p ps d ok in
      let d' = (client.delete_all_compliance_rows hub p d).0 in
      let rest = delete_policies-rows ps d' (sym (ap (λ x. x.1) e) ∙ ok) q in
      rw e (ground (arith, rest, promises.deleted hub p d fine q))

pub Fetched-cases {ℓ} :
    {A : Type ℓ} (f : Fetched A)
    → ((message : String) × (f ≡ failed message)) ⊎ ((a : A) × (f ≡ rows a))
Fetched-cases (rows a) = inr (a, refl)
Fetched-cases (failed message) = inl (message, refl)

module _ {D S : Type 0} (sets : Sets S) (client : AggregatedPoliciesStatusDb D S) (bundle : Bundle)
    (d : D) where
  abbrev updates : S → D × (Option String × S)
  updates ids = update_policies sets client (get_leaf_hub_name bundle) (get_objects bundle) ids d

  -- A handler without an error has got through its three parts.
  pub handle_minimal_compliance_bundle-goes_on :
      (handle_minimal_compliance_bundle sets client bundle d).1 ≡ none
      → (ids : S) × (client.get_policy_ids_by_leaf_hub (get_leaf_hub_name bundle) d ≡ rows ids)
        × ((updates ids).1.0 ≡ none)
        × (handle_minimal_compliance_bundle sets client bundle d
            ≡ delete_policies sets client
                (get_leaf_hub_name bundle)
                (sets.elements (updates ids).1.1)
                (updates ids).0)
  unfolding handle_minimal_compliance_bundle
  handle_minimal_compliance_bundle-goes_on ok =
      elim (Fetched-cases (client.get_policy_ids_by_leaf_hub (get_leaf_hub_name bundle) d)) [
        | inl (message, e) ↦ absurd (ground (arith, ok, e))
        | inr (ids, e) ↦ elim (Option-cases (updates ids).1.0) [
          | inl fine ↦ (ids, e, fine, rw (handle_minimal_compliance_bundle, e, fine) refl)
          | inr (message, stops) ↦ absurd (ground (arith, ok, e, stops))
        ]
      ]

-- If handleMinimalComplianceBundle returns no error, then the rows of the leaf hub are those of the
-- bundle: each policy of the bundle has the counts of its last entry, and no other policy has a row;
-- given a database that keeps its promises.
pub handle_minimal_compliance_bundle-mirrors :
    {D S : Type 0} (sets : Sets S) (laws : IsSets sets) (client : AggregatedPoliciesStatusDb D S)
    (row : D → String → String → Option Counts) (promises : IsAggregated sets client row)
    (bundle : Bundle) (d : D)
    → (handle_minimal_compliance_bundle sets client bundle d).1 ≡ none
    → (q : String)
    → row (handle_minimal_compliance_bundle sets client bundle d).0 (get_leaf_hub_name bundle) q
      ≡ last_entry q (get_objects bundle)
handle_minimal_compliance_bundle-mirrors sets laws client row promises bundle d ok q =
    let (ids, e, fine, same) = handle_minimal_compliance_bundle-goes_on sets client bundle d ok in
    let hub = get_leaf_hub_name bundle in
    let (a, b) =
      update_policies-rows sets laws client row promises.updated hub (get_objects bundle) ids d fine
        q in
    let left = sets.elements (updates sets client bundle d ids).1.1 in
    let c =
      delete_policies-rows sets client row promises hub left (updates sets client bundle d ids).0
        (sym (ap (λ x. x.1) same) ∙ ok) q in
    rw same (
      ground (
        arith,
        a,
        b,
        c,
        laws.elem-elements q (updates sets client bundle d ids).1.1,
        promises.fetched hub d ids e q,
      ))
