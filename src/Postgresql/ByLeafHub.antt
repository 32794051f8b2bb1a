-- ===== src/Postgresql/ByLeafHub.antt =====
-- The queries of postgresql.go by leaf hub: what they return of the driver's rows.
use hub_of_hubs_status_trans.Base.{◌≡◌, ◌∙◌, String, [], ◌∷◌, or_else, arith, lookup, elem}
use hub_of_hubs_status_trans.Db.Sets.{Sets, IsSets}
use hub_of_hubs_status_trans.Db.Policies.{non_compliant, unknown, new_non_compliant_cluster_sets}
use hub_of_hubs_status_trans.Postgresql.{
  Driver, text, rows_of, get_managed_clusters_by_leaf_hub, get_compliance_status_by_leaf_hub,
  get_non_compliant_clusters_by_leaf_hub, get_policy_ids_by_leaf_hub,
}
use hub_of_hubs_status_trans.Postgresql.Sql.{
  managed_clusters_sql, compliance_sql, non_compliant_sql, policy_ids_sql,
}
use hub_of_hubs_status_trans.Postgresql.Queries.{
  Reads, Reads-suits, last_version, read_managed_clusters-Reads, listed, has_row,
  read_compliance-Reads, found_in, read_non_compliant-Reads, read_policy_ids-Reads,
}

module _ {D A : Type 0} (driver : Driver D A) (schema table_name leaf_hub_name : String)
    (d : D) where
  -- The managed clusters that are fetched: each cluster of the rows with the version of its last
  -- row, and no other cluster. If a row cannot be read, the result is an error.
  pub get_managed_clusters_by_leaf_hub-Reads :
      let answer =
        rows_of
          (driver.query_two (managed_clusters_sql schema table_name) (text leaf_hub_name ∷ []) d) in
      Reads answer
        (get_managed_clusters_by_leaf_hub driver schema table_name leaf_hub_name d)
        (λ xs b. (n : String) → lookup n b ≡ last_version n xs)
  unfolding get_managed_clusters_by_leaf_hub lookup
  get_managed_clusters_by_leaf_hub-Reads =
      Reads-suits (λ xs b good n. good n ∙ ground arith)
        (read_managed_clusters-Reads schema table_name
          (rows_of
            (driver.query_two (managed_clusters_sql schema table_name) (text leaf_hub_name ∷ []) d))
          [])

module _ {D S A : Type 0} (sets : Sets S) (laws : IsSets sets) (driver : Driver D A)
    (schema table_name leaf_hub_name : String) (d : D) where
  -- The compliance that is fetched: a cluster is in the set of a policy exactly if some row has
  -- that policy and that cluster. If a row cannot be read, the result is an error.
  pub get_compliance_status_by_leaf_hub-Reads :
      let answer =
        rows_of (driver.query_two (compliance_sql schema table_name) (text leaf_hub_name ∷ []) d) in
      Reads answer
        (get_compliance_status_by_leaf_hub sets driver schema table_name leaf_hub_name d)
        (λ xs b.
          (p n : String) → sets.contains n (or_else (lookup p b) sets.new_set) ≡ listed p n xs)
  unfolding get_compliance_status_by_leaf_hub lookup
  get_compliance_status_by_leaf_hub-Reads =
      Reads-suits (λ xs b good p n. good p n ∙ ground (arith, laws.contains-new_set n))
        (read_compliance-Reads sets laws
          (rows_of
            (driver.query_two (compliance_sql schema table_name) (text leaf_hub_name ∷ []) d))
          [])

  -- The non-compliant clusters that are fetched: a cluster is in a policy's set of non-compliant
  -- clusters exactly if some row has that policy, that cluster and the compliance `non_compliant`,
  -- and likewise for the set of unknown clusters; rows with another compliance are in neither. If
  -- a row cannot be read, the result is an error.
  pub get_non_compliant_clusters_by_leaf_hub-Reads :
      let answer =
        rows_of
          (driver.query_three (non_compliant_sql schema table_name) (text leaf_hub_name ∷ []) d) in
      Reads answer
        (get_non_compliant_clusters_by_leaf_hub sets driver schema table_name leaf_hub_name d)
        (λ xs b.
          (p n : String)
          → (sets.contains n (found_in sets laws p b).non_compliant_clusters
              ≡ has_row p n non_compliant xs)
            × (sets.contains n (found_in sets laws p b).unknown_clusters ≡ has_row p n unknown xs))
  unfolding get_non_compliant_clusters_by_leaf_hub new_non_compliant_cluster_sets lookup
  get_non_compliant_clusters_by_leaf_hub-Reads =
      Reads-suits
        (λ xs b good p n.
          let (x, y) = good p n in
          (
            x ∙ ground (arith, laws.contains-new_set n),
            y ∙ ground (arith, laws.contains-new_set n),
          ))
        (read_non_compliant-Reads sets laws
          (rows_of
            (driver.query_three (non_compliant_sql schema table_name) (text leaf_hub_name ∷ []) d))
          [])

  -- The policy ids that are fetched: exactly those of the rows. If a row cannot be read, the
  -- result is an error.
  pub get_policy_ids_by_leaf_hub-Reads :
      let answer =
        rows_of (driver.query_one (policy_ids_sql schema table_name) (text leaf_hub_name ∷ []) d) in
      Reads answer
        (get_policy_ids_by_leaf_hub sets driver schema table_name leaf_hub_name d)
        (λ xs b. (p : String) → sets.contains p b ≡ elem p xs)
  unfolding get_policy_ids_by_leaf_hub lookup
  get_policy_ids_by_leaf_hub-Reads =
      Reads-suits (λ xs b good p. good p ∙ ground (arith, laws.contains-new_set p))
        (read_policy_ids-Reads sets laws table_name
          (rows_of
            (driver.query_one (policy_ids_sql schema table_name) (text leaf_hub_name ∷ []) d))
          sets.new_set)
