-- ===== src/Tests/Aggregated.antt =====
-- The minimal compliance handler over a driver whose database is the aggregated table of one hub,
-- with a column missing.
use hub_of_hubs_status_trans.Base.{
  ◌≡◌, refl, ap, sym, String, List, [], ◌∷◌, map, false, true, Option, none, some, if◌then◌else◌,
  str_eq, arith, is_some, lookup, assign, remove, keys, lookup-assign, Bool, Bool-cases, inl, inr,
  eq_iff,
}
use hub_of_hubs_status_trans.Tests.ListSets.{lists, lists-IsSets, without}
use hub_of_hubs_status_trans.Tests.Syncing.{row_of, minimal}
use hub_of_hubs_status_trans.Bundle.{get_objects, get_leaf_hub_name}
use hub_of_hubs_status_trans.DbSyncer.MinimalCompliance.{
  handle_minimal_compliance_bundle, update_policies, delete_policies,
}
use hub_of_hubs_status_trans.DbSyncer.MinimalCompliance.Mirror.{Counts}
use hub_of_hubs_status_trans.Postgresql.{
  Driver, Argument, text, number, query_failed, Scanned, scanned, answered,
  get_policy_ids_by_leaf_hub, read_policy_ids, insert_or_update_aggregated_policy_compliance,
  delete_all_compliance_rows, unreadable,
}
use hub_of_hubs_status_trans.Postgresql.Sql.{
  exists_sql, update_sql, insert_sql, policy_ids_sql, delete_sql,
}
use hub_of_hubs_status_trans.Postgresql.Columns.{IsWithout, names, words}
use hub_of_hubs_status_trans.Postgresql.Aggregated.{
  aggregated_client, IsAggregatedTable, handle_minimal_compliance_bundle-keeps_obsolete,
  handle_minimal_compliance_bundle-refused,
}

abbrev Table : Type 0
Table = List (String × Counts)

-- The statements of the client on a table with the columns `id`, `leaf_hub_name` and the counts.
abbrev run : String → List Argument → Table → Table × Option String
run sql (number a ∷ number n ∷ text hub ∷ text p ∷ []) d =
    (if is_some (lookup p d) then assign p (a, n) d else d, none)
run sql (text p ∷ text hub ∷ number a ∷ number n ∷ []) d = (assign p (a, n) d, none)
run sql (text hub ∷ text p ∷ []) d = (remove p d, none)
run sql args d = (d, some "unknown statement")

abbrev exists_in : List Argument → Table → Bool
exists_in (text hub ∷ text p ∷ []) d = is_some (lookup p d)
exists_in args d = false

-- A table that lacks this column.
abbrev lacking : String → Driver Table String
lacking column = record {
  max_conns = 1;
  query_one = λ sql args d.
      if names column sql then query_failed "no column" else answered (map scanned (keys d));
  query_two = λ sql args d. answered [];
  query_three = λ sql args d. answered [];
  query_row =
      λ sql args d. if names column sql then unreadable "no column" else scanned (exists_in args d);
  exec = λ sql args d. if names column sql then (d, some "no column") else run sql args d;
  send = λ batch d. (d, []);
}

lacking-IsWithout : (column : String) → IsWithout column (lacking column)
lacking-IsWithout column = record {
  queries = λ sql args d h. ("no column", rw h refl);
  row_queries = λ sql args d h. ("no column", rw h refl);
  executions = λ sql args d h. ("no column", rw h refl);
}

abbrev scanned_or : Bool → Scanned Bool → Bool
scanned_or b (scanned c) = c
scanned_or b (unreadable message) = b

updated :
    (p q : String) (c : Counts) (d : Table)
    → lookup q (if is_some (lookup p d) then assign p c d else d)
      ≡ (if str_eq p q then (if is_some (lookup q d) then some c else none) else lookup q d)
updated p q c d = elim (Bool-cases (str_eq p q)) [
  | inl own ↦
      let same : lookup p d ≡ lookup q d = ap (λ r. lookup r d) ((eq_iff p q).0 own) in
      ground (arith, same, own, lookup-assign p q c d)
  | inr other ↦ ground (arith, other, lookup-assign p q c d)
]

lacking-IsAggregatedTable : IsAggregatedTable (lacking "policy_id") row_of
unfolding names words exists_sql update_sql insert_sql
lacking-IsAggregatedTable = record {
  exists = λ hub p d b e. ap (scanned_or b) (sym e);
  updates = λ hub p a n d e q. updated p q (a, n) d;
  inserts = λ hub p a n d empty e q. lookup-assign p q (a, n) d;
}

-- The bundle does not have the policy "q", whose row stays.
handle_minimal_compliance_bundle-keeps_obsolete_example :
    lookup "q"
      (handle_minimal_compliance_bundle lists
        (aggregated_client lists (lacking "policy_id"))
        minimal
        (("q", (1, 1)) ∷ [])).0
    ≡ some (1, 1)
unfolding handle_minimal_compliance_bundle update_policies delete_policies get_leaf_hub_name
    get_objects without aggregated_client get_policy_ids_by_leaf_hub read_policy_ids names words
    policy_ids_sql exists_sql update_sql insert_sql delete_sql
    insert_or_update_aggregated_policy_compliance delete_all_compliance_rows lookup assign
handle_minimal_compliance_bundle-keeps_obsolete_example =
    handle_minimal_compliance_bundle-keeps_obsolete lists lists-IsSets (lacking "policy_id")
      (lacking-IsWithout "policy_id") row_of lacking-IsAggregatedTable minimal (("q", (1, 1)) ∷ [])
      refl "q"

handle_minimal_compliance_bundle-refused_example :
    let result =
      handle_minimal_compliance_bundle lists (aggregated_client lists (lacking "id")) minimal [] in
    (result.0 ≡ []) × (is_some result.1 ≡ true)
unfolding get_objects
handle_minimal_compliance_bundle-refused_example =
    handle_minimal_compliance_bundle-refused lists (lacking "id") (lacking-IsWithout "id") minimal
      [] _ _ refl
