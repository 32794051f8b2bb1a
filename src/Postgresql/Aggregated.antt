-- ===== src/Postgresql/Aggregated.antt =====
-- The PostgreSQL client as the database of handleMinimalComplianceBundle, and the column that two of
-- its statements name.
use hub_of_hubs_status_trans.Base.{
  ℕ, ◌≡◌, refl, ap, sym, ◌∙◌, String, Bool, true, false, List, [], ◌∷◌, Option, none, some,
  if◌then◌else◌, str_eq, arith, is_some, elem, inl, inr, ◌⊎◌, Bool-cases, eq_iff,
}
use hub_of_hubs_status_trans.Bundle.{
  Bundle, Object, MinimalPolicyComplianceStatus, minimal_policy_compliance_status, get_objects,
  get_leaf_hub_name,
}
use hub_of_hubs_status_trans.Db.{Fetched, rows, failed}
use hub_of_hubs_status_trans.Db.Sets.{Sets, IsSets}
use hub_of_hubs_status_trans.Db.Policies.{AggregatedPoliciesStatusDb}
use hub_of_hubs_status_trans.DbSyncer.MinimalCompliance.{
  delete_policies, update_policies, handle_minimal_compliance_bundle,
}
use hub_of_hubs_status_trans.DbSyncer.MinimalCompliance.Mirror.{
  Upserts, Counts, last_entry, over, Fetched-cases, update_policies-rows,
  handle_minimal_compliance_bundle-goes_on,
}
use hub_of_hubs_status_trans.Postgresql.{
  Driver, text, number, read_policy_ids, Scanned, scanned, unreadable, get_policy_ids_by_leaf_hub,
  insert_or_update_aggregated_policy_compliance, delete_all_compliance_rows,
}
use hub_of_hubs_status_trans.Postgresql.Sql.{exists_sql, update_sql, insert_sql, policy_ids_sql}
use hub_of_hubs_status_trans.Postgresql.Columns.{IsWithout, names, words}

abbrev pub status_schema : String
status_schema = "status"

abbrev pub minimal_compliance_table : String
minimal_compliance_table = "aggregated_compliance"

-- The client with the schema and the table that the handler gives it.
unfoldable pub aggregated_client :
    {D S A : Type 0} → Sets S → Driver D A → AggregatedPoliciesStatusDb D S
aggregated_client sets driver = record {
  get_policy_ids_by_leaf_hub =
      get_policy_ids_by_leaf_hub sets driver status_schema minimal_compliance_table;
  insert_or_update_aggregated_policy_compliance =
      insert_or_update_aggregated_policy_compliance driver status_schema minimal_compliance_table;
  delete_all_compliance_rows =
      delete_all_compliance_rows driver status_schema minimal_compliance_table;
}

-- What the statements that name the column `id` are documented to do in a database whose aggregated
-- table is `row`, by leaf hub and policy: an update concerns an existing row only, an insert adds a row.
pub record IsAggregatedTable {D A : Type 0} (driver : Driver D A)
    (row : D → String → String → Option Counts) : Type 0 where
  pub exists :
      (hub p : String) (d : D) (b : Bool)
      → driver.query_row
          (exists_sql status_schema minimal_compliance_table)
          (text hub ∷ text p ∷ [])
          d
        ≡ scanned b
      → b ≡ is_some (row d hub p)
  pub updates :
      (hub p : String) (a n : ℕ) (d : D)
      → let run =
          driver.exec
            (update_sql status_schema minimal_compliance_table)
            (number a ∷ number n ∷ text hub ∷ text p ∷ [])
            d in
        run.1 ≡ none
        → (q : String)
        → row run.0 hub q ≡ (
            if str_eq p q
            then (if is_some (row d hub q) then some (a, n) else none)
            else row d hub q)
  pub inserts :
      (hub p : String) (a n : ℕ) (d : D)
      → let run =
          driver.exec
            (insert_sql status_schema minimal_compliance_table)
            (text p ∷ text hub ∷ number a ∷ number n ∷ [])
            d in
        row d hub p ≡ none
        → run.1 ≡ none
        → (q : String) → row run.0 hub q ≡ (if str_eq p q then some (a, n) else row d hub q)

Scanned-cases {ℓ} :
    {A : Type ℓ} (s : Scanned A)
    → ((message : String) × (s ≡ unreadable message)) ⊎ ((a : A) × (s ≡ scanned a))
Scanned-cases (unreadable message) = inl (message, refl)
Scanned-cases (scanned a) = inr (a, refl)

own_row :
    (old : String → Option Counts) (p q : String)
    → is_some (old p) ≡ (if str_eq p q then is_some (old q) else is_some (old p))
own_row old p q = elim (Bool-cases (str_eq p q)) [
  | inl own ↦ rw own (ap (λ r. is_some (old r)) ((eq_iff p q).0 own))
  | inr other ↦ rw other refl
]

module _ {D A : Type 0} (driver : Driver D A) (row : D → String → String → Option Counts)
    (promise : IsAggregatedTable driver row) where
  inserted_or_updated :
      (hub p : String) (a n : ℕ) (d : D)
      → let run =
          insert_or_update_aggregated_policy_compliance driver status_schema
            minimal_compliance_table hub p a n d in
        run.1 ≡ none
        → (q : String) → row run.0 hub q ≡ (if str_eq p q then some (a, n) else row d hub q)
  unfolding insert_or_update_aggregated_policy_compliance
  inserted_or_updated hub p a n d e q =
      let old = row d hub in
      let existed =
        driver.query_row (exists_sql status_schema minimal_compliance_table)
          (text hub ∷ text p ∷ []) d in
      let up =
        driver.exec (update_sql status_schema minimal_compliance_table)
          (number a ∷ number n ∷ text hub ∷ text p ∷ []) d in
      let new =
        driver.exec (insert_sql status_schema minimal_compliance_table)
          (text p ∷ text hub ∷ number a ∷ number n ∷ []) d in
      let run =
        insert_or_update_aggregated_policy_compliance driver status_schema minimal_compliance_table
          hub p a n d in
      elim (Scanned-cases existed) [
        | inl (message, unread) ↦ absurd (ground arith)
        | inr (b, read) ↦
            let there = promise.exists hub p d b read in
            let at_q : is_some (old p) ≡ (if str_eq p q then is_some (old q) else is_some (old p)) =
              own_row old p q in
            elim (Bool-cases b) [
              | inl present ↦
                  let done : up.1 ≡ none = ground arith in
                  let left : run.0 ≡ up.0 = ground arith in
                  ap (λ x. row x hub q) left
                  ∙ promise.updates hub p a n d done q
                  ∙ ground (arith, there, present, at_q)
              | inr absent ↦
                  let done : new.1 ≡ none = ground arith in
                  let left : run.0 ≡ new.0 = ground arith in
                  let empty : old p ≡ none = ground (arith, there, absent) in
                  ap (λ x. row x hub q) left ∙ promise.inserts hub p a n d empty done q
            ]
      ]

-- No text is an element: the list is empty.
nothing_listed : (xs : List String) → ((q : String) → elem q xs ≡ false) → xs ≡ []
nothing_listed [] h = refl
nothing_listed (x ∷ xs) h =
    let here : elem x (x ∷ xs) ≡ true = ground (arith, eq_iff x x) in absurd (cc (here, h x))

rows_or : {A : Type 0} → A → Fetched A → A
rows_or a (rows b) = b
rows_or a (failed message) = a

module _ {D S A : Type 0} (sets : Sets S) (laws : IsSets sets) (driver : Driver D A)
    (without : IsWithout "policy_id" driver) where
  -- The error of the query is dropped, and no id is fetched.
  no_ids :
      (hub : String) (d : D)
      → get_policy_ids_by_leaf_hub sets driver status_schema minimal_compliance_table hub d
        ≡ rows sets.new_set
  unfolding get_policy_ids_by_leaf_hub read_policy_ids policy_ids_sql names words
  no_ids hub d =
      let (m, e) =
        without.queries (policy_ids_sql status_schema minimal_compliance_table) (text hub ∷ []) d
          refl in
      rw e refl

  module _ (row : D → String → String → Option Counts)
      (promise : IsAggregatedTable driver row) where
    fetched :
        (hub : String) (d : D)
        → (aggregated_client sets driver).get_policy_ids_by_leaf_hub hub d ≡ rows sets.new_set
    unfolding aggregated_client
    fetched = no_ids

    upserts : Upserts (aggregated_client sets driver) row
    unfolding aggregated_client
    upserts = inserted_or_updated driver row promise

    -- Where no table has the column `policy_id`, which the query for the ids and the deletion name,
    -- and the statements that name `id` do what they are documented to do, a call of
    -- `handleMinimalComplianceBundle` over the PostgreSQL client that returns no error gives each
    -- policy of the bundle the counts of its last entry, but keeps the row of every other policy.
    pub handle_minimal_compliance_bundle-keeps_obsolete :
        (bundle : Bundle) (d : D)
        → let result =
            handle_minimal_compliance_bundle sets (aggregated_client sets driver) bundle d in
          result.1 ≡ none
          → (p : String)
          → row result.0 (get_leaf_hub_name bundle) p
            ≡ over (last_entry p (get_objects bundle)) (row d (get_leaf_hub_name bundle) p)
    unfolding rows_or delete_policies update_policies
    handle_minimal_compliance_bundle-keeps_obsolete bundle d succeeds p =
        let client = aggregated_client sets driver in
        let hub = get_leaf_hub_name bundle in
        let (ids, e, fine, same) =
          handle_minimal_compliance_bundle-goes_on sets client bundle d succeeds in
        let none_known : ids ≡ sets.new_set = ap (rows_or ids) (sym e ∙ fetched hub d) in
        let (d', (error, left)) = update_policies sets client hub (get_objects bundle) ids d in
        let changed =
          update_policies-rows sets laws client row upserts hub (get_objects bundle) ids d fine in
        let nothing : sets.elements left ≡ [] = nothing_listed (sets.elements left) (λ q. ground (
          arith,
          (changed q).1,
          laws.elem-elements q left,
          laws.contains-new_set q,
          ap (sets.contains q) none_known,
        )) in
        ap (λ x. row x.0 hub p) (same ∙ ap (λ ps. delete_policies sets client hub ps d') nothing)
        ∙ (changed p).0

module _ {D S A : Type 0} (sets : Sets S) (driver : Driver D A)
    (without : IsWithout "id" driver) where
  never_stored :
      (hub p : String) (a n : ℕ) (d : D)
      → let run =
          (aggregated_client sets driver).insert_or_update_aggregated_policy_compliance hub p a n
            d in
        (run.0 ≡ d) × (is_some run.1 ≡ true)
  unfolding aggregated_client insert_or_update_aggregated_policy_compliance exists_sql names words
  never_stored hub p a n d =
      let (m, e) =
        without.row_queries (exists_sql status_schema minimal_compliance_table)
          (text hub ∷ text p ∷ []) d refl in
      ground (arith, e)

  -- Where no table has the column `id`, a call of `handleMinimalComplianceBundle` over the PostgreSQL
  -- client with a bundle that starts with a policy returns an error, and leaves the database as it
  -- was.
  pub handle_minimal_compliance_bundle-refused :
      (bundle : Bundle) (d : D) (entry : MinimalPolicyComplianceStatus) (objects : List Object)
      → get_objects bundle ≡ minimal_policy_compliance_status entry ∷ objects
      → let result =
          handle_minimal_compliance_bundle sets (aggregated_client sets driver) bundle d in
        (result.0 ≡ d) × (is_some result.1 ≡ true)
  unfolding handle_minimal_compliance_bundle update_policies
  handle_minimal_compliance_bundle-refused bundle d entry objects starts =
      let client = aggregated_client sets driver in
      let hub = get_leaf_hub_name bundle in
      let (kept, fails) =
        never_stored hub entry.policy_id entry.applied_clusters entry.non_compliant_clusters d in
      elim (Fetched-cases (client.get_policy_ids_by_leaf_hub hub d)) [
        | inl (message, f) ↦ ground (arith, f)
        | inr (ids, f) ↦ ground (arith, f, starts, kept, fails)
      ]
