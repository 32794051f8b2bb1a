-- ===== src/Db/Policies.antt =====
-- pkg/db: the interfaces of the policy tables, with NonCompliantClusterSets, and what the calls of a
-- PoliciesBatchBuilder ask of the table.
use hub_of_hubs_status_trans.Base.{
  ℕ, ◌≡◌, refl, String, List, [], ◌∷◌, ◌++◌, Option, none, some, if◌then◌else◌, str_eq,
}
use hub_of_hubs_status_trans.Db.{Fetched}
use hub_of_hubs_status_trans.Db.Sets.{Sets}

abbrev pub compliant : String
compliant = "compliant"

abbrev pub non_compliant : String
non_compliant = "non_compliant"

abbrev pub unknown : String
unknown = "unknown"

-- The calls of a `PoliciesBatchBuilder`, in the order in which they are made.
pub data PoliciesCall : Type 0 where
  insert_row : String → String → String → String → PoliciesCall
  update_policy_compliance : String → String → PoliciesCall
  update_cluster_compliance : String → String → String → PoliciesCall
  delete_policy : String → PoliciesCall
  delete_cluster_status : String → String → PoliciesCall

pub record NonCompliantClusterSets (S : Type 0) : Type 0 where
  pub non_compliant_clusters : S
  pub unknown_clusters : S

module _ {S : Type 0} (sets : Sets S) where
  unfoldable pub new_non_compliant_cluster_sets : NonCompliantClusterSets S
  new_non_compliant_cluster_sets = record {
    non_compliant_clusters = sets.new_set;
    unknown_clusters = sets.new_set;
  }

  unfoldable pub add_non_compliant_cluster :
      String → NonCompliantClusterSets S → NonCompliantClusterSets S
  add_non_compliant_cluster cluster_name s = record s {
    non_compliant_clusters = sets.add cluster_name s.non_compliant_clusters;
  }

  unfoldable pub add_unknown_cluster :
      String → NonCompliantClusterSets S → NonCompliantClusterSets S
  add_unknown_cluster cluster_name s = record s {
    unknown_clusters = sets.add cluster_name s.unknown_clusters;
  }

-- `PoliciesStatusDB` over a database of type `D`; each operation is given the leaf hub's name.
pub record PoliciesStatusDb (D S : Type 0) : Type 0 where
  pub get_compliance_status_by_leaf_hub : String → D → Fetched (List (String × S))
  pub get_non_compliant_clusters_by_leaf_hub :
      String → D → Fetched (List (String × NonCompliantClusterSets S))
  pub send_batch : String → List PoliciesCall → D → D × Option String

-- `AggregatedPoliciesStatusDB`: these change the database at once.
pub record AggregatedPoliciesStatusDb (D S : Type 0) : Type 0 where
  pub get_policy_ids_by_leaf_hub : String → D → Fetched S
  pub insert_or_update_aggregated_policy_compliance :
      String → String → ℕ → ℕ → D → D × Option String
  pub delete_all_compliance_rows : String → String → D → D × Option String

-- The compliance of a leaf hub's clusters, by policy and cluster name.
abbrev pub Rows : Type 0
Rows = String → String → Option String

-- A value for an existing row; a row that is not there stays so.
abbrev pub replaced : String → Option String → Option String
replaced v none = none
replaced v (some w) = some v

-- What a call asks of the table: an update concerns existing rows only.
abbrev pub perform : PoliciesCall → Rows → Rows
perform (insert_row p c message v) t q n =
    if str_eq p q then (if str_eq c n then some v else t q n) else t q n
perform (update_policy_compliance p v) t q n = if str_eq p q then replaced v (t q n) else t q n
perform (update_cluster_compliance p c v) t q n =
    if str_eq p q then (if str_eq c n then replaced v (t q n) else t q n) else t q n
perform (delete_policy p) t q n = if str_eq p q then none else t q n
perform (delete_cluster_status p c) t q n =
    if str_eq p q then (if str_eq c n then none else t q n) else t q n

abbrev pub perform_all : List PoliciesCall → Rows → Rows
perform_all [] t = t
perform_all (call ∷ calls) t = perform_all calls (perform call t)

pub perform_all-append :
    (xs ys : List PoliciesCall) (t : Rows)
    → perform_all (xs ++ ys) t ≡ perform_all ys (perform_all xs t)
perform_all-append [] ys t = refl
perform_all-append (x ∷ xs) ys t = perform_all-append xs ys (perform x t)
