-- ===== src/Bundle.antt =====
-- pkg/bundle and pkg/helpers: the four bundle types and the interface that they share.
use hub_of_hubs_status_trans.Base.{
  ℕ, ◌≡◌, refl, String, List, [], map, Option, none, some, split_dots, last_piece,
}

-- clusterv1.ManagedCluster: the two metadata fields that are read, and the rest of the document.
pub record ManagedCluster : Type 0 where
  pub name : String
  pub resource_version : String
  pub document : String

-- The entries of the policy bundles, with the fields that are read.
pub record ClustersPerPolicy : Type 0 where
  pub policy_id : String
  pub clusters : List String

pub record PolicyComplianceStatus : Type 0 where
  pub policy_id : String
  pub non_compliant_clusters : List String
  pub unknown_compliance_clusters : List String

pub record MinimalPolicyComplianceStatus : Type 0 where
  pub policy_id : String
  pub applied_clusters : ℕ
  pub non_compliant_clusters : ℕ

-- What `GetObjects` returns as `[]interface{}`: a value with its dynamic type.
pub data Object : Type 0 where
  managed_cluster : ManagedCluster → Object
  clusters_per_policy : ClustersPerPolicy → Object
  policy_compliance_status : PolicyComplianceStatus → Object
  minimal_policy_compliance_status : MinimalPolicyComplianceStatus → Object

pub record ManagedClustersStatusBundle : Type 0 where
  pub objects : List ManagedCluster
  pub leaf_hub_name : String
  pub generation : ℕ

pub record ClustersPerPolicyBundle : Type 0 where
  pub objects : List ClustersPerPolicy
  pub leaf_hub_name : String
  pub generation : ℕ

pub record ComplianceStatusBundle : Type 0 where
  pub objects : List PolicyComplianceStatus
  pub leaf_hub_name : String
  pub base_bundle_generation : ℕ
  pub generation : ℕ

pub record MinimalComplianceStatusBundle : Type 0 where
  pub objects : List MinimalPolicyComplianceStatus
  pub leaf_hub_name : String
  pub generation : ℕ

-- A value of the interface `Bundle`, with its dynamic type.
pub data Bundle : Type 0 where
  managed_clusters : ManagedClustersStatusBundle → Bundle
  clusters_per_policy_list : ClustersPerPolicyBundle → Bundle
  compliance_status : ComplianceStatusBundle → Bundle
  minimal_compliance_status : MinimalComplianceStatusBundle → Bundle

unfoldable pub new_managed_clusters_status_bundle : Bundle
new_managed_clusters_status_bundle =
    managed_clusters (record { objects = []; leaf_hub_name = ""; generation = 0 })

unfoldable pub new_clusters_per_policy_bundle : Bundle
new_clusters_per_policy_bundle =
    clusters_per_policy_list (record { objects = []; leaf_hub_name = ""; generation = 0 })

unfoldable pub new_compliance_status_bundle : Bundle
new_compliance_status_bundle =
    compliance_status
      (record { objects = []; leaf_hub_name = ""; base_bundle_generation = 0; generation = 0 })

unfoldable pub new_minimal_compliance_status_bundle : Bundle
new_minimal_compliance_status_bundle =
    minimal_compliance_status (record { objects = []; leaf_hub_name = ""; generation = 0 })

unfoldable pub get_leaf_hub_name : Bundle → String
get_leaf_hub_name (managed_clusters b) = b.leaf_hub_name
get_leaf_hub_name (clusters_per_policy_list b) = b.leaf_hub_name
get_leaf_hub_name (compliance_status b) = b.leaf_hub_name
get_leaf_hub_name (minimal_compliance_status b) = b.leaf_hub_name

unfoldable pub get_objects : Bundle → List Object
get_objects (managed_clusters b) = map managed_cluster b.objects
get_objects (clusters_per_policy_list b) = map clusters_per_policy b.objects
get_objects (compliance_status b) = map policy_compliance_status b.objects
get_objects (minimal_compliance_status b) = map minimal_policy_compliance_status b.objects

unfoldable pub get_generation : Bundle → ℕ
get_generation (managed_clusters b) = b.generation
get_generation (clusters_per_policy_list b) = b.generation
get_generation (compliance_status b) = b.generation
get_generation (minimal_compliance_status b) = b.generation

-- The type assertion to `DependantBundle` and its method: `none` where the assertion fails.
unfoldable pub get_dependency_generation : Bundle → Option ℕ
get_dependency_generation (compliance_status b) = some b.base_bundle_generation
get_dependency_generation (managed_clusters b) = none
get_dependency_generation (clusters_per_policy_list b) = none
get_dependency_generation (minimal_compliance_status b) = none

-- What `fmt.Sprintf("%T", bundle)` prints.
type_string : Bundle → String
type_string (managed_clusters b) = "*bundle.ManagedClustersStatusBundle"
type_string (clusters_per_policy_list b) = "*bundle.ClustersPerPolicyBundle"
type_string (compliance_status b) = "*bundle.ComplianceStatusBundle"
type_string (minimal_compliance_status b) = "*bundle.MinimalComplianceStatusBundle"

unfoldable pub get_bundle_type : Bundle → String
unfolding type_string
get_bundle_type b = let (w, ws) = split_dots (type_string b) in last_piece w ws

get_bundle_type_managed_clusters :
    (b : ManagedClustersStatusBundle)
    → get_bundle_type (managed_clusters b) ≡ "ManagedClustersStatusBundle"
unfolding get_bundle_type split_dots
get_bundle_type_managed_clusters b = refl
