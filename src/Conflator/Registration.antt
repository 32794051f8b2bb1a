-- ===== src/Conflator/Registration.antt =====
-- pkg/conflator/conflation_registration.go, conflation_priority.go and dependency/dependency.go.
use hub_of_hubs_status_trans.Base.{ℕ, String, Option, none, some}

pub record Dependency : Type 0 where
  pub bundle_type : String

unfoldable pub new_dependency : String → Dependency
new_dependency t = record { bundle_type = t }

abbrev pub managed_clusters_priority : ℕ
managed_clusters_priority = 0

abbrev pub clusters_per_policy_priority : ℕ
clusters_per_policy_priority = 1

abbrev pub compliance_status_priority : ℕ
compliance_status_priority = 2

abbrev pub minimal_compliance_status_priority : ℕ
minimal_compliance_status_priority = 3

-- `H` is the type of handler functions, which the conflator stores and passes on.
pub record ConflationRegistration (H : Type 0) : Type 0 where
  pub priority : ℕ
  pub bundle_type : String
  pub handler_function : H
  pub dependency : Option Dependency

module _ {H : Type 0} where
  unfoldable pub new_conflation_registration : ℕ → String → H → ConflationRegistration H
  new_conflation_registration p t h = record {
    priority = p;
    bundle_type = t;
    handler_function = h;
    dependency = none;
  }

  unfoldable pub with_dependency : ConflationRegistration H → Dependency → ConflationRegistration H
  with_dependency r d = record r { dependency = some d }
