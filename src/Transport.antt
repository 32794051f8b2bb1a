-- ===== src/Transport.antt =====
-- pkg/transport: the bundle registrations of the syncers, RegisterCreateBundleFunctions of
-- clusters_transport_to_db_syncer.go and of policies_transport_to_db_syncer.go, and the
-- configuration that their predicates read. Message keys and aggregation levels come from the
-- package hub-of-hubs-data-types, which is not part of the repository: they are arguments.
pub mod SyncService
pub mod Registered
use hub_of_hubs_status_trans.Base.{◌≡◌, Bool, true, false, String, List, ◌↔◌, assign}
use hub_of_hubs_status_trans.Bundle.{
  Bundle, new_managed_clusters_status_bundle, new_clusters_per_policy_bundle,
  new_compliance_status_bundle, new_minimal_compliance_status_bundle,
}

-- The message keys of hub-of-hubs-data-types.
pub record MsgKeys : Type 0 where
  pub managed_clusters_msg_key : String
  pub clusters_per_policy_msg_key : String
  pub policy_compliance_msg_key : String
  pub minimal_policy_compliance_msg_key : String

-- The aggregation levels of `configv1`, with their comparison.
pub record Levels (L : Type 0) : Type 0 where
  pub full : L
  pub minimal : L
  pub same_level : L → L → Bool

-- `configv1.Config`, as far as it is read. The syncer and the config controller share one.
pub record Config (L : Type 0) : Type 0 where
  pub aggregation_level : L

-- A predicate is a closure over the shared configuration: it reads the value of that moment.
-- `create_bundle_func` is the bundle that the function creates.
pub record BundleRegistration (L : Type 0) : Type 0 where
  pub msg_id : String
  pub create_bundle_func : Bundle
  pub predicate : Config L → Bool

-- `msgIDToRegistrationMap`.
abbrev pub Registrations : Type 0 → Type 0
Registrations L = List (String × BundleRegistration L)

module _ {L : Type 0} where
  unfoldable pub register : Registrations L → BundleRegistration L → Registrations L
  register registrations r = assign r.msg_id r registrations

  unfoldable pub register_create_managed_clusters : MsgKeys → Registrations L → Registrations L
  register_create_managed_clusters keys registrations = register registrations (record {
    msg_id = keys.managed_clusters_msg_key;
    create_bundle_func = new_managed_clusters_status_bundle;
    predicate = λ config. true;
  })

  unfoldable pub full_status_predicate : Levels L → Config L → Bool
  full_status_predicate levels config = levels.same_level config.aggregation_level levels.full

  unfoldable pub minimal_status_predicate : Levels L → Config L → Bool
  minimal_status_predicate levels config = levels.same_level config.aggregation_level levels.minimal

  unfoldable pub register_create_policies : MsgKeys → Levels L → Registrations L → Registrations L
  register_create_policies keys levels registrations =
      let r1 = register registrations (record {
        msg_id = keys.clusters_per_policy_msg_key;
        create_bundle_func = new_clusters_per_policy_bundle;
        predicate = full_status_predicate levels;
      }) in
      let r2 = register r1 (record {
        msg_id = keys.policy_compliance_msg_key;
        create_bundle_func = new_compliance_status_bundle;
        predicate = full_status_predicate levels;
      }) in
      register r2 (record {
        msg_id = keys.minimal_policy_compliance_msg_key;
        create_bundle_func = new_minimal_compliance_status_bundle;
        predicate = minimal_status_predicate levels;
      })

  -- The loop of `Setup` over the syncers, as far as the transport goes.
  unfoldable pub setup_transport : MsgKeys → Levels L → Registrations L → Registrations L
  setup_transport keys levels registrations =
      register_create_policies keys levels (register_create_managed_clusters keys registrations)
