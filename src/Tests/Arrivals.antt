-- ===== src/Tests/Arrivals.antt =====
-- The sync service on concrete objects.
use mathlib.Core.List.{Memᴰ}
use hub_of_hubs_status_trans.Base.{
  ◌≡◌, refl, ◌↔◌, ◌==◌, ==_iff, ℕ, String, true, List, [], ◌∷◌, none, some, lookup, str_eq,
  if◌then◌else◌, split_dots, assign,
}
use hub_of_hubs_status_trans.Bundle.{
  get_bundle_type, managed_clusters, new_managed_clusters_status_bundle,
  new_clusters_per_policy_bundle, new_compliance_status_bundle,
}
use hub_of_hubs_status_trans.Conflator.Registration.{ConflationRegistration}
use hub_of_hubs_status_trans.Conflator.Unit.{TransportMetadata}
use hub_of_hubs_status_trans.Conflator.Manager.{new_conflation_manager}
use hub_of_hubs_status_trans.DbSyncer.Registration.{setup, setup-IsProper}
use hub_of_hubs_status_trans.Bridge.Reachable.{initial, initial-Inv}
use hub_of_hubs_status_trans.Transport.{
  MsgKeys, Levels, Config, BundleRegistration, Registrations, setup_transport, register,
  register_create_managed_clusters, register_create_policies, full_status_predicate,
  minimal_status_predicate,
}
use hub_of_hubs_status_trans.Transport.Registered.{
  setup_transport-handled, setup_transport-exclusive, handlers, IsLevels,
}
use hub_of_hubs_status_trans.Transport.SyncService.{Client, decoded, msg_id_of, handle_bundles}
use hub_of_hubs_status_trans.Transport.SyncService.ObjectId.{msg_id_of-append}
use hub_of_hubs_status_trans.Transport.SyncService.Env.{
  pos, Environment, EnvVars, number, value, uint16, read_env_vars, read_env_vars-value, IsRead,
}
use hub_of_hubs_status_trans.Transport.SyncService.Receiving.{
  handle_bundles-Received, Received, all_brought, brought,
}

abbrev pub keys : MsgKeys
keys = record {
  managed_clusters_msg_key = "ManagedClusters";
  clusters_per_policy_msg_key = "ClustersPerPolicy";
  policy_compliance_msg_key = "PolicyCompliance";
  minimal_policy_compliance_msg_key = "MinimalPolicyCompliance";
}

abbrev pub levels : Levels ℕ
levels = record { full = 0; minimal = 1; same_level = ◌==◌ }

pub levels-IsLevels : IsLevels levels
levels-IsLevels = record { same_iff = ==_iff; different = refl }

abbrev pub full_config : Config ℕ
full_config = record { aggregation_level = 0 }

msg_id_of-append_example : msg_id_of "hub1.ManagedClusters" ≡ some "ManagedClusters"
unfolding split_dots
msg_id_of-append_example = msg_id_of-append "hub1" "ManagedClusters"

-- A leaf hub whose name has a dot.
dotted_hub : msg_id_of "hub1.example.ManagedClusters" ≡ some "example"
unfolding split_dots
dotted_hub = msg_id_of-append "hub1.example" "ManagedClusters"

-- An object id without a dot.
undotted_id : msg_id_of "hub1" ≡ none
unfolding msg_id_of split_dots
undotted_id = refl

setup_transport-handled_example :
    (c : ConflationRegistration ℕ) × Memᴰ c (handlers keys levels 0 1 2 3).registrations
    × (c.bundle_type ≡ get_bundle_type new_managed_clusters_status_bundle)
unfolding setup_transport register_create_managed_clusters register_create_policies register lookup
    assign
setup_transport-handled_example =
    setup_transport-handled keys levels 0 1 2 3 "ManagedClusters"
      (record {
        msg_id = "ManagedClusters";
        create_bundle_func = new_managed_clusters_status_bundle;
        predicate = λ config. true;
      })
      refl

clusters_per_policy_registration : BundleRegistration ℕ
clusters_per_policy_registration = record {
  msg_id = "ClustersPerPolicy";
  create_bundle_func = new_clusters_per_policy_bundle;
  predicate = full_status_predicate levels;
}

compliance_registration : BundleRegistration ℕ
compliance_registration = record {
  msg_id = "PolicyCompliance";
  create_bundle_func = new_compliance_status_bundle;
  predicate = full_status_predicate levels;
}

setup_transport-exclusive_example : true ≡ true
unfolding setup_transport register_create_managed_clusters register_create_policies register lookup
    assign full_status_predicate new_clusters_per_policy_bundle new_compliance_status_bundle
    clusters_per_policy_registration compliance_registration
setup_transport-exclusive_example =
    setup_transport-exclusive levels levels-IsLevels keys full_config "ClustersPerPolicy"
      "PolicyCompliance" clusters_per_policy_registration compliance_registration true true refl
      refl refl refl refl refl

-- An environment with a port that does not fit 16 bits.
abbrev pub environment : Environment
environment = record {
  lookup_env = λ name. some (if str_eq name "SYNC_SERVICE_PORT" then "70000" else "5");
  atoi = λ v. number (pos (if str_eq v "70000" then 70000 else 5));
}

abbrev pub env_vars : EnvVars
env_vars = record { protocol = "5"; host = "5"; port = 4464; polling_interval = pos 5 }

read_env_vars-value_example :
    (read_env_vars environment ≡ value env_vars) ↔ IsRead environment env_vars
read_env_vars-value_example = read_env_vars-value environment env_vars

-- The port 70000 is read as 4464.
port_cut : read_env_vars environment ≡ value env_vars
unfolding read_env_vars uint16
port_cut = refl

-- The data of an object are the generation of its bundle.
abbrev client : Client ℕ
client = record {
  fetch_object_data = λ object. if str_eq object.object_id "hub2.lost" then none else some 7;
  unmarshal = λ buffer b.
      decoded
        (managed_clusters (record { objects = []; leaf_hub_name = "hub1"; generation = buffer }));
}

abbrev object : String → TransportMetadata
object id = record { object_id = id }

abbrev events : List (Config ℕ × TransportMetadata)
events =
    (full_config, object "hub1.ManagedClusters")
    ∷ (full_config, object "hub2.lost")
    ∷ (full_config, object "hub1.MinimalPolicyCompliance")
    ∷ (full_config, object "hub1.unknown")
    ∷ []

abbrev four : List (ConflationRegistration ℕ)
four = (setup 0 1 2 3 (new_conflation_manager [])).registrations

abbrev transport : Registrations ℕ
transport = setup_transport keys levels []

handle_bundles-Received_example :
    Received (all_brought client transport events) (initial four 1) [] (
      handle_bundles client transport events
        (record { manager = (initial four 1).manager; received = [] }))
unfolding msg_id_of split_dots
handle_bundles-Received_example =
    handle_bundles-Received client transport events (initial four 1) []
      (initial-Inv four 1 (setup-IsProper 0 1 2 3))
      (
        ("ManagedClusters", refl),
        (("lost", refl), (("MinimalPolicyCompliance", refl), (("unknown", refl), tt))),
      )

-- Only the first of these objects brings a bundle.
brought_by_events :
    all_brought client transport events
    ≡ (
      managed_clusters (record { objects = []; leaf_hub_name = "hub1"; generation = 7 }),
      object "hub1.ManagedClusters",
    )
      ∷ []
unfolding brought msg_id_of split_dots setup_transport register_create_managed_clusters
    register_create_policies register lookup assign full_status_predicate minimal_status_predicate
brought_by_events = refl
