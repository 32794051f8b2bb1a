-- ===== src/Transport/SyncService.antt =====
-- pkg/transport/sync-service/sync_service.go. The client of the edge sync service, the JSON decoder
-- and the process environment are arguments. Log lines are left out.
pub mod Env
pub mod ObjectId
pub mod Receiving
use hub_of_hubs_status_trans.Base.{
  String, Bool, true, false, List, [], ◌∷◌, ◌++◌, Option, none, some, ◌>>=◌, lookup, split_dots,
  if◌then◌else◌,
}
use hub_of_hubs_status_trans.Bundle.{Bundle}
use hub_of_hubs_status_trans.Conflator.Unit.{TransportMetadata}
use hub_of_hubs_status_trans.Conflator.Manager.{ConflationManager}
use hub_of_hubs_status_trans.Conflator.Manager
use hub_of_hubs_status_trans.Transport.{Config, BundleRegistration, Registrations}

-- What `json.Unmarshal` makes of a bundle.
pub data Decoded : Type 0 where
  decoded : Bundle → Decoded
  malformed : String → Decoded

-- `fetch_object_data` gives the data of an object, or nothing when it reports a failure;
-- `unmarshal` reads data into a new bundle.
pub record Client (Data : Type 0) : Type 0 where
  pub fetch_object_data : TransportMetadata → Option Data
  pub unmarshal : Data → Bundle → Decoded

-- `strings.Split(objectID, ".")[1]`; `none` is the panic of an index out of range.
unfoldable pub msg_id_of : String → Option String
msg_id_of object_id = let (w, ws) = split_dots object_id in elim ws [ [] ↦ none | v ∷ vs ↦ some v ]

-- The conflation manager, and the objects reported as received, the last one first.
pub record SyncState (H : Type 0) : Type 0 where
  pub manager : ConflationManager H
  pub received : List TransportMetadata

module _ {H L Data : Type 0} (client : Client Data) (registrations : Registrations L) where
  -- From `CreateBundleFunc` on. An error of `MarkObjectReceived` is only logged.
  unfoldable pub receive_bundle :
      BundleRegistration L → Data → TransportMetadata → SyncState H → Option (SyncState H)
  receive_bundle r buffer object s = elim (client.unmarshal buffer r.create_bundle_func) [
    | malformed message ↦ some s
    | decoded b ↦ do
      cm ← Manager.insert s.manager b object
      some (record { manager = cm; received = object ∷ s.received })
  ]

  -- One round of `handleBundles`, for an object from the channel, in the configuration of that
  -- moment. `none` is a panic.
  unfoldable pub handle_object : Config L → TransportMetadata → SyncState H → Option (SyncState H)
  handle_object config object s = elim (client.fetch_object_data object) [
    | none ↦ some s
    | some buffer ↦ do
      msg_id ← msg_id_of object.object_id
      elim (lookup msg_id registrations) [
        | none ↦ some s
        | some r ↦ if r.predicate config then receive_bundle r buffer object s else some s
      ]
  ]

  -- The loop, up to a stop after these objects.
  unfoldable pub handle_bundles :
      List (Config L × TransportMetadata) → SyncState H → Option (SyncState H)
  handle_bundles [] s = some s
  handle_bundles ((config, object) ∷ rest) s = do
    s' ← handle_object config object s
    handle_bundles rest s'
