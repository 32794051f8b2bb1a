-- ===== src/Transport/SyncService/Receiving.antt =====
-- handleBundles of sync_service.go, running in the bridge.
use mathlib.Core.Path.{subst₂}
use hub_of_hubs_status_trans.Base.{
  ◌≡◌, refl, ap, String, List, [], ◌∷◌, Option, none, some, lookup, if◌then◌else◌, Option-cases,
  inl, inr, arith, ◌>>=◌, sym,
}
use hub_of_hubs_status_trans.Bundle.{Bundle}
use hub_of_hubs_status_trans.Conflator.Unit.{TransportMetadata}
use hub_of_hubs_status_trans.Conflator.Manager.{ConflationManager}
use hub_of_hubs_status_trans.Conflator.Manager
use hub_of_hubs_status_trans.Bridge.{Bridge, Step, Reach, receive, here, next}
use hub_of_hubs_status_trans.Bridge.Invariant.{BridgeInv}
use hub_of_hubs_status_trans.Bridge.Reachable.{no_panic}
use hub_of_hubs_status_trans.Bridge.Safety.{Step-Kept}
use hub_of_hubs_status_trans.Transport.{Config, Registrations}
use hub_of_hubs_status_trans.Transport.SyncService.{
  Client, decoded, malformed, msg_id_of, SyncState, receive_bundle, handle_object, handle_bundles,
  Decoded,
}

abbrev bundle_of : Decoded → Option Bundle
bundle_of (malformed message) = none
bundle_of (decoded b) = some b

abbrev add_brought :
    Option Bundle
    → TransportMetadata
    → List (Bundle × TransportMetadata)
    → List (Bundle × TransportMetadata)
add_brought none object rest = rest
add_brought (some b) object rest = (b, object) ∷ rest

module _ {L Data : Type 0} (client : Client Data) (registrations : Registrations L) where
  -- The bundle that an object brings: its data can be fetched, its message key is registered, the
  -- predicate holds, and the data can be decoded.
  unfoldable pub brought : Config L → TransportMetadata → Option Bundle
  brought config object = do
    buffer ← client.fetch_object_data object
    msg_id ← msg_id_of object.object_id
    r ← lookup msg_id registrations
    if r.predicate config then bundle_of (client.unmarshal buffer r.create_bundle_func) else none

  -- The bundles that the objects bring, each with its object.
  abbrev pub all_brought : List (Config L × TransportMetadata) → List (Bundle × TransportMetadata)
  all_brought [] = []
  all_brought ((config, object) ∷ rest) =
      add_brought (brought config object) object (all_brought rest)

-- Insertions into the conflation manager, one after the other.
unfoldable pub insert_all :
    {H : Type 0}
    → List (Bundle × TransportMetadata)
    → ConflationManager H
    → Option (ConflationManager H)
insert_all [] cm = some cm
insert_all ((b, object) ∷ rest) cm = do cm' ← Manager.insert cm b object; insert_all rest cm'

-- The objects, put one after the other on top of those received so far.
abbrev pub reported :
    List (Bundle × TransportMetadata) → List TransportMetadata → List TransportMetadata
reported [] received = received
reported ((b, object) ∷ rest) received = reported rest (object ∷ received)

-- Each object id has a dot.
abbrev pub AllNamed : {L : Type 0} → List (Config L × TransportMetadata) → Type 0
AllNamed [] = Unit {0}
AllNamed ((config, object) ∷ rest) =
    ((m : String) × (msg_id_of object.object_id ≡ some m)) × AllNamed rest

module _ {H L Data : Type 0} (client : Client Data) (registrations : Registrations L) where
  handle_object-skips :
      (config : Config L) (object : TransportMetadata) (m : String) (s : SyncState H)
      → msg_id_of object.object_id ≡ some m
      → brought client registrations config object ≡ none
      → handle_object client registrations config object s ≡ some s
  unfolding brought handle_object receive_bundle
  handle_object-skips config object m s named none_brought = ground arith

  handle_object-inserts :
      (config : Config L) (object : TransportMetadata) (b : Bundle) (s : SyncState H)
      (cm : ConflationManager H)
      → brought client registrations config object ≡ some b
      → Manager.insert s.manager b object ≡ some cm
      → handle_object client registrations config object s
        ≡ some (record { manager = cm; received = object ∷ s.received })
  unfolding brought handle_object receive_bundle
  handle_object-inserts config object b s cm e inserted = ground arith

-- The loop's outcome for objects that bring these bundles: a state that the bridge reaches, with
-- the bundles inserted in their order and exactly their objects reported as received.
pub record Received {H : Type 0} (bundles : List (Bundle × TransportMetadata)) (s : Bridge H)
    (received : List TransportMetadata) (result : Option (SyncState H)) : Type 0 where
  pub bridge : Bridge H
  pub reached : Reach s bridge
  pub sound : BridgeInv bridge
  pub inserted : insert_all bundles s.manager ≡ some bridge.manager
  pub returns :
      result ≡ some (record { manager = bridge.manager; received = reported bundles received })

module _ {H : Type 0} where
  -- A step first, then the steps of a run.
  pub Reach-first : {s t u : Bridge H} → Step s t → Reach t u → Reach s u
  Reach-first st here = next here st
  Reach-first st (next r last) = next (Reach-first st r) last

module _ {H L Data : Type 0} (client : Client Data) (registrations : Registrations L) where
  -- However many objects with a dot in their ids the sync service receives while the bridge is in a
  -- state that satisfies the invariant, its loop does not panic. It inserts, in their order, the
  -- bundles of those objects that can be fetched, have a registered message key, an enabling
  -- predicate and well-formed data, and reports exactly these objects as received; the bridge
  -- reaches the new state.
  pub handle_bundles-Received :
      (events : List (Config L × TransportMetadata)) (s : Bridge H)
      (received : List TransportMetadata)
      → BridgeInv s
      → AllNamed events
      → Received (all_brought client registrations events) s received (
          handle_bundles client registrations events
            (record { manager = s.manager; received = received }))
  unfolding handle_bundles insert_all
  handle_bundles-Received [] s received v named = record {
    bridge = s;
    reached = here;
    sound = v;
    inserted = refl;
    returns = refl;
  }
  handle_bundles-Received ((config, object) ∷ rest) s received v ((m, named), more) =
      let st : SyncState H = record { manager = s.manager; received = received } in
      let bundles : Option Bundle → List (Bundle × TransportMetadata) =
        λ o. add_brought o object (all_brought client registrations rest) in
      let results : Option (SyncState H) → Option (SyncState H) =
        λ o. o >>= handle_bundles client registrations rest in
      elim (Option-cases (brought client registrations config object)) [
        | inl nothing ↦
            let skipped =
              handle_object-skips client registrations config object m st named nothing in
            subst₂ (λ bs result. Received bs s received result) (sym (ap bundles nothing))
              (sym (ap results skipped)) (handle_bundles-Received rest s received v more)
        | inr (b, brings) ↦
            let (cm, inserted) = (no_panic s v).inserts b object in
            let step = receive b object cm inserted in
            let s1 : Bridge H = record s { manager = cm } in
            let done =
              handle_object-inserts client registrations config object b st cm brings inserted in
            let r = handle_bundles-Received rest s1 (object ∷ received) (Step-Kept step v).0 more in
            subst₂ (λ bs result. Received bs s received result) (sym (ap bundles brings))
              (sym (ap results done))
              (record {
                bridge = r.bridge;
                reached = Reach-first step r.reached;
                sound = r.sound;
                inserted = rw inserted r.inserted;
                returns = r.returns;
              })
      ]
