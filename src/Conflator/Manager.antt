-- ===== src/Conflator/Manager.antt =====
-- pkg/conflator/conflation_manager.go. Units are held by leaf hub; the ready queue is shared.
pub mod Routing
use hub_of_hubs_status_trans.Base.{
  String, List, [], ◌∷◌, ◌++◌, Option, none, some, ◌>>=◌, lookup, assign,
}
use hub_of_hubs_status_trans.Bundle.{Bundle, get_leaf_hub_name}
use hub_of_hubs_status_trans.Conflator.Registration.{ConflationRegistration}
use hub_of_hubs_status_trans.Conflator.ReadyQueue.{ConflationReadyQueue}
use hub_of_hubs_status_trans.Conflator.Unit
use hub_of_hubs_status_trans.Conflator.Unit.{ConflationUnit, TransportMetadata, new_conflation_unit}

pub record ConflationManager (H : Type 0) : Type 0 where
  pub conflation_units : List (String × ConflationUnit H)
  pub registrations : List (ConflationRegistration H)
  pub ready_queue : ConflationReadyQueue

module _ {H : Type 0} where
  unfoldable pub new_conflation_manager : ConflationReadyQueue → ConflationManager H
  new_conflation_manager rq = record { conflation_units = []; registrations = []; ready_queue = rq }

  unfoldable pub register : ConflationManager H → ConflationRegistration H → ConflationManager H
  register cm r = record cm { registrations = cm.registrations ++ r ∷ [] }

  -- Finds the unit of a leaf hub, or creates it with the registrations of that moment.
  unfoldable pub get_conflation_unit :
      ConflationManager H → String → Option (ConflationManager H × ConflationUnit H)
  get_conflation_unit cm hub = elim (lookup hub cm.conflation_units) [
    | some cu ↦ some (cm, cu)
    | none ↦ do
      cu ← new_conflation_unit cm.registrations
      some (record cm { conflation_units = assign hub cu cm.conflation_units }, cu)
  ]

  unfoldable pub insert :
      ConflationManager H → Bundle → TransportMetadata → Option (ConflationManager H)
  insert cm b metadata = do
    (found, cu) ← get_conflation_unit cm (get_leaf_hub_name b)
    (cu', rq) ← Unit.insert (get_leaf_hub_name b) b metadata cu found.ready_queue
    some (record found {
      conflation_units = assign (get_leaf_hub_name b) cu' found.conflation_units;
      ready_queue = rq;
    })
