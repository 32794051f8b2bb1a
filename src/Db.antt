-- ===== src/Db.antt =====
-- pkg/db: the interfaces that the database syncers use. The database itself is a parameter.
pub mod Sets
pub mod Policies
pub mod Touched
use hub_of_hubs_status_trans.Base.{
  ℕ, ◌≡◌, Bool, String, List, [], ◌∷◌, Option, none, some, if◌then◌else◌, str_eq,
}
use hub_of_hubs_status_trans.Bundle.{ManagedCluster}

abbrev pub error_none : String
error_none = "none"

-- The calls of a `ManagedClustersBatchBuilder`, in the order in which they are made.
pub data ManagedClustersCall : Type 0 where
  insert : ManagedCluster → String → ManagedClustersCall
  update : String → ManagedCluster → ManagedClustersCall
  delete : String → ManagedClustersCall

-- A result of a query: rows, or an error.
pub data Fetched {ℓ} (A : Type ℓ) : Type ℓ where
  rows : A → Fetched A
  failed : String → Fetched A

-- `ManagedClustersStatusDB` over a database of type `D`. `send_batch` is given the calls made to a
-- builder of that leaf hub; its second result is the error, if any.
pub record ManagedClustersStatusDb (D : Type 0) : Type 0 where
  pub get_managed_clusters_by_leaf_hub : String → D → Fetched (List (String × String))
  pub send_batch : String → List ManagedClustersCall → D → D × Option String

-- The managed clusters of one leaf hub, by name.
abbrev pub Clusters : Type 0
Clusters = String → Option ManagedCluster

-- What the calls of a builder ask of the table: an inserted row is there, an update replaces the
-- payload of a row that exists, a deleted row is gone.
abbrev pub perform : ManagedClustersCall → Clusters → Clusters
perform (insert c message) t n = if str_eq c.name n then some c else t n
perform (update name c) t n =
    if str_eq name n then (elim (t n) [ none ↦ none | some old ↦ some c ]) else t n
perform (delete name) t n = if str_eq name n then none else t n

abbrev pub perform_all : List ManagedClustersCall → Clusters → Clusters
perform_all [] t = t
perform_all (call ∷ calls) t = perform_all calls (perform call t)
