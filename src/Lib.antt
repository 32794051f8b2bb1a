-- ===== src/Lib.antt =====
-- A model of the hub-of-hubs status transport bridge, and theorems about it.
--
-- The bridge receives status bundles from leaf hubs and writes them to a database. A transport
-- gives each bundle to the conflation manager, which keeps one conflation unit for each leaf hub. A
-- unit holds the newest bundle of each type, in priority order, and enters the ready queue when one
-- of its bundles can be processed. The dispatcher takes a unit from that queue, acquires a database
-- worker, and gives it the unit's next bundle. The worker runs the bundle's handler, which a
-- database syncer has registered, and reports the result to the unit.
--
-- Files and code:
--   Base             shared names, lists indexed by native numbers, association lists for Go's maps
--   Bundle           pkg/bundle and pkg/helpers: the four bundle types behind the interface Bundle
--   Conflator        pkg/conflator: Registration (conflation_registration.go, conflation_priority.go,
--                    dependency), ReadyQueue (ready_queue.go), Unit (conflation_unit.go,
--                    conflation_element.go, bundle_metadata.go), Manager (conflation_manager.go)
--   WorkerPool       pkg/db/worker-pool
--   Bridge           pkg/controller/dispatcher/dispatcher.go, run together with the transport and
--                    the workers as a step relation
--   Db               pkg/db: the interfaces of the database; Sets is an interface for the imported
--                    package golang-set
--   DbSyncer         pkg/dbsyncer: Registration (RegisterBundleHandlerFunctions, as Setup of
--                    pkg/controller/controllers.go calls it), ManagedClusters
--                    (clusters_transport_to_db_syncer.go), Policies and MinimalCompliance
--                    (policies_transport_to_db_syncer.go); Handled has the handlers over a database
--                    that keeps the promises of pkg/db/db.go
--   Batch            pkg/db/postgresql/batch/base_batch_builder.go; ManagedClusters and Policies model
--                    managed_clusters_batch_builder.go and policies_batch_builder.go
--   Postgresql       pkg/db/postgresql/postgresql.go, with the texts of its statements in Sql;
--                    Aggregated puts it behind handleMinimalComplianceBundle, over a table that
--                    lacks a column, and Refused behind handleManagedClustersBundle
--   Transport        pkg/transport, and RegisterCreateBundleFunctions of pkg/dbsyncer; SyncService
--                    models sync-service/sync_service.go
--   Startup          cmd/manager/main.go, Setup of pkg/controller/controllers.go, Reconcile of
--                    pkg/controller/config/config_controller.go
--   Tests            runs on concrete inputs, and the theorems at such inputs
--
-- Functions keep the names of the code, in snake case. A function that may panic returns an Option,
-- with none for the panic. A unit's metadata objects are shared by pointer between the unit and the
-- worker that has its job, so they live in a heap, a list, and a pointer is a place in it. Handlers
-- of conflation registrations are values of any type. Generations are natural numbers.
--
-- A conflation unit's methods run under its lock, so a call is one transition. A step of the bridge
-- is a stretch of code between two blocking operations: an insertion by the transport, a dequeue, an
-- acquire and a dispatch by the dispatcher, and, for a worker, entering the pool and the end of a
-- job. All interleavings of these steps are runs of the model.
--
-- The search along a chain of dependencies recurs on fuel, one more than the number of slots. With
-- proper registrations a bundle type depends on one of a smaller priority only, so that a chain is
-- no longer than that, and the search ends before the fuel does.
--
-- The database, the imported sets and, in the bridge, the handlers are parameters. A handler's
-- batch builder is the list of the calls made to it; the tables in which these calls are read are
-- maps from keys to rows. Calls are read in some order, in the first place that in which they are
-- made; the batch of a builder has them by kind, and Go goes over maps and sets in any order.
--
-- A statement is the list of the pieces of its text. maxArgsInStatement is 50000, as in the code, and
-- a statement is queued once its arguments exceed that number, so that it may have one row more.
--
-- The driver pgx, the client of the edge sync service, the JSON decoder, the process environment,
-- the Kubernetes runtime, the message keys and the aggregation levels are parameters as well. A
-- query that the driver refuses has no rows, as its Rows has no next row then. The driver takes the
-- SQL text that the code prints, with its arguments; which columns a text names is read off its
-- words. GetConfigOrDie of the Kubernetes runtime may end the process, without its deferred calls.
-- Objects reach the sync service as a list, each with the configuration that the predicates see at
-- that moment.
--
-- Not modelled: that the configuration controller and the predicates share one object, the polling
-- of the sync service and its stop, the stop of the dispatcher and of the workers, cancelled
-- contexts, log lines, and command-line flags.
mod Base
pub mod Bundle
pub mod Conflator
pub mod WorkerPool
pub mod Bridge
pub mod Db
pub mod DbSyncer
pub mod Batch
pub mod Postgresql
pub mod Transport
pub mod Startup
mod Tests
