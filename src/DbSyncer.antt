-- ===== src/DbSyncer.antt =====
-- pkg/dbsyncer: what the two database syncers register with the conflation manager.
pub mod Registration
pub mod Handled
pub mod ManagedClusters
pub mod Policies
pub mod MinimalCompliance
