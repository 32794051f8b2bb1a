-- ===== src/Tests.antt =====
-- Runs of the model on concrete inputs, and the theorems at such inputs.
mod Conflation
mod Units
mod Syncing
mod ListSets
mod Queries
mod Arrivals
mod Starting
mod Orders
mod Handlers
mod Aggregated
mod Refused
