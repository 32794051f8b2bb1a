-- ===== src/Conflator.antt =====
-- pkg/conflator: registrations, conflation units, the ready queue and the conflation manager.
pub mod Registration
pub mod ReadyQueue
pub mod Unit
pub mod Manager
