-- ===== src/Store.antt =====
-- distconf/internal/store: the deterministic state machine.
pub mod Ring
pub mod State
pub mod Emit
pub mod Apply
pub mod Registry
pub mod Watch
pub mod Snapshot
pub mod Log
pub mod Feed
