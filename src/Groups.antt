-- ===== src/Groups.antt =====
-- Booking: the rules for groups (lib/util/apiutil.js, lib/db/models/group and build) and the
-- scheduler that opens and closes them (lib/db/handlers/group/scheduler.js).
mod Types
pub mod Rules
pub mod Dates
pub mod Overlap
pub mod Builds
pub mod Scheduler
pub mod Quotas
pub mod Ledger
pub mod Membership
mod Tests
unfoldable pub use Types.*
