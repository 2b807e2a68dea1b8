-- ===== src/Util.antt =====
-- lib/util: the managers that the units share.
pub mod ProcessManager
pub mod StateQueue
pub mod FailCounter
pub mod TtlSet
