-- ===== src/Screen.antt =====
-- The stream of a device's screen.
pub mod BroadcastSet
