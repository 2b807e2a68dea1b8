-- ===== src/Provider.antt =====
-- lib/units/provider: the observer of the devices that ADB knows.
pub mod AdbDevices
pub mod AdbWire
pub mod AdbQueue
