-- ===== src/Device.antt =====
-- lib/units/base-device and lib/units/device: what runs beside each device.
pub mod GroupPlugin
pub mod Forward
pub mod Connector
pub mod Touch
