-- ===== src/Vnc.antt =====
-- lib/units/device/plugins/vnc/util: the server side of the VNC protocol.
pub mod Connection
pub mod PointerTranslator
