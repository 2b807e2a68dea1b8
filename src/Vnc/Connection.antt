-- ===== src/Vnc/Connection.antt =====
-- lib/units/device/plugins/vnc/util/connection.js: one VNC client, as a machine that eats bytes.
-- What the connection does to the outside is a list of effects, oldest first: what it writes to the
-- socket, what it emits, and the end of its side of the socket.
mod Types
pub mod Messages
pub mod Machine
pub mod Fuel
pub mod Auth
pub mod Requests
mod Tests
unfoldable pub use Types.*
