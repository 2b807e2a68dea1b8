-- ===== src/Wire.antt =====
-- lib/wire: framing, ordering and channels of the message bus.
pub mod SeqQueue
pub mod Transactions
pub mod MessageStream
pub mod ChannelManager
