-- ===== src/Frame.antt =====
-- Frames (src/transport/packet/frame): codecs, classification, the walk over a packet's payload.
pub mod Wire
pub mod Data
pub mod Framed
pub mod Prefix
pub mod Kinds
pub mod Walk
pub mod Ack
pub mod StreamControl
pub mod ConnControl
pub mod FlowControl
pub mod Every
pub mod Dispatch
