-- ===== src/Recovery.antt =====
-- Loss recovery and congestion control (src/transport/recovery).
pub mod SentPackets
pub mod AckRanges
pub mod Congestion
pub mod Rtt
pub mod InFlight
pub mod SentMeta
pub mod AckPolicy
mod Tests
