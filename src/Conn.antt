-- ===== src/Conn.antt =====
-- Connections (src/transport/conn): phases and packet numbers, closing, paths, identifiers.
pub mod Phase
pub mod Close
pub mod Path
pub mod CidPool
pub mod Pmtu
pub mod Migrate
pub mod RecvPn
pub mod CryptoRecv
mod Tests
